-- ===== src/Db/System/ForeignKeys/Written.antt =====
-- The steps of the writers of db/postgres.go keep the references between the tables.
use blkchain.Prelude.{ℕ, ◌≡◌, refl, ap, true, false, none, some, List, [], ◌∷◌, map, inl, inr}
use blkchain.Io.{Result, ok, err}
use blkchain.TxIdCache.{TxIdCache}
use blkchain.Db.{BlockRec, TxRec, TxInRec, TxOutRec, Msg, row, commit_signal}
use blkchain.Db.Table.{Table}
use blkchain.Db.Table.Works
use blkchain.Db.Writers.{
  TableName, blocks, txs, TxInTables, write_block, write_tx, write_tx_in, write_tx_out,
}
use blkchain.Db.Worker.{Action, Channel, block_ch, tx_ch, tx_in_ch, tx_out_ch, Carried}
use blkchain.Db.System.{Config, Stage, stage, set_stage, Tables, State, asks, receive, write}
use blkchain.Db.System.ForeignKeys.{keyed}
use blkchain.Db.System.ForeignKeys.Link.{take_parent, take_child}
use blkchain.Db.System.ForeignKeys.Takes
use blkchain.Db.System.ForeignKeys.Sides.{block_keys, block_refs, tx_keys, in_refs, out_refs}
use blkchain.Db.System.ForeignKeys.Refs.{gives_block, needs_block, gives_tx, needs_in, needs_out}
use blkchain.Db.System.ForeignKeys.Phase.{Phase, Settled, Acked, ends_asking}
use blkchain.Db.System.ForeignKeys.Good.{catching_up, Good, KeepsGood}

-- The signal that is waited for is still in the queue, or it is the one that was taken.
Acked-write :
    {R A : Type 0} (t t' : Table R) (st : Stage A) (m : Msg A) (ms : List (Msg A))
    → st.queue ≡ m ∷ ms
    → st.answering ≡ false
    → (asks m ≡ true → t'.pending ≡ [])
    → Acked t st
    → Acked t' (record st { queue = ms; answering = asks m })
Acked-write t t' st m ms e h done (inl a) = absurd (cc)
Acked-write t t' st m [] e h done (inr a) =
    let b : asks m ≡ true = rw (e) at a in inl (b, (done b, refl))
Acked-write t t' st m (n ∷ ms) e h done (inr a) =
    let b : ends_asking (n ∷ ms) ≡ true = rw (e) at a in inr b

-- A table with nothing in its queue has nothing to take.
not-Settled :
    {R A : Type 0} (t t' : Table R) (st st' : Stage A) (m : Msg A) (ms : List (Msg A))
    → st.queue ≡ m ∷ ms
    → Settled t st
    → Settled t' st'
not-Settled t t' st st' m ms e a = absurd (cc)

module _ (cfg : Config) (w : (name : TableName) (n : ℕ) → cfg.works name n ≡ true) (s : State)
    (p : Phase) (todo : List Action) (g : Good todo s.tables s.stages p) where
  write_block-pending :
      (m : Msg BlockRec)
      → asks m ≡ true
      → (write_block true cfg.works s.tables.t_blocks m).pending ≡ []
  unfolding write_block
  write_block-pending (row br) h = absurd (cc)
  write_block-pending (commit_signal a) h =
      Works.renew-pending (cfg.works blocks) (w blocks) s.tables.t_blocks 0

  write_tx-pending :
      (m : Msg TxRec) → asks m ≡ true → (write_tx true cfg.works s.tables.t_txs m).txs.pending ≡ []
  unfolding write_tx
  write_tx-pending (row br) h = absurd (cc)
  write_tx-pending (commit_signal a) h =
      Works.renew-pending (cfg.works txs) (w txs) s.tables.t_txs.txs 0

  took_block :
      (m : Msg BlockRec) (ms : List (Msg BlockRec))
      → s.stages.s_block.queue ≡ m ∷ ms
      → s.stages.s_block.answering ≡ false
      → Good todo
          (record s.tables { t_blocks = write_block true cfg.works s.tables.t_blocks m })
          (set_stage block_ch (record s.stages.s_block { queue = ms; answering = asks m }) s.stages)
          p
  took_block m ms e h =
      let t = s.tables.t_blocks in
      let st = s.stages.s_block in
      let t' = write_block true cfg.works t m in
      record {
        opened = record {
          o_blocks = Takes.write_block-open cfg.works w t g.opened.o_blocks m;
          o_txs = g.opened.o_txs;
          o_block_txs = g.opened.o_block_txs;
          o_tx_ins = g.opened.o_tx_ins;
          o_tx_outs = g.opened.o_tx_outs;
        };
        blocks_link =
            take_parent gives_block needs_block (keyed block_keys m) (map (keyed block_keys) ms) _
              (ap (map (keyed block_keys)) e) refl
              (Takes.write_block-Taken cfg.works w t g.opened.o_blocks m st.queue ms) g.blocks_link;
        ins_link = g.ins_link;
        outs_link = g.outs_link;
        order = g.order;
        blocks_done = λ b.
            not-Settled t t' st (record st { queue = ms; answering = asks m }) m ms e
              (g.blocks_done b);
        txs_done = g.txs_done;
        block_acked = λ b. Acked-write t t' st m ms e h (write_block-pending m) (g.block_acked b);
        tx_acked = g.tx_acked;
      }

  took_tx :
      (m : Msg TxRec) (ms : List (Msg TxRec))
      → s.stages.s_tx.queue ≡ m ∷ ms
      → s.stages.s_tx.answering ≡ false
      → Good todo
          (record s.tables { t_txs = write_tx true cfg.works s.tables.t_txs m })
          (set_stage tx_ch (record s.stages.s_tx { queue = ms; answering = asks m }) s.stages)
          p
  took_tx m ms e h =
      let t = s.tables.t_txs in
      let st = s.stages.s_tx in
      let t' = write_tx true cfg.works t m in
      let taken = Takes.write_tx-txs cfg.works w t g.opened.o_txs m st.queue ms in
      record {
        opened = record {
          o_blocks = g.opened.o_blocks;
          o_txs = Takes.write_tx-txs_open cfg.works w t g.opened.o_txs m;
          o_block_txs = Takes.write_tx-block_txs_open cfg.works w t g.opened.o_block_txs m;
          o_tx_ins = g.opened.o_tx_ins;
          o_tx_outs = g.opened.o_tx_outs;
        };
        blocks_link =
            take_child gives_block needs_block (keyed block_refs m) (map (keyed block_refs) ms) _
              (ap (map (keyed block_refs)) e) refl
              (Takes.write_tx-block_txs cfg.works w t g.opened.o_block_txs m st.queue ms)
              g.blocks_link;
        ins_link =
            take_parent gives_tx needs_in (keyed tx_keys m) (map (keyed tx_keys) ms) _
              (ap (map (keyed tx_keys)) e) refl taken g.ins_link;
        outs_link =
            take_parent gives_tx needs_out (keyed tx_keys m) (map (keyed tx_keys) ms) _
              (ap (map (keyed tx_keys)) e) refl taken g.outs_link;
        order = g.order;
        blocks_done = g.blocks_done;
        txs_done = λ b.
            not-Settled t.txs t'.txs st (record st { queue = ms; answering = asks m }) m ms e
              (g.txs_done b);
        block_acked = g.block_acked;
        tx_acked = λ b. Acked-write t.txs t'.txs st m ms e h (write_tx-pending m) (g.tx_acked b);
      }

  took_out :
      (m : Msg TxOutRec) (ms : List (Msg TxOutRec))
      → s.stages.s_tx_out.queue ≡ m ∷ ms
      → Good todo
          (record s.tables {
            t_tx_outs = write_tx_out true cfg.works cfg.utxo s.tables.t_tx_outs m;
          })
          (set_stage tx_out_ch
            (record s.stages.s_tx_out { queue = ms; answering = asks m })
            s.stages)
          p
  took_out m ms e =
      let t = s.tables.t_tx_outs in
      record {
        opened = record {
          o_blocks = g.opened.o_blocks;
          o_txs = g.opened.o_txs;
          o_block_txs = g.opened.o_block_txs;
          o_tx_ins = g.opened.o_tx_ins;
          o_tx_outs = Takes.write_tx_out-open cfg.works w cfg.utxo t g.opened.o_tx_outs m;
        };
        blocks_link = g.blocks_link;
        ins_link = g.ins_link;
        outs_link =
            take_child gives_tx needs_out (keyed out_refs m) (map (keyed out_refs) ms) _
              (ap (map (keyed out_refs)) e) refl
              (Takes.write_tx_out-Taken cfg.works w cfg.utxo t g.opened.o_tx_outs m
                s.stages.s_tx_out.queue ms)
              g.outs_link;
        order = g.order;
        blocks_done = g.blocks_done;
        txs_done = g.txs_done;
        block_acked = g.block_acked;
        tx_acked = g.tx_acked;
      }

  took_in :
      (m : Msg TxInRec) (ms : List (Msg TxInRec)) (c : TxIdCache) (u : TxInTables)
      → s.stages.s_tx_in.queue ≡ m ∷ ms
      → Takes.TakesIn cfg.works w cfg.nil_witness s.tables.cache s.tables.t_tx_ins g.opened.o_tx_ins
          m s.stages.s_tx_in.queue ms
          (ok (c, u))
      → Good todo
          (record s.tables { t_tx_ins = u; cache = c })
          (set_stage tx_in_ch (record s.stages.s_tx_in { queue = ms; answering = asks m }) s.stages)
          p
  took_in m ms c u e taken = record {
    opened = record {
      o_blocks = g.opened.o_blocks;
      o_txs = g.opened.o_txs;
      o_block_txs = g.opened.o_block_txs;
      o_tx_ins = taken.0;
      o_tx_outs = g.opened.o_tx_outs;
    };
    blocks_link = g.blocks_link;
    ins_link =
        take_child gives_tx needs_in (keyed in_refs m) (map (keyed in_refs) ms) _
          (ap (map (keyed in_refs)) e) refl taken.1 g.ins_link;
    outs_link = g.outs_link;
    order = g.order;
    blocks_done = g.blocks_done;
    txs_done = g.txs_done;
    block_acked = g.block_acked;
    tx_acked = g.tx_acked;
  }

  in_step :
      (m : Msg TxInRec) (ms : List (Msg TxInRec)) (r : Result (TxIdCache × TxInTables))
      → s.todo ≡ todo
      → s.stages.s_tx_in.queue ≡ m ∷ ms
      → Takes.TakesIn cfg.works w cfg.nil_witness s.tables.cache s.tables.t_tx_ins g.opened.o_tx_ins
          m s.stages.s_tx_in.queue ms r
      → KeepsGood
          (elim (elim r as (λ x. Result Tables) [
            | err e ↦ err e
            | ok (c, u) ↦ ok (record s.tables { t_tx_ins = u; cache = c })
          ]) [
            | err e ↦ none
            | ok t ↦ some (record s {
              tables = t;
              stages =
                  set_stage tx_in_ch
                    (record s.stages.s_tx_in { queue = ms; answering = asks m })
                    s.stages;
            })
          ])
  in_step m ms (err x) f e taken = tt
  in_step m ms (ok (c, u)) f e taken = (p, rw (f) (took_in m ms c u e taken))

  pub take-Good :
      (c : Channel) (m : Msg (Carried c)) (ms : List (Msg (Carried c)))
      → s.todo ≡ todo
      → (stage c s.stages).queue ≡ m ∷ ms
      → (stage c s.stages).answering ≡ false
      → KeepsGood (write (catching_up cfg) c (m ∷ ms) s)
  unfolding write receive
  take-Good block_ch m ms f e h = (p, rw (f) (took_block m ms e h))
  take-Good tx_ch m ms f e h = (p, rw (f) (took_tx m ms e h))
  take-Good tx_in_ch m ms f e h =
      in_step m ms
        (write_tx_in true cfg.works false cfg.nil_witness s.tables.cache s.tables.t_tx_ins m) f e
        (Takes.write_tx_in-TakesIn cfg.works w cfg.nil_witness s.tables.cache s.tables.t_tx_ins
          g.opened.o_tx_ins m s.stages.s_tx_in.queue ms)
  take-Good tx_out_ch m ms f e h = (p, rw (f) (took_out m ms e))

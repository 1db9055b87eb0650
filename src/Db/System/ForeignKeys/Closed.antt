-- ===== src/Db/System/ForeignKeys/Closed.antt =====
-- The last commits of the writers of db/postgres.go keep the references between the tables: the rows that
-- are referred to are there by then.
use blkchain.Db.System.Ends.{Ends-if_any}
use blkchain.Prelude.{ℕ, ◌≡◌, refl, ap, ◌∙◌, true, false, [], map, arith}
use blkchain.Db.Table.Works
use blkchain.Db.Writers.{
  TableName, blocks, txs, block_txs, txins, txouts, miss_calls, commit_tx_ins,
}
use blkchain.Db.Worker.{Channel, block_ch, tx_ch, tx_in_ch, tx_out_ch}
use blkchain.Db.System.{Config, stage, set_stage, State, last_commit, write}
use blkchain.Db.System.ForeignKeys.{keyed}
use blkchain.Db.System.ForeignKeys.Link.{last_parent, last_child}
use blkchain.Db.System.ForeignKeys.Takes
use blkchain.Db.System.ForeignKeys.Sides.{block_keys, block_refs, tx_keys, in_refs, out_refs}
use blkchain.Db.System.ForeignKeys.Refs.{gives_block, needs_block, gives_tx, needs_in, needs_out}
use blkchain.Db.System.ForeignKeys.Phase.{Phase, ordered, settled_phase, Settled}
use blkchain.Db.System.ForeignKeys.Good.{IsGood, catching_up, Good, KeepsGood}

module _ (cfg : Config) (w : (name : TableName) (n : ℕ) → cfg.works name n ≡ true) (s : State)
    (p : Phase) (g : Good [] s.tables s.stages p) where
  blocks-Settled : Settled s.tables.t_blocks s.stages.s_block
  unfolding ordered
  blocks-Settled = g.blocks_done (ground (arith, g.order))

  txs-Settled : Settled s.tables.t_txs.txs s.stages.s_tx
  unfolding ordered
  txs-Settled = g.txs_done (ground (arith, g.order))

  last_block :
      s.stages.s_block.queue ≡ []
      → Good []
          (last_commit (catching_up cfg) block_ch s.tables)
          (set_stage block_ch (record s.stages.s_block { returned = true }) s.stages)
          settled_phase
  unfolding last_commit ordered
  last_block e =
      let t = s.tables.t_blocks in
      let q = ap (map (keyed block_keys)) e in
      record {
        opened = record {
          o_blocks = Works.commit-open (cfg.works blocks) (w blocks) t 0 ∙ g.opened.o_blocks;
          o_txs = g.opened.o_txs;
          o_block_txs = g.opened.o_block_txs;
          o_tx_ins = g.opened.o_tx_ins;
          o_tx_outs = g.opened.o_tx_outs;
        };
        blocks_link =
            last_parent gives_block needs_block _ false q q
              (Takes.commit-Taken (λ r. r.id) block_keys (cfg.works blocks) (w blocks) t
                g.opened.o_blocks s.stages.s_block.queue s.stages.s_block.queue 0 false)
              g.blocks_link;
        ins_link = g.ins_link;
        outs_link = g.outs_link;
        order = refl;
        blocks_done =
            λ b. (Works.commit-pending (cfg.works blocks) (w blocks) t 0 g.opened.o_blocks, e);
        txs_done = λ b. txs-Settled;
        block_acked = λ h. absurd (cc);
        tx_acked = λ h. absurd (cc);
      }

  last_tx :
      s.stages.s_tx.queue ≡ []
      → Good []
          (last_commit (catching_up cfg) tx_ch s.tables)
          (set_stage tx_ch (record s.stages.s_tx { returned = true }) s.stages)
          settled_phase
  unfolding last_commit ordered
  last_tx e =
      let t = s.tables.t_txs in
      let q = ap (map (keyed block_refs)) e in
      let r = ap (map (keyed tx_keys)) e in
      let taken =
        Takes.commit-Taken (λ r. r.id) tx_keys (cfg.works txs) (w txs) t.txs g.opened.o_txs
          s.stages.s_tx.queue s.stages.s_tx.queue 0 false in
      record {
        opened = record {
          o_blocks = g.opened.o_blocks;
          o_txs = Works.commit-open (cfg.works txs) (w txs) t.txs 0 ∙ g.opened.o_txs;
          o_block_txs =
              Works.commit-open (cfg.works block_txs) (w block_txs) t.block_txs 0
              ∙ g.opened.o_block_txs;
          o_tx_ins = g.opened.o_tx_ins;
          o_tx_outs = g.opened.o_tx_outs;
        };
        blocks_link =
            last_child gives_block needs_block _ false (ap (map (λ r. r.id)) blocks-Settled.0)
              (ap (map (keyed block_keys)) blocks-Settled.1) q q
              (Takes.commit-Taken (λ r. r.block_id) block_refs (cfg.works block_txs) (w block_txs)
                t.block_txs g.opened.o_block_txs s.stages.s_tx.queue s.stages.s_tx.queue 0 false)
              g.blocks_link;
        ins_link = last_parent gives_tx needs_in _ false r r taken g.ins_link;
        outs_link = last_parent gives_tx needs_out _ false r r taken g.outs_link;
        order = refl;
        blocks_done = λ b. blocks-Settled;
        txs_done = λ b. (Works.commit-pending (cfg.works txs) (w txs) t.txs 0 g.opened.o_txs, e);
        block_acked = λ h. absurd (cc);
        tx_acked = λ h. absurd (cc);
      }

  last_in :
      s.stages.s_tx_in.queue ≡ []
      → Good []
          (last_commit (catching_up cfg) tx_in_ch s.tables)
          (set_stage tx_in_ch (record s.stages.s_tx_in { returned = true }) s.stages)
          settled_phase
  unfolding last_commit ordered commit_tx_ins
  last_in e =
      let t = s.tables.t_tx_ins.txins in
      let q = ap (map (keyed in_refs)) e in
      record {
        opened = record {
          o_blocks = g.opened.o_blocks;
          o_txs = g.opened.o_txs;
          o_block_txs = g.opened.o_block_txs;
          o_tx_ins =
              Works.commit-open (cfg.works txins) (w txins) t (miss_calls s.tables.t_tx_ins.misses)
              ∙ g.opened.o_tx_ins;
          o_tx_outs = g.opened.o_tx_outs;
        };
        blocks_link = g.blocks_link;
        ins_link =
            last_child gives_tx needs_in _ false (ap (map (λ r. r.id)) txs-Settled.0)
              (ap (map (keyed tx_keys)) txs-Settled.1) q q
              (Takes.commit-Taken (λ r. r.tx_id) in_refs (cfg.works txins) (w txins) t
                g.opened.o_tx_ins s.stages.s_tx_in.queue s.stages.s_tx_in.queue
                (miss_calls s.tables.t_tx_ins.misses) false)
              g.ins_link;
        outs_link = g.outs_link;
        order = refl;
        blocks_done = λ b. blocks-Settled;
        txs_done = λ b. txs-Settled;
        block_acked = λ h. absurd (cc);
        tx_acked = λ h. absurd (cc);
      }

  last_out :
      s.stages.s_tx_out.queue ≡ []
      → Good []
          (last_commit (catching_up cfg) tx_out_ch s.tables)
          (set_stage tx_out_ch (record s.stages.s_tx_out { returned = true }) s.stages)
          settled_phase
  unfolding last_commit ordered
  last_out e =
      let t = s.tables.t_tx_outs in
      let q = ap (map (keyed out_refs)) e in
      record {
        opened = record {
          o_blocks = g.opened.o_blocks;
          o_txs = g.opened.o_txs;
          o_block_txs = g.opened.o_block_txs;
          o_tx_ins = g.opened.o_tx_ins;
          o_tx_outs = Works.commit-open (cfg.works txouts) (w txouts) t 0 ∙ g.opened.o_tx_outs;
        };
        blocks_link = g.blocks_link;
        ins_link = g.ins_link;
        outs_link =
            last_child gives_tx needs_out _ false (ap (map (λ r. r.id)) txs-Settled.0)
              (ap (map (keyed tx_keys)) txs-Settled.1) q q
              (Takes.commit-Taken (λ r. r.tx_id) out_refs (cfg.works txouts) (w txouts) t
                g.opened.o_tx_outs s.stages.s_tx_out.queue s.stages.s_tx_out.queue 0 false)
              g.outs_link;
        order = refl;
        blocks_done = λ b. blocks-Settled;
        txs_done = λ b. txs-Settled;
        block_acked = λ h. absurd (cc);
        tx_acked = λ h. absurd (cc);
      }

  pub return-Good :
      (c : Channel)
      → s.todo ≡ []
      → (stage c s.stages).queue ≡ []
      → KeepsGood (write (catching_up cfg) c [] s)
  unfolding write
  return-Good block_ch f e = Ends-if_any IsGood s.closed _ (settled_phase, rw (f) (last_block e))
  return-Good tx_ch f e = Ends-if_any IsGood s.closed _ (settled_phase, rw (f) (last_tx e))
  return-Good tx_in_ch f e = Ends-if_any IsGood s.closed _ (settled_phase, rw (f) (last_in e))
  return-Good tx_out_ch f e = Ends-if_any IsGood s.closed _ (settled_phase, rw (f) (last_out e))

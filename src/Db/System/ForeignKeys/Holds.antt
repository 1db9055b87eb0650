-- ===== src/Db/System/ForeignKeys/Holds.antt =====
-- The references between the tables of db/postgres.go hold at all times while it catches up.
use blkchain.Db.System.Ends.{Ends-else}
use blkchain.Prelude.{ℕ, ◌≡◌, refl, subst, true, false, ◌||◌, List, [], ◌∷◌, map, arith}
use blkchain.Db.{BlockRecSync, Msg}
use blkchain.Db.Table.{begin}
use blkchain.Db.Table.Works
use blkchain.Db.Writers.{TableName, blocks, txs, block_txs, txins, txouts}
use blkchain.Db.Worker.{Action, send, await, reply, do_tx, Channel, Carried, Heights}
use blkchain.Db.System.{
  Config, stage, Tables, State, Turn, worker, writer, answer, act, work, hear, write, step, Run,
  stop, later, begin_all, start,
}
use blkchain.Db.System.Invariant.{Inv, Inv-step, start-Inv, busy}
use blkchain.Db.System.ForeignKeys.{Within, Within-nil, keys}
use blkchain.Db.System.ForeignKeys.Link.{Covered, Fed}
use blkchain.Db.System.ForeignKeys.Phase.{Phase, ordered, settled_phase}
use blkchain.Db.System.ForeignKeys.Good.{catching_up, Good, IsGood, KeepsGood}
use blkchain.Db.System.ForeignKeys.Worked.{next_block-Good, reply-Good, do_tx-Good}
use blkchain.Db.System.ForeignKeys.Sent.{send-Good}
use blkchain.Db.System.ForeignKeys.Heard.{await-Good}
use blkchain.Db.System.ForeignKeys.Written.{take-Good}
use blkchain.Db.System.ForeignKeys.Closed.{return-Good}

-- Every row that is committed refers to a row that is committed: the transactions in blocks to their
-- block, the inputs and outputs to their transaction.
abbrev pub RefersToRows : Tables → Type 0
RefersToRows t =
    Within (map (λ r. r.block_id) t.t_txs.block_txs.committed)
      (map (λ r. r.id) t.t_blocks.committed)
    × (Within (map (λ r. r.tx_id) t.t_tx_ins.txins.committed)
          (map (λ r. r.id) t.t_txs.txs.committed)
        × Within (map (λ r. r.tx_id) t.t_tx_outs.committed) (map (λ r. r.id) t.t_txs.txs.committed))

module _ (cfg : Config) (w : (name : TableName) (n : ℕ) → cfg.works name n ≡ true) where
  module _ (s : State) (i : Inv s) (p : Phase) where
    work-Good :
        (hs : Heights) (todo : List Action)
        → s.todo ≡ todo
        → Good todo s.tables s.stages p
        → KeepsGood (work (catching_up cfg) hs todo s)
    unfolding work act
    work-Good hs [] e g = next_block-Good cfg s p hs s.input e g
    work-Good hs (send c m ∷ rest) e g = send-Good cfg s p c m rest g
    work-Good hs (await ∷ rest) e g = tt
    work-Good hs (reply r ∷ rest) e g = reply-Good cfg s p r rest g
    work-Good hs (do_tx b n tx ∷ rest) e g = do_tx-Good cfg s p b n tx rest g

    hear-Good :
        (c : Channel) (todo : List Action)
        → s.todo ≡ todo
        → Good todo s.tables s.stages p
        → KeepsGood (hear (catching_up cfg) c todo s)
    unfolding hear
    hear-Good c [] e g = tt
    hear-Good c (send d m ∷ rest) e g = tt
    hear-Good c (reply r ∷ rest) e g = tt
    hear-Good c (do_tx b n tx ∷ rest) e g = tt
    hear-Good c (await ∷ rest) e g = await-Good cfg s p rest c g (rw (e) at i.owed)

    -- A writer returns when the channels are closed, and then nothing is left to do.
    returns-Good :
        (c : Channel) (todo : List Action)
        → s.todo ≡ todo
        → (stage c s.stages).queue ≡ []
        → Good todo s.tables s.stages p
        → KeepsGood (write (catching_up cfg) c [] s)
    unfolding write
    returns-Good c [] e q g = return-Good cfg w s p g c e q
    returns-Good c (a ∷ rest) e q g = rw (busy (catching_up cfg) s i a rest e) tt

    write-Good :
        (c : Channel) (ms : List (Msg (Carried c)))
        → (stage c s.stages).queue ≡ ms
        → (stage c s.stages).answering ≡ false
        → Good s.todo s.tables s.stages p
        → KeepsGood (write (catching_up cfg) c ms s)
    write-Good c [] e h g = returns-Good c s.todo refl e g
    write-Good c (m ∷ ms) e h g = take-Good cfg w s p s.todo g c m ms refl e h

    step-Good :
        (turn : Turn) → Good s.todo s.tables s.stages p → KeepsGood (step (catching_up cfg) turn s)
    unfolding step
    step-Good (worker hs) g = work-Good hs s.todo refl g
    step-Good (answer c) g = hear-Good c s.todo refl g
    step-Good (writer c) g =
        let st = stage c s.stages in
        Ends-else IsGood (st.answering || st.returned) _
          (λ h. write-Good c st.queue refl (ground arith) g)

  Run-Good : {n : ℕ} {s t : State} → Run (catching_up cfg) n s t → Inv s → IsGood s → IsGood t
  Run-Good stop i g = g
  Run-Good {s = s} (later turn e r) i g =
      Run-Good r (Inv-step (catching_up cfg) turn i e)
        (subst KeepsGood e (step-Good s i g.0 turn g.1))

  start-Good :
      (block_id tx_id : ℕ) (hs : Heights) (t : Tables) (bs : List BlockRecSync)
      → RefersToRows t
      → IsGood (start (catching_up cfg) block_id tx_id hs t bs)
  unfolding start begin_all begin ordered Covered Fed keys
  start-Good block_id tx_id hs t bs f = (
    settled_phase,
    record {
      opened = record {
        o_blocks = Works.begin-open (cfg.works blocks) (w blocks) t.t_blocks;
        o_txs = Works.begin-open (cfg.works txs) (w txs) t.t_txs.txs;
        o_block_txs = Works.begin-open (cfg.works block_txs) (w block_txs) t.t_txs.block_txs;
        o_tx_ins = Works.begin-open (cfg.works txins) (w txins) t.t_tx_ins.txins;
        o_tx_outs = Works.begin-open (cfg.works txouts) (w txouts) t.t_tx_outs;
      };
      blocks_link = record { foreign = f.0; covered = tt; fed_queue = Within-nil _; fed_todo = tt };
      ins_link = record { foreign = f.1.0; covered = tt; fed_queue = Within-nil _; fed_todo = tt };
      outs_link = record { foreign = f.1.1; covered = tt; fed_queue = Within-nil _; fed_todo = tt };
      order = refl;
      blocks_done = λ b. (refl, refl);
      txs_done = λ b. (refl, refl);
      block_acked = λ h. absurd (cc);
      tx_acked = λ h. absurd (cc);
    },
  )

-- While the goroutines catch up, so that the constraints of the database exist, and its calls all
-- work, in every state that the block worker and the four writers reach from the start, in any
-- order of their steps, every committed row that places a transaction in a block refers to a
-- committed block, and every committed input or output to a committed transaction, if this held
-- for the tables at the start.
pub foreign_keys :
    (cfg : Config) (block_id tx_id : ℕ) (hs : Heights) (t : Tables) (bs : List BlockRecSync) {n : ℕ}
    {s : State}
    → ((name : TableName) (k : ℕ) → cfg.works name k ≡ true)
    → RefersToRows t
    → Run (catching_up cfg) n (start (catching_up cfg) block_id tx_id hs t bs) s
    → RefersToRows s.tables
foreign_keys cfg block_id tx_id hs t bs w f r =
    let (p, g) =
      Run-Good cfg w r (start-Inv (catching_up cfg) block_id tx_id hs t bs)
        (start-Good cfg w block_id tx_id hs t bs f) in
    (g.blocks_link.foreign, (g.ins_link.foreign, g.outs_link.foreign))

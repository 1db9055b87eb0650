-- ===== src/Db/System/ForeignKeys/Sent.antt =====
-- What `pgBlockWorker` of db/postgres.go sends keeps the references between the tables.
use blkchain.Db.System.Ends.{Ends-if_any}
use blkchain.Prelude.{
  ◌≡◌, refl, sym, ap, subst, Bool, true, false, none, some, List, [], ◌∷◌, ◌++◌, map, map-append,
  length, ltb, if◌then◌else◌, inr,
}
use blkchain.Db.{Msg, row, commit_signal}
use blkchain.Db.Worker.{Action, send, Channel, block_ch, tx_ch, tx_in_ch, tx_out_ch, Carried}
use blkchain.Db.System.{Config, set_stage, asks, State, act}
use blkchain.Db.System.ForeignKeys.{Keys, keyed}
use blkchain.Db.System.ForeignKeys.Link.{LinkInv, Side, skip, send_parent, send_row, send_commit}
use blkchain.Db.System.ForeignKeys.Sides.{
  block_keys, block_refs, tx_keys, in_refs, out_refs, blocks_side, block_txs_side, txs_side,
  tx_ins_side, tx_outs_side,
}
use blkchain.Db.System.ForeignKeys.Refs.{gives_block, needs_block, gives_tx, needs_in, needs_out}
use blkchain.Db.System.ForeignKeys.Phase.{Phase, after, ends_asking-send}
use blkchain.Db.System.ForeignKeys.Worked.{allowed_now, ordered_rest}
use blkchain.Db.System.ForeignKeys.Good.{IsGood, catching_up, Good, KeepsGood}

-- The queue of a side, behind a message that is sent.
queue-send :
    {A : Type 0} (f : A → Keys) (q : List (Msg A)) (m : Msg A)
    → map (keyed f) q ++ keyed f m ∷ [] ≡ map (keyed f) (q ++ m ∷ [])
queue-send f q m = sym (map-append (keyed f) q (m ∷ []))

next_is : (s : Bool) (c d : Channel) → (if s then some c else none) ≡ some d → (s ≡ true) × (c ≡ d)
next_is true c d h = (refl, cc)
next_is false c d h = absurd (cc)

module _ (cfg : Config) (s : State) (p : Phase) where
  -- The sides behind a message on each channel.
  block_side-send :
      (m : Msg (Carried block_ch)) (rest : List Action)
      → Good (send block_ch m ∷ rest) s.tables s.stages p
      → LinkInv gives_block needs_block rest
          (blocks_side s.tables (
            set_stage block_ch
              (record s.stages.s_block { queue = s.stages.s_block.queue ++ m ∷ [] })
              s.stages))
          (block_txs_side s.tables s.stages)
  unfolding gives_block
  block_side-send m rest g =
      let p = blocks_side s.tables s.stages in
      subst
        (λ q.
          LinkInv gives_block needs_block rest (record p { queue = q })
            (block_txs_side s.tables s.stages))
        (queue-send block_keys s.stages.s_block.queue m)
        (send_parent gives_block needs_block (send block_ch m) rest g.blocks_link
          (keyed block_keys m) refl)

  send_block-Good :
      (m : Msg (Carried block_ch)) (rest : List Action)
      → Good (send block_ch m ∷ rest) s.tables s.stages p
      → KeepsGood (act (catching_up cfg) (send block_ch m) rest s)
  unfolding act gives_tx
  send_block-Good m rest g =
      let a = send block_ch m in
      Ends-if_any IsGood (ltb (length s.stages.s_block.queue) 2) _ (
        after a p,
        record {
          opened = g.opened;
          blocks_link = block_side-send m rest g;
          ins_link = skip gives_tx needs_in a rest g.ins_link refl;
          outs_link = skip gives_tx needs_out a rest g.outs_link refl;
          order = ordered_rest cfg s p a rest g;
          blocks_done = λ h. absurd (cc);
          txs_done = g.txs_done;
          block_acked = λ h.
              inr (
                ends_asking-send s.stages.s_block.queue m (next_is (asks m) block_ch block_ch h).0);
          tx_acked = λ h. absurd (cc (next_is (asks m) block_ch tx_ch h).1);
        },
      )

  tx_side-send :
      (m : Msg (Carried tx_ch)) (rest : List Action) (needs : Action → Keys) (c : Side)
      → LinkInv gives_tx needs (send tx_ch m ∷ rest) (txs_side s.tables s.stages) c
      → LinkInv gives_tx needs rest
          (txs_side s.tables (
            set_stage tx_ch
              (record s.stages.s_tx { queue = s.stages.s_tx.queue ++ m ∷ [] })
              s.stages))
          c
  unfolding gives_tx
  tx_side-send m rest needs c i =
      let p = txs_side s.tables s.stages in
      subst (λ q. LinkInv gives_tx needs rest (record p { queue = q }) c)
        (queue-send tx_keys s.stages.s_tx.queue m)
        (send_parent gives_tx needs (send tx_ch m) rest i (keyed tx_keys m) refl)

  tx_ref-send :
      (m : Msg (Carried tx_ch)) (rest : List Action)
      → Good (send tx_ch m ∷ rest) s.tables s.stages p
      → LinkInv gives_block needs_block rest (blocks_side s.tables s.stages) (
          block_txs_side s.tables (
            set_stage tx_ch
              (record s.stages.s_tx { queue = s.stages.s_tx.queue ++ m ∷ [] })
              s.stages))
  unfolding gives_block needs_block
  tx_ref-send (row tr) rest g =
      let c = block_txs_side s.tables s.stages in
      subst
        (λ q.
          LinkInv gives_block needs_block rest (blocks_side s.tables s.stages)
            (record c { queue = q }))
        (queue-send block_refs s.stages.s_tx.queue (row tr))
        (send_row gives_block needs_block (send tx_ch (row tr)) rest g.blocks_link (block_refs tr)
          refl refl)
  tx_ref-send (commit_signal a) rest g =
      let c = block_txs_side s.tables s.stages in
      let (pending, queue) =
        g.blocks_done (allowed_now cfg s p (send tx_ch (commit_signal a)) rest g) in
      subst
        (λ q.
          LinkInv gives_block needs_block rest (blocks_side s.tables s.stages)
            (record c { queue = q }))
        (queue-send block_refs s.stages.s_tx.queue (commit_signal a))
        (send_commit gives_block needs_block (send tx_ch (commit_signal a)) rest g.blocks_link a
          refl (ap (map (λ r. r.id)) pending) (ap (map (keyed block_keys)) queue))

  send_tx-Good :
      (m : Msg (Carried tx_ch)) (rest : List Action)
      → Good (send tx_ch m ∷ rest) s.tables s.stages p
      → KeepsGood (act (catching_up cfg) (send tx_ch m) rest s)
  unfolding act
  send_tx-Good m rest g =
      let a = send tx_ch m in
      Ends-if_any IsGood (ltb (length s.stages.s_tx.queue) 64) _ (
        after a p,
        record {
          opened = g.opened;
          blocks_link = tx_ref-send m rest g;
          ins_link = tx_side-send m rest needs_in (tx_ins_side s.tables s.stages) g.ins_link;
          outs_link = tx_side-send m rest needs_out (tx_outs_side s.tables s.stages) g.outs_link;
          order = ordered_rest cfg s p a rest g;
          blocks_done = g.blocks_done;
          txs_done = λ h. absurd (cc);
          block_acked = λ h. absurd (cc (next_is (asks m) tx_ch block_ch h).1);
          tx_acked =
              λ h. inr (ends_asking-send s.stages.s_tx.queue m (next_is (asks m) tx_ch tx_ch h).0);
        },
      )

  in_ref-send :
      (m : Msg (Carried tx_in_ch)) (rest : List Action)
      → Good (send tx_in_ch m ∷ rest) s.tables s.stages p
      → LinkInv gives_tx needs_in rest (txs_side s.tables s.stages) (
          tx_ins_side s.tables (
            set_stage tx_in_ch
              (record s.stages.s_tx_in { queue = s.stages.s_tx_in.queue ++ m ∷ [] })
              s.stages))
  unfolding gives_tx needs_in
  in_ref-send (row tr) rest g =
      let c = tx_ins_side s.tables s.stages in
      subst
        (λ q. LinkInv gives_tx needs_in rest (txs_side s.tables s.stages) (record c { queue = q }))
        (queue-send in_refs s.stages.s_tx_in.queue (row tr))
        (send_row gives_tx needs_in (send tx_in_ch (row tr)) rest g.ins_link (in_refs tr) refl refl)
  in_ref-send (commit_signal a) rest g =
      let c = tx_ins_side s.tables s.stages in
      let (pending, queue) =
        g.txs_done (allowed_now cfg s p (send tx_in_ch (commit_signal a)) rest g) in
      subst
        (λ q. LinkInv gives_tx needs_in rest (txs_side s.tables s.stages) (record c { queue = q }))
        (queue-send in_refs s.stages.s_tx_in.queue (commit_signal a))
        (send_commit gives_tx needs_in (send tx_in_ch (commit_signal a)) rest g.ins_link a refl
          (ap (map (λ r. r.id)) pending) (ap (map (keyed tx_keys)) queue))

  send_in-Good :
      (m : Msg (Carried tx_in_ch)) (rest : List Action)
      → Good (send tx_in_ch m ∷ rest) s.tables s.stages p
      → KeepsGood (act (catching_up cfg) (send tx_in_ch m) rest s)
  unfolding act gives_block gives_tx
  send_in-Good m rest g =
      let a = send tx_in_ch m in
      Ends-if_any IsGood (ltb (length s.stages.s_tx_in.queue) 64) _ (
        after a p,
        record {
          opened = g.opened;
          blocks_link = skip gives_block needs_block a rest g.blocks_link refl;
          ins_link = in_ref-send m rest g;
          outs_link = skip gives_tx needs_out a rest g.outs_link refl;
          order = ordered_rest cfg s p a rest g;
          blocks_done = g.blocks_done;
          txs_done = g.txs_done;
          block_acked = λ h. absurd (cc);
          tx_acked = λ h. absurd (cc);
        },
      )

  out_ref-send :
      (m : Msg (Carried tx_out_ch)) (rest : List Action)
      → Good (send tx_out_ch m ∷ rest) s.tables s.stages p
      → LinkInv gives_tx needs_out rest (txs_side s.tables s.stages) (
          tx_outs_side s.tables (
            set_stage tx_out_ch
              (record s.stages.s_tx_out { queue = s.stages.s_tx_out.queue ++ m ∷ [] })
              s.stages))
  unfolding gives_tx needs_out
  out_ref-send (row tr) rest g =
      let c = tx_outs_side s.tables s.stages in
      subst
        (λ q. LinkInv gives_tx needs_out rest (txs_side s.tables s.stages) (record c { queue = q }))
        (queue-send out_refs s.stages.s_tx_out.queue (row tr))
        (send_row gives_tx needs_out (send tx_out_ch (row tr)) rest g.outs_link (out_refs tr) refl
          refl)
  out_ref-send (commit_signal a) rest g =
      let c = tx_outs_side s.tables s.stages in
      let (pending, queue) =
        g.txs_done (allowed_now cfg s p (send tx_out_ch (commit_signal a)) rest g) in
      subst
        (λ q. LinkInv gives_tx needs_out rest (txs_side s.tables s.stages) (record c { queue = q }))
        (queue-send out_refs s.stages.s_tx_out.queue (commit_signal a))
        (send_commit gives_tx needs_out (send tx_out_ch (commit_signal a)) rest g.outs_link a refl
          (ap (map (λ r. r.id)) pending) (ap (map (keyed tx_keys)) queue))

  send_out-Good :
      (m : Msg (Carried tx_out_ch)) (rest : List Action)
      → Good (send tx_out_ch m ∷ rest) s.tables s.stages p
      → KeepsGood (act (catching_up cfg) (send tx_out_ch m) rest s)
  unfolding act gives_block gives_tx
  send_out-Good m rest g =
      let a = send tx_out_ch m in
      Ends-if_any IsGood (ltb (length s.stages.s_tx_out.queue) 64) _ (
        after a p,
        record {
          opened = g.opened;
          blocks_link = skip gives_block needs_block a rest g.blocks_link refl;
          outs_link = out_ref-send m rest g;
          ins_link = skip gives_tx needs_in a rest g.ins_link refl;
          order = ordered_rest cfg s p a rest g;
          blocks_done = g.blocks_done;
          txs_done = g.txs_done;
          block_acked = λ h. absurd (cc);
          tx_acked = λ h. absurd (cc);
        },
      )

  pub send-Good :
      (c : Channel) (m : Msg (Carried c)) (rest : List Action)
      → Good (send c m ∷ rest) s.tables s.stages p
      → KeepsGood (act (catching_up cfg) (send c m) rest s)
  send-Good block_ch m rest g = send_block-Good m rest g
  send-Good tx_ch m rest g = send_tx-Good m rest g
  send-Good tx_in_ch m rest g = send_in-Good m rest g
  send-Good tx_out_ch m rest g = send_out-Good m rest g

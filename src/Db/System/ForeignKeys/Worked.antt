-- ===== src/Db/System/ForeignKeys/Worked.antt =====
-- The steps of `pgBlockWorker` of db/postgres.go keep the references between the tables.
use blkchain.Db.System.Ends.{Ends-unless_any}
use blkchain.Prelude.{ℕ, ◌+◌, ◌%◌, ◌^◌, ◌≡◌, refl, sym, subst, Bool, true, List, [], ◌∷◌, arith}
use blkchain.Tx.{Tx}
use blkchain.Db.{BlockRecSync}
use blkchain.Db.Worker.{Action, reply, do_tx, Heights}
use blkchain.Db.System.{Config, State, next_block, act}
use blkchain.Db.System.ForeignKeys.Link.{Fed, known, with_todo, tail, skip}
use blkchain.Db.System.ForeignKeys.Sides.{blocks_side, txs_side}
use blkchain.Db.System.ForeignKeys.Refs.{gives_block, needs_block, gives_tx, needs_in, needs_out}
use blkchain.Db.System.ForeignKeys.Sends.{
  block_actions-blocks, block_actions-ins, block_actions-outs, transaction-blocks, transaction-ins,
  transaction-outs,
}
use blkchain.Db.System.ForeignKeys.Phase.{
  Phase, after, allowed, ordered, settled_phase, ordered-block_actions, ordered-transaction,
}
use blkchain.Db.System.ForeignKeys.Good.{IsGood, catching_up, Good, KeepsGood}

module _ (cfg : Config) (s : State) where
  module _ (p : Phase) where
    pub next_block-Good :
        (hs : Heights) (bs : List BlockRecSync)
        → s.todo ≡ []
        → Good [] s.tables s.stages p
        → KeepsGood (next_block (catching_up cfg) hs bs s)
    unfolding next_block ordered
    next_block-Good hs [] e g =
        Ends-unless_any IsGood s.closed (record s { closed = true })
          (p, subst (λ x. Good x s.tables s.stages p) (sym e) g)
    next_block-Good hs (b ∷ bs) e g =
        let id = (s.block_id + 1) % 2 ^ 64 in
        (
          settled_phase,
          record {
            opened = g.opened;
            blocks_link =
                with_todo gives_block needs_block
                  (block_actions-blocks cfg.sha256 (known (blocks_side s.tables s.stages)) hs id b)
                  g.blocks_link;
            ins_link =
                with_todo gives_tx needs_in
                  (block_actions-ins cfg.sha256 (known (txs_side s.tables s.stages)) hs id b)
                  g.ins_link;
            outs_link =
                with_todo gives_tx needs_out
                  (block_actions-outs cfg.sha256 (known (txs_side s.tables s.stages)) hs id b)
                  g.outs_link;
            order = ordered-block_actions cfg.sha256 hs id b;
            blocks_done = λ h. g.blocks_done (ground (arith, g.order));
            txs_done = λ h. g.txs_done (ground (arith, g.order));
            block_acked = λ h. absurd (cc);
            tx_acked = λ h. absurd (cc);
          },
        )

    module _ (a : Action) (rest : List Action) (g : Good (a ∷ rest) s.tables s.stages p) where
      pub allowed_now : allowed a p ≡ true
      unfolding ordered
      allowed_now = ground (arith, g.order)

      pub ordered_rest : ordered (after a p) rest ≡ true
      unfolding ordered
      ordered_rest = ground (arith, g.order)

    pub reply-Good :
        (r : Bool) (rest : List Action)
        → Good (reply r ∷ rest) s.tables s.stages p
        → KeepsGood (act (catching_up cfg) (reply r) rest s)
    unfolding act gives_block gives_tx
    reply-Good r rest g = (
      after (reply r) p,
      record {
        opened = g.opened;
        blocks_link = skip gives_block needs_block (reply r) rest g.blocks_link refl;
        ins_link = skip gives_tx needs_in (reply r) rest g.ins_link refl;
        outs_link = skip gives_tx needs_out (reply r) rest g.outs_link refl;
        order = ordered_rest (reply r) rest g;
        blocks_done = g.blocks_done;
        txs_done = g.txs_done;
        block_acked = λ h. absurd (cc);
        tx_acked = λ h. absurd (cc);
      },
    )

    pub do_tx-Good :
        (b n : ℕ) (tx : Tx) (rest : List Action)
        → Good (do_tx b n tx ∷ rest) s.tables s.stages p
        → KeepsGood (act (catching_up cfg) (do_tx b n tx) rest s)
    unfolding act gives_block gives_tx needs_block Fed
    do_tx-Good b n tx rest g =
        let id = (s.tx_id + 1) % 2 ^ 64 in
        let a = do_tx b n tx in
        (
          p,
          record {
            opened = record {
              o_blocks = g.opened.o_blocks;
              o_txs = g.opened.o_txs;
              o_block_txs = g.opened.o_block_txs;
              o_tx_ins = g.opened.o_tx_ins;
              o_tx_outs = g.opened.o_tx_outs;
            };
            blocks_link =
                with_todo gives_block needs_block
                  (transaction-blocks cfg.sha256 (known (blocks_side s.tables s.stages)) cfg.first
                    s.tables.cache id b n tx rest g.blocks_link.fed_todo.0
                    (tail gives_block needs_block a rest g.blocks_link refl))
                  g.blocks_link;
            ins_link =
                with_todo gives_tx needs_in
                  (transaction-ins cfg.sha256 (known (txs_side s.tables s.stages)) cfg.first
                    s.tables.cache id b n tx rest (tail gives_tx needs_in a rest g.ins_link refl))
                  g.ins_link;
            outs_link =
                with_todo gives_tx needs_out
                  (transaction-outs cfg.sha256 (known (txs_side s.tables s.stages)) cfg.first
                    s.tables.cache id b n tx rest (tail gives_tx needs_out a rest g.outs_link refl))
                  g.outs_link;
            order =
                ordered-transaction cfg.sha256 cfg.first s.tables.cache id b n tx rest p
                  (ordered_rest a rest g);
            blocks_done = g.blocks_done;
            txs_done = g.txs_done;
            block_acked = g.block_acked;
            tx_acked = g.tx_acked;
          },
        )

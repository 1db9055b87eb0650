-- ===== src/Db/System/ForeignKeys/Sends.antt =====
-- The references of blocks, inputs and outputs are met by what `pgBlockWorker` of db/postgres.go sends.
use blkchain.Prelude.{ℕ, ◌≡◌, refl, sym, subst, false, Option, List, [], ◌∷◌, ◌++◌}
use blkchain.Io.{Bytes}
use blkchain.KeyMap.{KeyMap}
use blkchain.Tx.{Tx}
use blkchain.TxIdCache.{TxIdCache}
use blkchain.Db.{BlockRecSync, TxRec, row, commit_signal}
use blkchain.Db.Worker.{
  Action, send, block_ch, tx_ch, tx_in_ch, tx_out_ch, Heights, block_actions, transaction,
}
use blkchain.Db.System.ForeignKeys.{Keys, Within, Within-nil, Within-right, keys}
use blkchain.Db.System.ForeignKeys.Link.{Fed}
use blkchain.Db.System.ForeignKeys.Refs.{gives_block, needs_block, gives_tx, needs_in, needs_out}
use blkchain.Db.System.ForeignKeys.Feeds.{Plain, Fed-block_actions, Fed-transaction}

-- The three references.
needs_block-Plain : Plain gives_block needs_block
unfolding needs_block
needs_block-Plain = record {
  signal = λ c s. elim c as (λ k. needs_block (send k (commit_signal s)) ≡ []) [
    | block_ch ↦ refl
    | tx_ch ↦ refl
    | tx_in_ch ↦ refl
    | tx_out_ch ↦ refl
  ];
  waits = refl;
  replies = λ b. refl;
  heads = λ br. refl;
}

needs_in-Plain : Plain gives_tx needs_in
unfolding needs_in
needs_in-Plain = record {
  signal = λ c s. elim c as (λ k. needs_in (send k (commit_signal s)) ≡ []) [
    | block_ch ↦ refl
    | tx_ch ↦ refl
    | tx_in_ch ↦ refl
    | tx_out_ch ↦ refl
  ];
  waits = refl;
  replies = λ b. refl;
  heads = λ br. refl;
}

needs_out-Plain : Plain gives_tx needs_out
unfolding needs_out
needs_out-Plain = record {
  signal = λ c s. elim c as (λ k. needs_out (send k (commit_signal s)) ≡ []) [
    | block_ch ↦ refl
    | tx_ch ↦ refl
    | tx_in_ch ↦ refl
    | tx_out_ch ↦ refl
  ];
  waits = refl;
  replies = λ b. refl;
  heads = λ br. refl;
}

module _ (sha256 : Bytes → Bytes) (ks : Keys) where
  module _ (hs : Heights) (id : ℕ) (b : BlockRecSync) where
    pub block_actions-blocks : Fed gives_block needs_block ks (block_actions sha256 false hs id b)
    unfolding gives_block needs_block keys
    block_actions-blocks =
        Fed-block_actions gives_block needs_block needs_block-Plain sha256 ks hs id b (λ br e n tx.
          subst (λ k. Within (id ∷ []) (ks ++ k ∷ [])) (sym e) (Within-right ks (id ∷ [])))

    pub block_actions-ins : Fed gives_tx needs_in ks (block_actions sha256 false hs id b)
    unfolding gives_tx needs_in
    block_actions-ins =
        Fed-block_actions gives_tx needs_in needs_in-Plain sha256 ks hs id b
          (λ br e n tx. Within-nil _)

    pub block_actions-outs : Fed gives_tx needs_out ks (block_actions sha256 false hs id b)
    unfolding gives_tx needs_out
    block_actions-outs =
        Fed-block_actions gives_tx needs_out needs_out-Plain sha256 ks hs id b
          (λ br e n tx. Within-nil _)

  module _ (first : KeyMap ℕ → Option Bytes) (cache : TxIdCache) (id b n : ℕ) (tx : Tx)
      (rest : List Action) where
    pub transaction-blocks :
        Within (b ∷ []) ks
        → Fed gives_block needs_block ks rest
        → Fed gives_block needs_block ks ((transaction sha256 first cache id b n tx).1 ++ rest)
    unfolding needs_block
    transaction-blocks w =
        Fed-transaction gives_block needs_block needs_block-Plain sha256 first cache ks id b n tx
          rest (λ tr e. subst (λ k. Within (k ∷ []) ks) (sym e) w) (λ tr d e r f. Within-nil _)
          (λ tr d e r f. Within-nil _)

    -- The row of a transaction that is not known is there for its inputs and outputs.
    row-there :
        (tr : TxRec) (k : ℕ)
        → tr.dupe ≡ false
        → tr.id ≡ id
        → k ≡ id
        → Within (k ∷ []) (ks ++ gives_tx (send tx_ch (row tr)))
    unfolding gives_tx keys
    row-there tr k d e f = rw (d, e, f) (Within-right ks (id ∷ []))

    pub transaction-ins :
        Fed gives_tx needs_in ks rest
        → Fed gives_tx needs_in ks ((transaction sha256 first cache id b n tx).1 ++ rest)
    unfolding needs_in
    transaction-ins =
        Fed-transaction gives_tx needs_in needs_in-Plain sha256 first cache ks id b n tx rest
          (λ tr e. Within-nil _) (λ tr d e r f. row-there tr r.tx_id d e f)
          (λ tr d e r f. Within-nil _)

    pub transaction-outs :
        Fed gives_tx needs_out ks rest
        → Fed gives_tx needs_out ks ((transaction sha256 first cache id b n tx).1 ++ rest)
    unfolding needs_out
    transaction-outs =
        Fed-transaction gives_tx needs_out needs_out-Plain sha256 first cache ks id b n tx rest
          (λ tr e. Within-nil _) (λ tr d e r f. Within-nil _)
          (λ tr d e r f. row-there tr r.tx_id d e f)

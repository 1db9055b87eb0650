-- ===== src/Db/System/ForeignKeys/Feeds.antt =====
-- What `pgBlockWorker` of db/postgres.go sends for a block and for a transaction: a row that is
-- referred to is sent before those that refer to it.
use blkchain.Prelude.{
  ℕ, suc, ◌≡◌, refl, subst, Bool, true, false, not, Option, none, some, List, [], ◌∷◌, ◌++◌,
  append-nil, length, ◌==◌, if◌then◌else◌, arith,
}
use blkchain.Io.{Bytes}
use blkchain.Uint256.{Uint256}
use blkchain.KeyMap.{KeyMap}
use blkchain.BlockHeader
use blkchain.Tx
use blkchain.Tx.{Tx}
use blkchain.TxIn.{TxIn}
use blkchain.TxOut.{TxOut}
use blkchain.TxIdCache
use blkchain.TxIdCache.{TxIdCache}
use blkchain.Db.{BlockRec, BlockRecSync, TxRec, TxInRec, TxOutRec, row, commit_signal}
use blkchain.Db.Worker.{
  Action, send, await, reply, do_tx, block_ch, tx_ch, tx_in_ch, tx_out_ch, Channel, Heights,
  height_of, tx_actions, in_actions, out_actions, commit_actions, end_actions, connected_actions,
  block_actions, transaction,
}
use blkchain.Db.System.ForeignKeys.{Keys, Within, Within-nil, Within-eq, Within-left, Within-Within}
use blkchain.Db.System.ForeignKeys.Link.{Fed, Fed-mono}

module _ (gives needs : Action → Keys) where
  -- All that the actions refer to is among the keys.
  unfoldable Met : Keys → List Action → Type 0
  Met ks [] = Unit
  Met ks (a ∷ rest) = Within (needs a) ks × Met ks rest

  Fed-over :
      (ks : Keys) (xs rest : List Action)
      → Met ks xs
      → Fed gives needs ks rest
      → Fed gives needs ks (xs ++ rest)
  unfolding Met Fed
  Fed-over ks [] rest h f = f
  Fed-over ks (a ∷ xs) rest h f = (
    h.0,
    Fed-mono gives needs ks (ks ++ gives a) (xs ++ rest) (Within-left ks (gives a))
        (Fed-over ks xs rest h.1 f),
  )

  Met-append : (ks : Keys) (xs ys : List Action) → Met ks xs → Met ks ys → Met ks (xs ++ ys)
  unfolding Met
  Met-append ks [] ys h k = k
  Met-append ks (a ∷ xs) ys h k = (h.0, Met-append ks xs ys h.1 k)

  Met-in_actions :
      (ks : Keys) (id n : ℕ) (ts : List TxIn)
      → ((n : ℕ) (t : TxIn)
          → Within (needs (send tx_in_ch (row (record { tx_id = id; n = n; tx_in = t })))) ks)
      → Met ks (in_actions id n ts)
  unfolding Met in_actions
  Met-in_actions ks id n [] h = tt
  Met-in_actions ks id n (t ∷ ts) h = (h n t, Met-in_actions ks id (suc n) ts h)

  Met-out_actions :
      (ks : Keys) (id : ℕ) (hash : Uint256) (n : ℕ) (ts : List TxOut)
      → ((n : ℕ) (t : TxOut)
          → Within
              (needs (send tx_out_ch (row (record { tx_id = id; n = n; tx_out = t; hash = hash }))))
              ks)
      → Met ks (out_actions id hash n ts)
  unfolding Met out_actions
  Met-out_actions ks id hash n [] h = tt
  Met-out_actions ks id hash n (t ∷ ts) h = (h n t, Met-out_actions ks id hash (suc n) ts h)

  Met-tx_actions :
      (ks : Keys) (b n : ℕ) (txs : List Tx)
      → ((n : ℕ) (tx : Tx) → Within (needs (do_tx b n tx)) ks)
      → Met ks (tx_actions b n txs)
  unfolding Met tx_actions
  Met-tx_actions ks b n [] h = tt
  Met-tx_actions ks b n (tx ∷ txs) h = (h n tx, Met-tx_actions ks b (suc n) txs h)

  -- Signals, waits and answers refer to nothing.
  pub record Plain : Type 0 where
    pub signal : (c : Channel) (s : Bool) → needs (send c (commit_signal s)) ≡ []
    pub waits : needs await ≡ []
    pub replies : (b : Bool) → needs (reply b) ≡ []
    pub heads : (br : BlockRec) → needs (send block_ch (row br)) ≡ []

  module _ (plain : Plain) where
    none_of : (ks : Keys) (a : Action) → needs a ≡ [] → Within (needs a) ks
    none_of ks a e = Within-Within (needs a) [] ks (Within-eq (needs a) [] e) (Within-nil ks)

    signals : (ks : Keys) (c : Channel) (b : Bool) → Within (needs (send c (commit_signal b))) ks
    signals ks c b = none_of ks (send c (commit_signal b)) (plain.signal c b)

    Met-commit_actions : (ks : Keys) (sync : Bool) → Met ks (commit_actions sync)
    unfolding Met commit_actions
    Met-commit_actions ks true =
        let w = none_of ks await plain.waits in
        let r = none_of ks (reply true) (plain.replies true) in
        (
          signals ks block_ch true,
          (
            w,
            (
              signals ks tx_ch true,
              (w, (signals ks tx_out_ch true, (w, (signals ks tx_in_ch true, (w, (r, tt)))))),
            ),
          ),
        )
    Met-commit_actions ks false =
        let w = none_of ks await plain.waits in
        (
          signals ks block_ch true,
          (
            w,
            (
              signals ks tx_ch true,
              (w, (signals ks tx_out_ch true, (w, (signals ks tx_in_ch false, tt)))),
            ),
          ),
        )

    Fed-ignored :
        (ks : Keys) (sync : Bool) → Fed gives needs ks (if sync then reply false ∷ [] else [])
    unfolding Fed
    Fed-ignored ks true = (none_of ks (reply false) (plain.replies false), tt)
    Fed-ignored ks false = tt

    Fed-met : (ks : Keys) (xs : List Action) → Met ks xs → Fed gives needs ks xs
    unfolding Fed
    Fed-met ks xs h = subst (Fed gives needs ks) (append-nil xs) (Fed-over ks xs [] h tt)

    pub Fed-block_actions :
        (sha256 : Bytes → Bytes) (ks : Keys) (hs : Heights) (id : ℕ) (b : BlockRecSync)
        → ((br : BlockRec)
            → br.id ≡ id
            → (n : ℕ) (tx : Tx)
            → Within (needs (do_tx id n tx)) (ks ++ gives (send block_ch (row br))))
        → Fed gives needs ks (block_actions sha256 false hs id b)
    unfolding Fed block_actions connected_actions end_actions
    Fed-block_actions sha256 ks hs id b h =
        elim (height_of hs b.rec)
          as (λ o. Fed gives needs ks (elim o [
            | some h ↦ connected_actions sha256 false id b h
            | none ↦ if b.sync then reply false ∷ [] else []
          ])) [
            | some height ↦
                let br : BlockRec = record b.rec {
                  id = id;
                  hash = BlockHeader.hash sha256 b.rec.block.block_header;
                  height = some height;
                } in
                let txs = tx_actions id 0 b.rec.block.txs in
                let ls = ks ++ gives (send block_ch (row br)) in
                (
                  none_of ks (send block_ch (row br)) (plain.heads br),
                  Fed-met ls (txs ++ commit_actions b.sync) (
                      Met-append ls txs (commit_actions b.sync)
                        (Met-tx_actions ls id 0 b.rec.block.txs (h br refl))
                        (Met-commit_actions ls b.sync)),
                )
            | none ↦ Fed-ignored ks b.sync
          ]

    eq_of : (m n : ℕ) → not (m == n) ≡ false → m ≡ n
    eq_of m n h = ground arith

    rows-Met :
        (ks : Keys) (id : ℕ) (hash : Uint256) (tx : Tx) (known : Bool)
        → (known ≡ false
            → (n : ℕ) (t : TxIn)
            → Within (needs (send tx_in_ch (row (record { tx_id = id; n = n; tx_in = t })))) ks)
        → (known ≡ false
            → (n : ℕ) (t : TxOut)
            → Within
                (needs
                  (send tx_out_ch (row (record { tx_id = id; n = n; tx_out = t; hash = hash }))))
                ks)
        → Met ks
            (if known then [] else in_actions id 0 tx.tx_ins ++ out_actions id hash 0 tx.tx_outs)
    unfolding Met
    rows-Met ks id hash tx true hi ho = tt
    rows-Met ks id hash tx false hi ho =
        Met-append ks (in_actions id 0 tx.tx_ins) (out_actions id hash 0 tx.tx_outs)
          (Met-in_actions ks id 0 tx.tx_ins (hi refl))
          (Met-out_actions ks id hash 0 tx.tx_outs (ho refl))

    pub Fed-transaction :
        (sha256 : Bytes → Bytes) (first : KeyMap ℕ → Option Bytes) (cache : TxIdCache) (ks : Keys)
        (id b n : ℕ) (tx : Tx) (rest : List Action)
        → ((tr : TxRec) → tr.block_id ≡ b → Within (needs (send tx_ch (row tr))) ks)
        → ((tr : TxRec)
            → tr.dupe ≡ false
            → tr.id ≡ id
            → (r : TxInRec) → r.tx_id ≡ id
            → Within (needs (send tx_in_ch (row r))) (ks ++ gives (send tx_ch (row tr))))
        → ((tr : TxRec)
            → tr.dupe ≡ false
            → tr.id ≡ id
            → (r : TxOutRec) → r.tx_id ≡ id
            → Within (needs (send tx_out_ch (row r))) (ks ++ gives (send tx_ch (row tr))))
        → Fed gives needs ks rest
        → Fed gives needs ks ((transaction sha256 first cache id b n tx).1 ++ rest)
    unfolding Fed transaction
    Fed-transaction sha256 first cache ks id b n tx rest h hi ho f =
        let hash = Tx.hash sha256 tx in
        let recent = (TxIdCache.add first cache hash id (length tx.tx_outs)).1 in
        let tr : TxRec = record {
          id = recent;
          block_id = b;
          n = n;
          tx = tx;
          hash = hash;
          dupe = not (recent == id);
        } in
        let ls = ks ++ gives (send tx_ch (row tr)) in
        (
          h tr refl,
          Fed-over ls _ rest
              (rows-Met ls id hash tx (not (recent == id))
                (λ d n t. hi tr d (eq_of recent id d) _ refl)
                (λ d n t. ho tr d (eq_of recent id d) _ refl))
              (Fed-mono gives needs ks ls rest (Within-left ks (gives (send tx_ch (row tr)))) f),
        )

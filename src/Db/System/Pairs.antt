-- ===== src/Db/System/Pairs.antt =====
-- What the worker has to do: a message that asks for an answer, and the wait for it behind it.
use blkchain.Prelude.{
  ℕ, suc, ◌≡◌, refl, Bool, true, false, not, ◌&&◌, Option, none, some, List, [], ◌∷◌, ◌++◌,
  append_assoc, length, ◌==◌, if◌then◌else◌, arith,
}
use blkchain.Io.{Bytes}
use blkchain.Uint256.{Uint256}
use blkchain.Tx
use blkchain.Tx.{Tx}
use blkchain.TxIn.{TxIn}
use blkchain.TxOut.{TxOut}
use blkchain.TxIdCache
use blkchain.TxIdCache.{TxIdCache}
use blkchain.KeyMap.{KeyMap}
use blkchain.Db.{BlockRecSync, row, commit_signal}
use blkchain.Db.Worker.{
  Action, send, await, reply, do_tx, Heights, height_of, tx_actions, in_actions, out_actions,
  commit_actions, first_import_actions, end_actions, connected_actions, block_actions, transaction,
}
use blkchain.Db.System.{asks}

abbrev pub asking : Action → Bool
asking (send c m) = asks m
asking await = false
asking (reply r) = false
asking (do_tx b n tx) = false

abbrev pub waits : List Action → Bool
waits [] = false
waits (await ∷ rest) = true
waits (send c m ∷ rest) = false
waits (reply r ∷ rest) = false
waits (do_tx b n tx ∷ rest) = false

abbrev pub same : Bool → Bool → Bool
same true b = b
same false b = not b

-- An action asks if and only if the next one waits.
unfoldable pub paired : List Action → Bool
paired [] = true
paired (a ∷ rest) = same (asking a) (waits rest) && paired rest

-- The first action does not wait.
abbrev pub ready : List Action → Bool
ready todo = not (waits todo) && paired todo

abbrev plain : Action → Bool
plain a = not (asking a) && not (waits (a ∷ []))

unfoldable all_plain : List Action → Bool
all_plain [] = true
all_plain (a ∷ as') = plain a && all_plain as'

ready-plain_cons :
    (a : Action) (rest : List Action) → plain a ≡ true → ready rest ≡ true → ready (a ∷ rest) ≡ true
unfolding paired
ready-plain_cons (send c (row x)) rest h r = ground arith
ready-plain_cons (send c (commit_signal s)) rest h r = ground arith
ready-plain_cons await rest h r = absurd cc
ready-plain_cons (reply b) rest h r = ground arith
ready-plain_cons (do_tx b n tx) rest h r = ground arith

ready-plain :
    (xs rest : List Action) → all_plain xs ≡ true → ready rest ≡ true → ready (xs ++ rest) ≡ true
unfolding all_plain
ready-plain [] rest h r = r
ready-plain (a ∷ xs) rest h r =
    ready-plain_cons a (xs ++ rest) (ground arith) (ready-plain xs rest (ground arith) r)

in_actions-plain : (tx_id n : ℕ) (ts : List TxIn) → all_plain (in_actions tx_id n ts) ≡ true
unfolding all_plain in_actions
in_actions-plain tx_id n [] = refl
in_actions-plain tx_id n (t ∷ ts) = in_actions-plain tx_id (suc n) ts

out_actions-plain :
    (tx_id : ℕ) (hash : Uint256) (n : ℕ) (ts : List TxOut)
    → all_plain (out_actions tx_id hash n ts) ≡ true
unfolding all_plain out_actions
out_actions-plain tx_id hash n [] = refl
out_actions-plain tx_id hash n (t ∷ ts) = out_actions-plain tx_id hash (suc n) ts

tx_actions-plain : (b n : ℕ) (txs : List Tx) → all_plain (tx_actions b n txs) ≡ true
unfolding all_plain tx_actions
tx_actions-plain b n [] = refl
tx_actions-plain b n (tx ∷ txs) = tx_actions-plain b (suc n) txs

end_actions-ready :
    (first_import : Bool) (id : ℕ) (sync : Bool) → ready (end_actions first_import id sync) ≡ true
unfolding end_actions commit_actions first_import_actions paired
end_actions-ready first_import id sync = ground arith

rows-ready :
    (tx_id : ℕ) (hash : Uint256) (tx : Tx) (rest : List Action) (known : Bool)
    → ready rest ≡ true
    → ready (
        (if known then [] else in_actions tx_id 0 tx.tx_ins ++ out_actions tx_id hash 0 tx.tx_outs)
        ++ rest)
      ≡ true
rows-ready tx_id hash tx rest true r = r
rows-ready tx_id hash tx rest false r =
    let ins = in_actions tx_id 0 tx.tx_ins in
    let outs = out_actions tx_id hash 0 tx.tx_outs in
    rw (append_assoc ins outs rest) (
      ready-plain ins (outs ++ rest) (in_actions-plain tx_id 0 tx.tx_ins)
        (ready-plain outs rest (out_actions-plain tx_id hash 0 tx.tx_outs) r))

ignored-ready : (sync : Bool) → ready (if sync then reply false ∷ [] else []) ≡ true
unfolding paired
ignored-ready true = refl
ignored-ready false = refl

module _ (sha256 : Bytes → Bytes) where
  pub block_actions-ready :
      (first_import : Bool) (hs : Heights) (id : ℕ) (b : BlockRecSync)
      → ready (block_actions sha256 first_import hs id b) ≡ true
  unfolding block_actions connected_actions paired
  block_actions-ready first_import hs id b =
      elim (height_of hs b.rec)
        as (λ o.
          ready (elim o [
            | some h ↦ connected_actions sha256 first_import id b h
            | none ↦ if b.sync then reply false ∷ [] else []
          ])
          ≡ true) [
            | some h ↦
                ready-plain (tx_actions id 0 b.rec.block.txs) (end_actions first_import id b.sync)
                  (tx_actions-plain id 0 b.rec.block.txs) (end_actions-ready first_import id b.sync)
            | none ↦ ignored-ready b.sync
          ]

  pub transaction-ready :
      (first : KeyMap ℕ → Option Bytes) (cache : TxIdCache) (tx_id b n : ℕ) (tx : Tx)
      (rest : List Action)
      → ready rest ≡ true
      → ready ((transaction sha256 first cache tx_id b n tx).1 ++ rest) ≡ true
  unfolding transaction paired
  transaction-ready first cache tx_id b n tx rest r =
      let recent = (TxIdCache.add first cache (Tx.hash sha256 tx) tx_id (length tx.tx_outs)).1 in
      rows-ready tx_id (Tx.hash sha256 tx) tx rest (not (recent == tx_id)) r

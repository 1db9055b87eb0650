-- ===== src/Db/System/Numbered.antt =====
-- The blocks that `pgBlockWorker` of db/postgres.go sends to the writer of blocks, with their numbers.
pub mod Columns
pub mod Whole
pub mod Written
use blkchain.Prelude.{
  ℕ, suc, ◌+◌, ◌%◌, ◌^◌, ◌≡◌, refl, sym, ap, ◌∙◌, subst, Bool, true, false, not, Option, none, some,
  List, [], ◌∷◌, ◌++◌, append_assoc, length, ◌==◌, if◌then◌else◌, arith,
}
use blkchain.Io.{Bytes}
use blkchain.Uint256.{Uint256}
use blkchain.KeyMap.{KeyMap}
use blkchain.BlockHeader
use blkchain.Tx
use blkchain.Tx.{Tx}
use blkchain.TxIn.{TxIn}
use blkchain.TxOut.{TxOut}
use blkchain.TxIdCache
use blkchain.TxIdCache.{TxIdCache}
use blkchain.Db.{BlockRec, BlockRecSync, Msg, row, commit_signal}
use blkchain.Db.Writers.Complete.{rows}
use blkchain.Db.Worker.{
  Action, send, await, reply, do_tx, Channel, block_ch, tx_ch, tx_in_ch, tx_out_ch, Heights,
  height_of, tx_actions, in_actions, out_actions, commit_actions, first_import_actions, end_actions,
  connected_actions, block_actions, transaction,
}

-- The blocks with their hashes and with the numbers behind `id`, one after the other.
unfoldable pub numbered : (Bytes → Bytes) → ℕ → List BlockRecSync → List BlockRec
numbered sha256 id [] = []
numbered sha256 id (b ∷ bs) =
    let id' = (id + 1) % 2 ^ 64 in
    record b.rec { id = id'; hash = BlockHeader.hash sha256 b.rec.block.block_header }
    ∷ numbered sha256 id' bs

-- All blocks come with their heights.
abbrev pub HaveHeights : List BlockRecSync → Type 0
HaveHeights [] = Unit
HaveHeights (b ∷ bs) = ((h : ℕ) × (b.rec.height ≡ some h)) × HaveHeights bs

abbrev pub block_of : Action → List BlockRec
block_of (send block_ch m) = rows (m ∷ [])
block_of (send tx_ch m) = []
block_of (send tx_in_ch m) = []
block_of (send tx_out_ch m) = []
block_of await = []
block_of (reply r) = []
block_of (do_tx b n tx) = []

unfoldable pub sent : List Action → List BlockRec
sent [] = []
sent (a ∷ rest) = block_of a ++ sent rest

sent-in_actions :
    (id n : ℕ) (ts : List TxIn) (rest : List Action) → sent (in_actions id n ts ++ rest) ≡ sent rest
unfolding sent in_actions
sent-in_actions id n [] rest = refl
sent-in_actions id n (t ∷ ts) rest = sent-in_actions id (suc n) ts rest

sent-out_actions :
    (id : ℕ) (hash : Uint256) (n : ℕ) (ts : List TxOut) (rest : List Action)
    → sent (out_actions id hash n ts ++ rest) ≡ sent rest
unfolding sent out_actions
sent-out_actions id hash n [] rest = refl
sent-out_actions id hash n (t ∷ ts) rest = sent-out_actions id hash (suc n) ts rest

sent-rows :
    (id : ℕ) (hash : Uint256) (tx : Tx) (rest : List Action) (known : Bool)
    → sent (
        (if known then [] else in_actions id 0 tx.tx_ins ++ out_actions id hash 0 tx.tx_outs)
        ++ rest)
      ≡ sent rest
sent-rows id hash tx rest true = refl
sent-rows id hash tx rest false =
    let ins = in_actions id 0 tx.tx_ins in
    let outs = out_actions id hash 0 tx.tx_outs in
    ap sent (append_assoc ins outs rest)
    ∙ (sent-in_actions id 0 tx.tx_ins (outs ++ rest) ∙ sent-out_actions id hash 0 tx.tx_outs rest)

sent-tx_actions :
    (b n : ℕ) (txs : List Tx) (rest : List Action) → sent (tx_actions b n txs ++ rest) ≡ sent rest
unfolding sent tx_actions
sent-tx_actions b n [] rest = refl
sent-tx_actions b n (tx ∷ txs) rest = sent-tx_actions b (suc n) txs rest

sent-end_actions :
    (first_import : Bool) (id : ℕ) (sync : Bool) → sent (end_actions first_import id sync) ≡ []
unfolding sent end_actions commit_actions first_import_actions rows
sent-end_actions true id sync = signals (id % 1024 == 0)
  where
    signals :
        (c : Bool)
        → sent (
            if c
            then send block_ch (commit_signal false)
              ∷ send tx_ch (commit_signal false)
              ∷ send tx_in_ch (commit_signal false)
              ∷ send tx_out_ch (commit_signal false)
              ∷ []
            else [])
          ≡ []
    signals true = refl
    signals false = refl
sent-end_actions false id true = refl
sent-end_actions false id false = refl

module _ (sha256 : Bytes → Bytes) where
  pub sent-transaction :
      (first : KeyMap ℕ → Option Bytes) (cache : TxIdCache) (id b n : ℕ) (tx : Tx)
      (rest : List Action)
      → sent ((transaction sha256 first cache id b n tx).1 ++ rest) ≡ sent rest
  unfolding transaction sent
  sent-transaction first cache id b n tx rest =
      let recent = (TxIdCache.add first cache (Tx.hash sha256 tx) id (length tx.tx_outs)).1 in
      sent-rows id (Tx.hash sha256 tx) tx rest (not (recent == id))

  pub sent-block_actions :
      (first_import : Bool) (hs : Heights) (id : ℕ) (b : BlockRecSync) (h : ℕ)
      → b.rec.height ≡ some h
      → sent (block_actions sha256 first_import hs id b)
        ≡ record b.rec { id = id; hash = BlockHeader.hash sha256 b.rec.block.block_header } ∷ []
  unfolding block_actions connected_actions height_of sent rows
  sent-block_actions first_import hs id b h e =
      subst
        (λ (x : Option ℕ).
          let c : BlockRecSync = record b { rec = record b.rec { height = x } } in
          sent (block_actions sha256 first_import hs id c)
          ≡ record c.rec { id = id; hash = BlockHeader.hash sha256 b.rec.block.block_header } ∷ [])
        (sym e)
        (let br : BlockRec = record b.rec {
          id = id;
          hash = BlockHeader.hash sha256 b.rec.block.block_header;
          height = some h;
        } in
          ap (λ l. br ∷ l)
            (sent-tx_actions id 0 b.rec.block.txs (end_actions first_import id b.sync)
              ∙ sent-end_actions first_import id b.sync))

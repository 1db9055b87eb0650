-- ===== src/Db/Worker.antt =====
-- `pgBlockWorker` of db/postgres.go, without its interleaving with the writers: what it sends for a
-- block, one action after the other, and the ids that it gives.
use blkchain.Prelude.{
  ℕ, suc, ◌%◌, Bool, true, false, not, ◌||◌, Option, none, some, List, [], ◌∷◌, ◌++◌, length,
  replicate, ◌==◌, bytes_eq, if◌then◌else◌,
}
use blkchain.Io.{Bytes}
use blkchain.Uint256.{Uint256}
use blkchain.HeightMap
use blkchain.HeightMap.{HeightMap}
use blkchain.KeyMap.{KeyMap}
use blkchain.BlockHeader
use blkchain.Tx
use blkchain.Tx.{Tx}
use blkchain.TxIn.{TxIn}
use blkchain.TxOut.{TxOut}
use blkchain.TxIdCache
use blkchain.TxIdCache.{TxIdCache}
use blkchain.Db.{BlockRec, BlockRecSync, TxRec, TxInRec, TxOutRec, Msg, row, commit_signal}

pub data Channel : Type 0 where
  block_ch tx_ch tx_in_ch tx_out_ch : Channel

abbrev pub Carried : Channel → Type 0
Carried block_ch = BlockRec
Carried tx_ch = TxRec
Carried tx_in_ch = TxInRec
Carried tx_out_ch = TxOutRec

-- `await` is `<-syncCh`; the writers share that channel. `do_tx` is a round of the loop over the
-- transactions of the block with an id.
pub data Action : Type 0 where
  send : (c : Channel) → Msg (Carried c) → Action
  await : Action
  reply : Bool → Action
  do_tx : (block_id n : ℕ) → Tx → Action

-- What `getHeightAndHashes` makes of the rows of its query.
abbrev pub Heights : Type 0
Heights = HeightMap Uint256

unfoldable pub heights_of : Heights → List (ℕ × Uint256) → Heights
heights_of hs [] = hs
heights_of hs ((height, hash) ∷ rows) = heights_of (HeightMap.add hs height hash) rows

unfoldable pub any_eq : List Uint256 → Uint256 → Bool
any_eq [] hash = false
any_eq (h ∷ hs) hash = bytes_eq h hash || any_eq hs hash

-- The height behind that of the previous block, where that is there. The list is in the order of
-- the iteration over the map, which Go leaves open.
unfoldable pub find_height : Heights → Uint256 → Option ℕ
find_height [] prev = none
find_height ((h, hashes) ∷ hs) prev =
    let rest = find_height hs prev in if any_eq hashes prev then some (suc h) else rest

unfoldable pub height_of : Heights → BlockRec → Option ℕ
height_of hs br = elim br.height [
  | some h ↦ some h
  | none ↦ find_height hs br.block.block_header.prev_hash
]

-- The last hash of the height that the iteration ends with.
unfoldable pub last_hash : Uint256 → List Uint256 → Uint256
last_hash hash [] = hash
last_hash hash (h ∷ hashes) = last_hash h hashes

unfoldable pub top_hash : Uint256 → Heights → Uint256
top_hash hash [] = hash
top_hash hash ((h, hashes) ∷ hs) = top_hash (last_hash hash hashes) hs

unfoldable pub tx_actions : ℕ → ℕ → List Tx → List Action
tx_actions block_id n [] = []
tx_actions block_id n (tx ∷ txs) = do_tx block_id n tx ∷ tx_actions block_id (suc n) txs

unfoldable pub in_actions : ℕ → ℕ → List TxIn → List Action
in_actions tx_id n [] = []
in_actions tx_id n (t ∷ ts) =
    send tx_in_ch (row (record { tx_id = tx_id; n = n; tx_in = t })) ∷ in_actions tx_id (suc n) ts

unfoldable pub out_actions : ℕ → Uint256 → ℕ → List TxOut → List Action
out_actions tx_id hash n [] = []
out_actions tx_id hash n (t ∷ ts) =
    send tx_out_ch (row (record { tx_id = tx_id; n = n; tx_out = t; hash = hash }))
    ∷ out_actions tx_id hash (suc n) ts

-- The commits behind a block, each with its answer, unless this is the first import; the writer of
-- the inputs is waited for only where the caller waits.
unfoldable pub commit_actions : Bool → List Action
commit_actions sync =
    let waited = send tx_in_ch (commit_signal true) ∷ await ∷ reply true ∷ [] in
    let not_waited = send tx_in_ch (commit_signal false) ∷ [] in
    send block_ch (commit_signal true)
    ∷ await
    ∷ send tx_ch (commit_signal true)
    ∷ await
    ∷ send tx_out_ch (commit_signal true)
    ∷ await
    ∷ (if sync then waited else not_waited)

-- In the first import, a commit after every 1024 blocks.
unfoldable pub first_import_actions : ℕ → List Action
first_import_actions block_id =
    let signals =
      send block_ch (commit_signal false)
      ∷ send tx_ch (commit_signal false)
      ∷ send tx_in_ch (commit_signal false)
      ∷ send tx_out_ch (commit_signal false)
      ∷ [] in
    if block_id % 1024 == 0 then signals else []

unfoldable pub end_actions : Bool → ℕ → Bool → List Action
end_actions first_import block_id sync =
    if first_import then first_import_actions block_id else commit_actions sync

module _ (sha256 : Bytes → Bytes) where
  -- The blocks behind the one with that hash: the loop that ignores blocks.
  unfoldable pub ignore_up_to : Uint256 → List BlockRecSync → List BlockRecSync
  ignore_up_to hash [] = []
  ignore_up_to hash (b ∷ bs) =
      let rest = ignore_up_to hash bs in
      if bytes_eq hash (BlockHeader.hash sha256 b.rec.block.block_header) then bs else rest

  -- Only where the blocks come with a checker of outputs, and there are blocks already.
  unfoldable pub to_write : Bool → Heights → List BlockRecSync → List BlockRecSync
  to_write has_utxo [] bs = bs
  to_write has_utxo (h ∷ hs) bs =
      if has_utxo then ignore_up_to (top_hash (replicate 32 0) (h ∷ hs)) bs else bs

  unfoldable pub connected_actions : Bool → ℕ → BlockRecSync → ℕ → List Action
  connected_actions first_import block_id b height =
      let br = b.rec in
      let br' = record br {
        id = block_id;
        hash = BlockHeader.hash sha256 br.block.block_header;
        height = some height;
      } in
      send block_ch (row br') ∷ tx_actions block_id 0 br.block.txs
      ++ end_actions first_import block_id b.sync

  -- A block that is not connected is ignored, and its caller is told.
  unfoldable pub block_actions : Bool → Heights → ℕ → BlockRecSync → List Action
  block_actions first_import hs block_id b = elim (height_of hs b.rec) [
    | some height ↦ connected_actions first_import block_id b height
    | none ↦ if b.sync then reply false ∷ [] else []
  ]

  -- `first` is the parameter of the cache of ids. A transaction that was seen recently has no inputs
  -- and outputs to write.
  unfoldable pub transaction :
      (KeyMap ℕ → Option Bytes) → TxIdCache → (tx_id block_id n : ℕ) → Tx → TxIdCache × List Action
  transaction first cache tx_id block_id n tx =
      let hash = Tx.hash sha256 tx in
      let (cache', recent_id) = TxIdCache.add first cache hash tx_id (length tx.tx_outs) in
      let rec : TxRec = record {
        id = recent_id;
        block_id = block_id;
        n = n;
        tx = tx;
        hash = hash;
        dupe = not (recent_id == tx_id);
      } in
      let rows = in_actions tx_id 0 tx.tx_ins ++ out_actions tx_id hash 0 tx.tx_outs in
      (cache', send tx_ch (row rec) ∷ (if not (recent_id == tx_id) then [] else rows))

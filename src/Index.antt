-- ===== src/Index.antt =====
-- coredb/leveldb.go: the block index of LevelDB. The headers are read into a map by height, orphans
-- are eliminated, and `Next` goes through the rest. The loop over an index is that of
-- cmd/import/import.go.
pub mod Entry
pub mod Order
pub mod Import
use blkchain.Prelude.{
  ℕ, zero, suc, ◌+◌, ◌-◌, ◌%◌, ◌^◌, bit_and, Bool, true, false, ◌&&◌, not, Option, none, some, List,
  [], ◌∷◌, ◌++◌, length, get_elem?, ltb, ◌==◌, if◌then◌else◌,
}
use blkchain.Io.{Result, ok, err, Bytes, Reader, ◌>>=◌, done, index_range}
use blkchain.BlockHeader
use blkchain.BlockHeader.{BlockHeader}
use blkchain.Block.{Block}
use blkchain.CoreDb.Utxo.{read_var_int32}
use blkchain.HeightMap
use blkchain.HeightMap.{HeightMap}
use blkchain.Orphans.{eliminate_orphans}

pub record LevelDbBlockHeader : Type 0 where
  pub version : ℕ
  pub height : ℕ
  pub status : ℕ
  pub tx_n : ℕ
  pub file_n : ℕ
  pub data_pos : ℕ
  pub undo_pos : ℕ
  pub block_header : BlockHeader

abbrev pub block_valid_chain : ℕ
block_valid_chain = 4

abbrev pub block_have_data : ℕ
block_have_data = 8

abbrev pub block_have_undo : ℕ
block_have_undo = 16

-- A field that is there only under a condition.
unfoldable pub read_if : Bool → ℕ → Reader ℕ
read_if there old = if there then read_var_int32 else done old

unfoldable pub bin_read : LevelDbBlockHeader → Reader LevelDbBlockHeader
bin_read ibh = do
  version ← read_var_int32
  height ← read_var_int32
  status ← read_var_int32
  tx_n ← read_var_int32
  file_n ← read_if (not (bit_and status (block_have_data + block_have_undo) == 0)) ibh.file_n
  data_pos ← read_if (not (bit_and status block_have_data == 0)) ibh.data_pos
  undo_pos ← read_if (not (bit_and status block_have_undo == 0)) ibh.undo_pos
  bh ← BlockHeader.bin_read
  done (record {
    version = version;
    height = height;
    status = status;
    tx_n = tx_n;
    file_n = file_n;
    data_pos = data_pos;
    undo_pos = undo_pos;
    block_header = bh;
  })

-- `above` is the Go field `height` and one more, since that starts at `startHeight - 1`.
pub record Index (H : Type 0) : Type 0 where
  pub m : HeightMap H
  pub above : ℕ
  pub n : ℕ
  pub count : ℕ

-- A header stays that is valid on a chain, or the genesis block.
unfoldable pub stays : LevelDbBlockHeader → Bool
stays bh =
    if not (bit_and bh.status block_valid_chain == block_valid_chain) then bh.height == 0 else true

-- `var bh leveldbBlockHeader`; `zero_header` is that of its block header.
abbrev pub zero_entry : BlockHeader → LevelDbBlockHeader
zero_entry zero_header = record {
  version = 0;
  height = 0;
  status = 0;
  tx_n = 0;
  file_n = 0;
  data_pos = 0;
  undo_pos = 0;
  block_header = zero_header;
}

unfoldable pub add_entry :
    HeightMap LevelDbBlockHeader → LevelDbBlockHeader → HeightMap LevelDbBlockHeader
add_entry m bh = if stays bh then HeightMap.add m bh.height bh else m

-- The loop over the iterator, which gives the values `vs` in their order.
unfoldable pub read_entries :
    BlockHeader → HeightMap LevelDbBlockHeader → List Bytes → Result (HeightMap LevelDbBlockHeader)
read_entries zero_header m [] = ok m
read_entries zero_header m (v ∷ vs) = elim (bin_read (zero_entry zero_header) v) [
  | err e ↦ err e
  | ok (bh, _) ↦ read_entries zero_header (add_entry m bh) vs
]

unfoldable pub read_index :
    (Bytes → Bytes) → BlockHeader → ℕ → List Bytes → Result (Index LevelDbBlockHeader)
read_index sha256 zero_header start_height vs = elim (read_entries zero_header [] vs) [
  | err e ↦ err e
  | ok m ↦
      elim (eliminate_orphans (λ bh. BlockHeader.hash sha256 bh.block_header)
        (λ bh. bh.block_header.prev_hash) m) [
          | err e ↦ err e
          | ok (count, left) ↦ ok (record { m = left; above = start_height; n = 0; count = count })
        ]
]

module _ {H : Type 0} where
  -- `bi.m[bi.height]`.
  unfoldable pub current : Index H → List H
  current ix = elim ix.above [ zero ↦ [] | suc h ↦ HeightMap.get ix.m h ]

  -- Whether there is a next header, and the index behind the call. The comparison is that of
  -- `bi.n < len-1` over the integers.
  unfoldable pub next : Index H → Bool × Index H
  next ix =
      if length ix.m == 0
      then (false, ix)
      else if ltb (ix.n + 1) (length (current ix))
      then (true, record ix { n = ix.n + 1 })
      else if length (HeightMap.get ix.m ix.above) == 0
      then (false, ix)
      else (true, record ix { above = suc ix.above; n = 0 })

  unfoldable pub block_header : Index H → Result (Option H)
  block_header ix =
      if ltb 0 (length (current ix))
      then (elim (get_elem? (current ix) ix.n) [ none ↦ err index_range | some bh ↦ ok (some bh) ])
      else ok none

  -- `processBlocks`, for `fuel` rounds at most. `load` is `ReadBlock` at the header, and `interrupted`
  -- is the test of the channel after a number of blocks. The result is what was written, in order,
  -- with the heights; no result is that the rounds were too few.
  module _ {B : Type 0} (load : H → Result B) (interrupted : ℕ → Bool) where
    unfoldable pub process_blocks : ℕ → Index H → List (B × ℕ) → Option (Result (List (B × ℕ)))
    process_blocks zero ix written = none
    process_blocks (suc fuel) ix written =
        let (more, ix') = next ix in
        if more
        then elim (block_header ix') [
          | err e ↦ some (err e)
          | ok none ↦ some (ok written)
          | ok (some bh) ↦ elim (load bh) [
            | err e ↦ some (ok written)
            | ok b ↦
                let written' = written ++ (b, ix'.above - 1) ∷ [] in
                let rest = process_blocks fuel ix' written' in
                if interrupted (length written') then some (ok written') else rest
          ]
        ]
        else some (ok written)

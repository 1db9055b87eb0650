-- ===== src/Tests/Index.antt =====
-- The block index of coredb/leveldb.go at concrete inputs.
use blkchain.Prelude.{
  ℕ, zero, suc, ◌+◌, ◌<◌, ◌≡◌, refl, some, List, [], ◌∷◌, ◌++◌, length, if◌then◌else◌, arith,
}
use blkchain.Io.{Result, ok, Bytes, read_full}
use blkchain.Io.LittleEndian
use blkchain.Binary.{read_var_int_loop, read_var_int}
use blkchain.BlockHeader
use blkchain.BlockHeader.{BlockHeader}
use blkchain.CoreDb.Utxo.{read_var_int32}
use blkchain.HeightMap
use blkchain.HeightMap.{HeightMap}
use blkchain.Orphans.{
  widen, find_bounds, drop_split, pick, next_prev, walk, walk_down, eliminate_between,
  eliminate_orphans,
}
use blkchain.Index.{
  LevelDbBlockHeader, Index, read_if, bin_read, stays, add_entry, read_entries, read_index, current,
  next, block_header, process_blocks,
}
use blkchain.Index.Entry.{IsValid, has_file, has_data, has_undo, entry_bytes, bin_read-entry_bytes}
use blkchain.Index.Order.{never, upwards}
use blkchain.Index.Import.{process_blocks-read_index}
use blkchain.Tests.Data.{header, header-IsValid}

program : Unit {0}
unfolding read_full LittleEndian.get LittleEndian.put read_var_int_loop read_var_int
    BlockHeader.decode BlockHeader.bin_read BlockHeader.bin_write BlockHeader.hash read_var_int32
    HeightMap.get HeightMap.has HeightMap.put HeightMap.delete HeightMap.add widen find_bounds
    drop_split pick next_prev walk walk_down eliminate_between eliminate_orphans read_if bin_read
    stays add_entry read_entries read_index current next block_header process_blocks
program = tt

-- An entry at a height, valid on a chain, with data in the file 0.
abbrev entry : ℕ → LevelDbBlockHeader
entry h = record {
  version = 1;
  height = h;
  status = 12;
  tx_n = 1;
  file_n = 0;
  data_pos = 8;
  undo_pos = 0;
  block_header = header;
}

abbrev value : ℕ → ℕ → Bytes
value h status = 1 ∷ h ∷ status ∷ 1 ∷ 0 ∷ 8 ∷ BlockHeader.bin_write header

abbrev index : Index LevelDbBlockHeader
index = record { m = (1, entry 1 ∷ []) ∷ (2, entry 2 ∷ []) ∷ []; above = 1; n = 0; count = 2 }

abbrev identity : Bytes → Bytes
identity bs = bs

abbrev values : List Bytes
values = value 1 12 ∷ value 2 12 ∷ value 3 10 ∷ []

-- The third entry, which is not valid on a chain, is left out.
reads : read_index identity header 1 values ≡ ok index
unfolding program
reads = refl

entry-IsValid : IsValid (entry 5)
entry-IsValid = record {
  version = omega arith;
  height = omega arith;
  status = omega arith;
  tx_n = omega arith;
  file_n = omega arith;
  data_pos = omega arith;
  undo_pos = omega arith;
  block_header = header-IsValid;
}

bin_read-entry_bytes_example :
    bin_read (entry 9) (entry_bytes (entry 5) ++ 1 ∷ [])
    ≡ ok (
      record (entry 5) {
        file_n = if has_file (entry 5) then 0 else 0;
        data_pos = if has_data (entry 5) then 8 else 8;
        undo_pos = if has_undo (entry 5) then 0 else 0;
      },
      1 ∷ [],
    )
bin_read-entry_bytes_example = bin_read-entry_bytes (entry 9) (entry 5) (1 ∷ []) entry-IsValid

abbrev load : LevelDbBlockHeader → Result ℕ
load bh = ok bh.height

abbrev block_of : LevelDbBlockHeader → ℕ
block_of bh = bh.height

loads : (bh : LevelDbBlockHeader) → load bh ≡ ok (block_of bh)
loads bh = refl

two_heights : (i : ℕ) → i < 2 → 0 < length (HeightMap.get index.m (1 + i))
unfolding HeightMap.get
two_heights zero h = omega arith
two_heights (suc zero) h = omega arith
two_heights (suc (suc i)) h = absurd (omega arith)

process_blocks-read_index_example :
    process_blocks load never 3 index [] ≡ some (ok (upwards load block_of loads index.m 1 2))
unfolding HeightMap.get
process_blocks-read_index_example =
    process_blocks-read_index identity header 1 load block_of loads values index 2 3 reads
      (omega arith) two_heights refl (omega arith)

-- ===== src/Index/Entry.antt =====
-- The encoding that Bitcoin Core gives an entry of the block index, and what is read of it.
use blkchain.Prelude.{
  ℕ, ◌≡◌, refl, bit_and, Bool, true, false, not, [], ◌++◌, append_assoc, ◌==◌, if◌then◌else◌, arith,
}
use blkchain.Io.{ok, Bytes, IsU32}
use blkchain.Binary.VarInt
use blkchain.BlockHeader
use blkchain.BlockHeader.RoundTrip as H
use blkchain.CoreDb.Utxo.RoundTrip.{read_var_int32-put}
use blkchain.Index.{LevelDbBlockHeader, read_if, bin_read}

pub record IsValid (e : LevelDbBlockHeader) : Type 0 where
  pub version : IsU32 e.version
  pub height : IsU32 e.height
  pub status : IsU32 e.status
  pub tx_n : IsU32 e.tx_n
  pub file_n : IsU32 e.file_n
  pub data_pos : IsU32 e.data_pos
  pub undo_pos : IsU32 e.undo_pos
  pub block_header : H.IsValid e.block_header

pub bytes_if : Bool → ℕ → Bytes
bytes_if there n = if there then VarInt.put n else []

-- `BLOCK_HAVE_DATA` is 8 and `BLOCK_HAVE_UNDO` is 16 in Bitcoin Core.
abbrev pub has_file : LevelDbBlockHeader → Bool
has_file e = not (bit_and e.status 24 == 0)

abbrev pub has_data : LevelDbBlockHeader → Bool
has_data e = not (bit_and e.status 8 == 0)

abbrev pub has_undo : LevelDbBlockHeader → Bool
has_undo e = not (bit_and e.status 16 == 0)

pub entry_bytes : LevelDbBlockHeader → Bytes
entry_bytes e =
    VarInt.put e.version
    ++ (VarInt.put e.height
        ++ (VarInt.put e.status
            ++ (VarInt.put e.tx_n
                ++ (bytes_if (has_file e) e.file_n
                    ++ (bytes_if (has_data e) e.data_pos
                        ++ (bytes_if (has_undo e) e.undo_pos
                            ++ BlockHeader.bin_write e.block_header))))))

read_if-bytes_if :
    (there : Bool) (n old : ℕ) (rest : Bytes)
    → IsU32 n
    → read_if there old (bytes_if there n ++ rest) ≡ ok (if there then n else old, rest)
unfolding read_if bytes_if
read_if-bytes_if true n old rest h = read_var_int32-put n rest h
read_if-bytes_if false n old rest h = refl

-- An entry of the block index as Bitcoin Core encodes it, with 32-bit numbers and a header that
-- fits, is read back; a position that its status leaves out keeps the value that it had.
pub bin_read-entry_bytes :
    (old e : LevelDbBlockHeader) (rest : Bytes)
    → IsValid e
    → bin_read old (entry_bytes e ++ rest)
      ≡ ok (
        record e {
          file_n = if has_file e then e.file_n else old.file_n;
          data_pos = if has_data e then e.data_pos else old.data_pos;
          undo_pos = if has_undo e then e.undo_pos else old.undo_pos;
        },
        rest,
      )
unfolding bin_read entry_bytes
bin_read-entry_bytes old e rest h =
    let bh = BlockHeader.bin_write e.block_header in
    let undo = bytes_if (has_undo e) e.undo_pos in
    let at = bytes_if (has_data e) e.data_pos in
    let file = bytes_if (has_file e) e.file_n in
    simp append_assoc (
      ground (
        arith,
        read_var_int32-put e.version
            (VarInt.put e.height
              ++ (VarInt.put e.status
                  ++ (VarInt.put e.tx_n ++ (file ++ (at ++ (undo ++ (bh ++ rest)))))))
            h.version,
        read_var_int32-put e.height
            (VarInt.put e.status ++ (VarInt.put e.tx_n ++ (file ++ (at ++ (undo ++ (bh ++ rest))))))
            h.height,
        read_var_int32-put e.status (VarInt.put e.tx_n ++ (file ++ (at ++ (undo ++ (bh ++ rest)))))
            h.status,
        read_var_int32-put e.tx_n (file ++ (at ++ (undo ++ (bh ++ rest)))) h.tx_n,
        read_if-bytes_if (has_file e) e.file_n old.file_n (at ++ (undo ++ (bh ++ rest))) h.file_n,
        read_if-bytes_if (has_data e) e.data_pos old.data_pos (undo ++ (bh ++ rest)) h.data_pos,
        read_if-bytes_if (has_undo e) e.undo_pos old.undo_pos (bh ++ rest) h.undo_pos,
        H.bin_read-bin_write e.block_header rest h.block_header,
      ))

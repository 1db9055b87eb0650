-- ===== src/TxIn.antt =====
-- tx_in.go: one input of a transaction.
pub mod RoundTrip
use blkchain.Prelude.{ℕ, ◌+◌, List, [], ◌∷◌, ◌++◌, length, take, drop}
use blkchain.Io.{Bytes, Reader, ◌>>=◌, done, read_full}
use blkchain.Io.LittleEndian
use blkchain.Binary.{compact_size_size, read_string, write_string}
use blkchain.Uint256.{Uint256}
use blkchain.Witness
use blkchain.Witness.{Witness}

pub record OutPoint : Type 0 where
  pub hash : Uint256
  pub n : ℕ

pub record TxIn : Type 0 where
  pub prev_out : OutPoint
  pub script_sig : Bytes
  pub sequence : ℕ
  pub witness : Witness

unfoldable pub base_size : TxIn → ℕ
base_size tin =
    let outpoint : ℕ = 32 + 4 in
    let scriptsig : ℕ = compact_size_size (length tin.script_sig) + length tin.script_sig in
    let sequence : ℕ = 4 in outpoint + scriptsig + sequence

unfoldable pub size : TxIn → ℕ
size tin = base_size tin + Witness.size tin.witness

unfoldable pub sig_op_count : TxIn → ℕ
sig_op_count tin = 1

-- `binary.Read` of the struct: its 36 bytes in one read, and its fields in order.
unfoldable pub read_out_point : Reader OutPoint
read_out_point = do
  bs ← read_full 36
  done (record { hash = take 32 bs; n = LittleEndian.get (drop 32 bs) })

unfoldable pub write_out_point : OutPoint → Bytes
write_out_point o = o.hash ++ LittleEndian.put 4 o.n

unfoldable pub bin_read : TxIn → Reader TxIn
bin_read tin = do
  prev_out ← read_out_point
  script_sig ← read_string
  sequence ← LittleEndian.read 4
  done (record tin { prev_out = prev_out; script_sig = script_sig; sequence = sequence })

unfoldable pub bin_write : TxIn → Bytes
bin_write tin =
    write_out_point tin.prev_out ++ (write_string tin.script_sig ++ LittleEndian.put 4 tin.sequence)

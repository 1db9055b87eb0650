-- ===== src/TxOut.antt =====
-- tx_out.go: one output of a transaction. `value` is the 64-bit pattern of the `int64`.
pub mod RoundTrip
use blkchain.Prelude.{ℕ, ◌+◌, ◌++◌, length}
use blkchain.Io.{Bytes, Reader, ◌>>=◌, done}
use blkchain.Io.LittleEndian
use blkchain.Binary.{compact_size_size, read_string, write_string}

pub record TxOut : Type 0 where
  pub value : ℕ
  pub script_pub_key : Bytes

unfoldable pub size : TxOut → ℕ
size tout = 8 + compact_size_size (length tout.script_pub_key) + length tout.script_pub_key

unfoldable pub bin_read : TxOut → Reader TxOut
bin_read tout = do
  value ← LittleEndian.read 8
  script_pub_key ← read_string
  done (record tout { value = value; script_pub_key = script_pub_key })

unfoldable pub bin_write : TxOut → Bytes
bin_write tout = LittleEndian.put 8 tout.value ++ write_string tout.script_pub_key

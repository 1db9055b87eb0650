-- ===== src/TxOut/RoundTrip.antt =====
-- An output that was written is read back, and its size is the number of its bytes.
use blkchain.Prelude.{◌≡◌, ◌++◌, length, length-append, append_assoc, arith}
use blkchain.Io.{ok, Bytes, IsU64, IsLen}
use blkchain.Io.LittleEndian
use blkchain.Binary.{write_string}
use blkchain.Binary.Strings
use blkchain.TxOut.{TxOut, size, bin_read, bin_write}

pub record IsValid (t : TxOut) : Type 0 where
  pub value : IsU64 t.value
  pub script : IsLen (length t.script_pub_key)

pub bin_read-bin_write :
    (t old : TxOut) (rest : Bytes) → IsValid t → bin_read old (bin_write t ++ rest) ≡ ok (t, rest)
unfolding bin_read bin_write
bin_read-bin_write t old rest h =
    let script = write_string t.script_pub_key in
    rw (append_assoc (LittleEndian.put 8 t.value) script rest) (
      ground (
        arith,
        LittleEndian.read_u64 t.value (script ++ rest) h.value,
        Strings.read_string-write_string t.script_pub_key rest h.script,
      ))

pub length-bin_write : (t : TxOut) → length (bin_write t) ≡ size t
unfolding bin_write size
length-bin_write t = omega (
  arith,
  length-append (LittleEndian.put 8 t.value) (write_string t.script_pub_key),
  LittleEndian.length-put 8 t.value,
  Strings.length-write_string t.script_pub_key,
)

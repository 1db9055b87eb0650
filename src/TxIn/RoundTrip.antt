-- ===== src/TxIn/RoundTrip.antt =====
-- An input that was written is read back, without its witness; the base size is the number of bytes.
use blkchain.Prelude.{
  ◌≡◌, ◌++◌, length, length-append, append_assoc, take, drop, take_front, drop_front, arith,
}
use blkchain.Io.{ok, Bytes, IsU32, IsLen}
use blkchain.Io.LittleEndian
use blkchain.Binary.{write_string}
use blkchain.Binary.Strings
use blkchain.Uint256.{IsHash}
use blkchain.Witness.RoundTrip as W
use blkchain.TxIn.{OutPoint, TxIn, base_size, read_out_point, write_out_point, bin_read, bin_write}

pub record IsOutPoint (o : OutPoint) : Type 0 where
  pub hash : IsHash o.hash
  pub n : IsU32 o.n

pub record IsValid (t : TxIn) : Type 0 where
  pub prev_out : IsOutPoint t.prev_out
  pub script_sig : IsLen (length t.script_sig)
  pub sequence : IsU32 t.sequence
  pub witness : W.IsValid t.witness

length-write_out_point : (o : OutPoint) → IsOutPoint o → length (write_out_point o) ≡ 36
unfolding write_out_point
length-write_out_point o h = omega (
  arith,
  length-append o.hash (LittleEndian.put 4 o.n),
  LittleEndian.length-put 4 o.n,
  h.hash.wide,
)

read_out_point-write_out_point :
    (o : OutPoint) (rest : Bytes)
    → IsOutPoint o
    → read_out_point (write_out_point o ++ rest) ≡ ok (o, rest)
unfolding read_out_point write_out_point
read_out_point-write_out_point o rest h = ground (
  arith,
  LittleEndian.read_full-append 36 (write_out_point o) rest (length-write_out_point o h),
  front,
  back,
  LittleEndian.get-put 4 o.n (omega arith),
)
  where
    front : take 32 (write_out_point o) ≡ o.hash
    front = take_front 32 o.hash _ h.hash.wide

    back : drop 32 (write_out_point o) ≡ LittleEndian.put 4 o.n
    back = drop_front 32 o.hash _ h.hash.wide

pub bin_read-bin_write :
    (t old : TxIn) (rest : Bytes)
    → IsValid t
    → bin_read old (bin_write t ++ rest) ≡ ok (record t { witness = old.witness }, rest)
unfolding bin_read bin_write
bin_read-bin_write t old rest h =
    let script = write_string t.script_sig in
    let seq = LittleEndian.put 4 t.sequence in
    rw
      (append_assoc (write_out_point t.prev_out) (script ++ seq) rest, append_assoc script seq rest)
      (ground (
        arith,
        read_out_point-write_out_point t.prev_out (script ++ (seq ++ rest)) h.prev_out,
        Strings.read_string-write_string t.script_sig (seq ++ rest) h.script_sig,
        LittleEndian.read_u32 t.sequence rest h.sequence,
      ))

pub length-bin_write : (t : TxIn) → IsOutPoint t.prev_out → length (bin_write t) ≡ base_size t
unfolding bin_write base_size
length-bin_write t h =
    let script = write_string t.script_sig in
    let seq = LittleEndian.put 4 t.sequence in
    omega (
      arith,
      length-append (write_out_point t.prev_out) (script ++ seq),
      length-append script seq,
      length-write_out_point t.prev_out h,
      Strings.length-write_string t.script_sig,
      LittleEndian.length-put 4 t.sequence,
    )

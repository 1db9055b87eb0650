-- ===== src/Tx/RoundTrip.antt =====
-- A transaction that was written is read back.
use blkchain.Prelude.{
  ℕ, suc, ◌≡◌, ◌≢◌, refl, sym, ap, Bool, true, false, [], ◌∷◌, ◌++◌, length, map, All, append_assoc,
  arith,
}
use mathlib.Core.Path.{ap₂}
use blkchain.Io.{ok, Bytes, IsU32}
use blkchain.Io.LittleEndian
use blkchain.Binary.{read_compact_size, write_compact_size, read_list, read_times}
use blkchain.Binary.CompactSize
use blkchain.Witness
use blkchain.Witness.{Witness}
use blkchain.Witness.RoundTrip as W
use blkchain.TxIn.{TxIn}
use blkchain.TxIn.RoundTrip as In
use blkchain.TxInList
use blkchain.TxInList.{TxInList}
use blkchain.TxInList.RoundTrip as Ins
use blkchain.TxOutList
use blkchain.TxOutList.{TxOutList}
use blkchain.TxOutList.RoundTrip as Outs
use blkchain.Tx.{
  Tx, zero_tx, read_flag, read_marker, read_witnesses, read_witness_part, write_witnesses, bin_read,
  bin_write,
}

abbrev pub HasNoWitness : TxIn → Type 0
HasNoWitness t = t.witness ≡ []

-- What a `Tx` must be for its binary form to be unambiguous. A transaction with no inputs reads as
-- the marker of SegWit, and without the flag no witness is written.
pub record IsValid (tx : Tx) : Type 0 where
  pub version : IsU32 tx.version
  pub tx_ins : Ins.IsValid tx.tx_ins
  pub some_in : tx.tx_ins ≢ []
  pub tx_outs : Outs.IsValid tx.tx_outs
  pub lock_time : IsU32 tx.lock_time
  pub plain : tx.seg_wit ≡ false → All HasNoWitness tx.tx_ins

strip_plain : (ts : TxInList) → All HasNoWitness ts → map Ins.strip ts ≡ ts
strip_plain [] h = refl
strip_plain (t ∷ ts) h =
    ap₂ ◌∷◌ (ap (λ (w : Witness). record t { witness = w }) (sym h.0)) (strip_plain ts h.1)

pub length-strip : (ts : TxInList) → length (map Ins.strip ts) ≡ length ts
length-strip [] = refl
length-strip (t ∷ ts) = ap suc (length-strip ts)

read_witnesses-write_witnesses :
    (ts : TxInList) (rest : Bytes)
    → All In.IsValid ts
    → read_witnesses (map Ins.strip ts) (write_witnesses ts ++ rest) ≡ ok (ts, rest)
unfolding read_witnesses write_witnesses
read_witnesses-write_witnesses [] rest h = refl
read_witnesses-write_witnesses (t ∷ ts) rest h =
    rw (append_assoc (Witness.bin_write t.witness) (write_witnesses ts) rest) (
      ground (
        arith,
        W.bin_read-bin_write [] t.witness (write_witnesses ts ++ rest) h.0.witness,
        read_witnesses-write_witnesses ts rest h.1,
      ))

no_ins : (rest : Bytes) → TxInList.bin_read [] (0 ∷ rest) ≡ ok ([], rest)
unfolding TxInList.bin_read read_list read_times
no_ins rest =
    ground (arith, CompactSize.read_compact_size-write_compact_size 0 rest (omega arith), zero)
  where
    zero : write_compact_size 0 ≡ 0 ∷ []
    zero = unfold write_compact_size in refl

flag_one : (rest : Bytes) → read_compact_size (1 ∷ rest) ≡ ok (1, rest)
flag_one rest = rw one at (CompactSize.read_compact_size-write_compact_size 1 rest (omega arith))
  where
    one : write_compact_size 1 ≡ 1 ∷ []
    one = unfold write_compact_size in refl

module _ (v lt : ℕ) (t : TxIn) (ts : TxInList) (touts : TxOutList) (rest : Bytes) (hv : IsU32 v)
    (hl : IsU32 lt) (hi : Ins.IsValid (t ∷ ts)) (ho : Outs.IsValid touts) where
  head : Bytes
  head = LittleEndian.put 4 v

  ins : Bytes
  ins = TxInList.bin_write (t ∷ ts)

  outs : Bytes
  outs = TxOutList.bin_write touts

  tail : Bytes
  tail = LittleEndian.put 4 lt

  reads_marked :
      bin_read zero_tx
        (head ++ (0 ∷ 1 ∷ (ins ++ (outs ++ (write_witnesses (t ∷ ts) ++ (tail ++ rest))))))
      ≡ ok (
        record { version = v; tx_ins = t ∷ ts; tx_outs = touts; lock_time = lt; seg_wit = true },
        rest,
      )
  unfolding bin_read read_marker read_flag read_witness_part head ins outs tail
  reads_marked =
      let end = write_witnesses (t ∷ ts) ++ (tail ++ rest) in
      ground (
        arith,
        LittleEndian.read_u32 v (0 ∷ 1 ∷ (ins ++ (outs ++ end))) hv,
        no_ins (1 ∷ (ins ++ (outs ++ end))),
        flag_one (ins ++ (outs ++ end)),
        Ins.bin_read-bin_write (t ∷ ts) [] (outs ++ end) hi,
        Outs.bin_read-bin_write touts [] end ho,
        read_witnesses-write_witnesses (t ∷ ts) (tail ++ rest) hi.ins,
        LittleEndian.read_u32 lt rest hl,
      )

  reads_plain :
      All HasNoWitness (t ∷ ts)
      → bin_read zero_tx (head ++ (ins ++ (outs ++ (tail ++ rest))))
        ≡ ok (
          record { version = v; tx_ins = t ∷ ts; tx_outs = touts; lock_time = lt; seg_wit = false },
          rest,
        )
  unfolding bin_read read_marker read_flag read_witness_part head ins outs tail
  reads_plain none = ground (
    arith,
    LittleEndian.read_u32 v (ins ++ (outs ++ (tail ++ rest))) hv,
    Ins.bin_read-bin_write (t ∷ ts) [] (outs ++ (tail ++ rest)) hi,
    strip_plain (t ∷ ts) none,
    Outs.bin_read-bin_write touts [] (tail ++ rest) ho,
    LittleEndian.read_u32 lt rest hl,
  )

written :
    (v lt : ℕ) (tins : TxInList) (touts : TxOutList) (sw : Bool) (rest : Bytes)
    → IsValid (record { version = v; tx_ins = tins; tx_outs = touts; lock_time = lt; seg_wit = sw })
    → bin_read zero_tx (
        bin_write
          (record { version = v; tx_ins = tins; tx_outs = touts; lock_time = lt; seg_wit = sw })
        ++ rest)
      ≡ ok (
        record { version = v; tx_ins = tins; tx_outs = touts; lock_time = lt; seg_wit = sw },
        rest,
      )
unfolding bin_write head ins outs tail
written v lt [] touts sw rest h = absurd (h.some_in refl)
written v lt (t ∷ ts) touts true rest h =
    simp append_assoc (reads_marked v lt t ts touts rest h.version h.lock_time h.tx_ins h.tx_outs)
written v lt (t ∷ ts) touts false rest h =
    simp append_assoc
      (reads_plain v lt t ts touts rest h.version h.lock_time h.tx_ins h.tx_outs (h.plain refl))

-- A transaction whose numbers and lengths fit, that has an input, and that has no witness when it
-- is not marked as SegWit, is read back from the bytes that it is written as, whatever follows
-- them.
pub bin_read-bin_write :
    (tx : Tx) (rest : Bytes) → IsValid tx → bin_read zero_tx (bin_write tx ++ rest) ≡ ok (tx, rest)
bin_read-bin_write tx rest h =
    written tx.version tx.lock_time tx.tx_ins tx.tx_outs tx.seg_wit rest h

-- ===== src/Tx/Size.antt =====
-- The sizes of a transaction against the bytes that are written.
use blkchain.Prelude.{
  ℕ, ◌+◌, ◌*◌, ◌≤◌, ◌≡◌, ◌↔◌, refl, ap, ◌∙◌, [], ◌∷◌, ◌++◌, length, if◌then◌else◌, Bool-cases, inl,
  inr, All, length-append, arith,
}
use blkchain.Io.{Bytes}
use blkchain.Io.LittleEndian
use blkchain.Binary.{compact_size_size}
use blkchain.Witness
use blkchain.Witness.{Witness}
use blkchain.Witness.RoundTrip as W
use blkchain.TxIn
use blkchain.TxIn.{TxIn}
use blkchain.TxInList
use blkchain.TxInList.{TxInList}
use blkchain.TxInList.RoundTrip as Ins
use blkchain.TxOutList
use blkchain.TxOutList.RoundTrip as Outs
use blkchain.Tx.{
  Tx, size, base_size, weight, add_sig_ops, sig_op_count, virtual_size, write_witnesses, bin_write,
  bin_write_without_witness,
}
use blkchain.Tx.RoundTrip.{IsValid, HasNoWitness}

abbrev pub is_bare : Witness → ℕ
is_bare [] = 1
is_bare (w ∷ ws) = 0

-- The number of the inputs with an empty witness.
abbrev pub bare : TxInList → ℕ
bare [] = 0
bare (t ∷ ts) = is_bare t.witness + bare ts

witness_bytes : TxInList → ℕ
witness_bytes [] = 0
witness_bytes (t ∷ ts) = Witness.size t.witness + witness_bytes ts

-- The witness bytes of one input: an empty witness takes a byte that its size leaves out.
length-bin_write_witness : (w : Witness) → length (Witness.bin_write w) ≡ Witness.size w + is_bare w
unfolding Witness.size
length-bin_write_witness [] = omega (arith, W.length-bin_write_none)
length-bin_write_witness (w ∷ ws) = omega (arith, W.length-bin_write_some w ws)

length-write_witnesses : (ts : TxInList) → length (write_witnesses ts) ≡ witness_bytes ts + bare ts
unfolding write_witnesses witness_bytes
length-write_witnesses [] = omega arith
length-write_witnesses (t ∷ ts) = omega (
  arith,
  length-append (Witness.bin_write t.witness) (write_witnesses ts),
  length-bin_write_witness t.witness,
  length-write_witnesses ts,
)

-- The sizes with witness are the sizes without, and the witnesses.
add_sizes-witness :
    (ts : TxInList) (n m : ℕ)
    → TxInList.add_sizes (n + m) ts ≡ TxInList.add_base_sizes n ts + m + witness_bytes ts
unfolding TxInList.add_sizes TxInList.add_base_sizes witness_bytes TxIn.size
add_sizes-witness [] n m = omega arith
add_sizes-witness (t ∷ ts) n m =
    let e : n + m + (TxIn.base_size t + Witness.size t.witness)
        ≡ n + TxIn.base_size t + (m + Witness.size t.witness) =
      omega arith in
    rw e (omega (arith, add_sizes-witness ts (n + TxIn.base_size t) (m + Witness.size t.witness)))

size-witness : (ts : TxInList) → TxInList.size ts ≡ TxInList.base_size ts + witness_bytes ts
unfolding TxInList.size TxInList.base_size
size-witness ts =
    let n = compact_size_size (length ts) in
    let e : n ≡ n + 0 = omega arith in
    ap (λ (k : ℕ). TxInList.add_sizes k ts) e ∙ omega (arith, add_sizes-witness ts n 0)

no_witness : (ts : TxInList) → All HasNoWitness ts → witness_bytes ts ≡ 0
unfolding witness_bytes Witness.size
no_witness [] h = refl
no_witness (t ∷ ts) h = rw h.0 (omega (arith, no_witness ts h.1))

-- The base size is the number of bytes of the form without witness, which the hash is taken of.
pub length-bin_write_without_witness :
    (tx : Tx) → IsValid tx → length (bin_write_without_witness tx) ≡ base_size tx
unfolding bin_write_without_witness base_size size
length-bin_write_without_witness tx h = elim (Bool-cases tx.seg_wit) [
  | inl marked ↦ rw marked (parts tx h)
  | inr plain ↦
      rw plain
        (omega (arith, parts tx h, size-witness tx.tx_ins, no_witness tx.tx_ins (h.plain plain)))
]
  where
    parts :
        (tx : Tx)
        → IsValid tx
        → length (bin_write_without_witness tx)
          ≡ 4 + TxInList.base_size tx.tx_ins + TxOutList.size tx.tx_outs + 4
    parts tx h =
        let head = LittleEndian.put 4 tx.version in
        let ins = TxInList.bin_write tx.tx_ins in
        let outs = TxOutList.bin_write tx.tx_outs in
        let tail = LittleEndian.put 4 tx.lock_time in
        omega (
          arith,
          length-append head (ins ++ (outs ++ tail)),
          length-append ins (outs ++ tail),
          length-append outs tail,
          LittleEndian.length-put 4 tx.version,
          LittleEndian.length-put 4 tx.lock_time,
          Ins.length-bin_write tx.tx_ins h.tx_ins.ins,
          Outs.length-bin_write tx.tx_outs h.tx_outs.outs,
        )

-- The bytes that the size leaves out: one for each empty witness, where witnesses are written.
abbrev pub left_out : Tx → ℕ
left_out tx = if tx.seg_wit then bare tx.tx_ins else 0

-- A transaction as it is read back is written in as many bytes as its size says and one more for
-- each input without a witness if it is SegWit.
pub length-bin_write : (tx : Tx) → IsValid tx → length (bin_write tx) ≡ size tx + left_out tx
unfolding bin_write size
length-bin_write tx h = elim (Bool-cases tx.seg_wit) [
  | inl marked ↦ rw marked (
      omega (
        arith,
        length-append head (0 ∷ 1 ∷ (ins ++ (outs ++ (write_witnesses tx.tx_ins ++ tail)))),
        length-append ins (outs ++ (write_witnesses tx.tx_ins ++ tail)),
        length-append outs (write_witnesses tx.tx_ins ++ tail),
        length-append (write_witnesses tx.tx_ins) tail,
        length-write_witnesses tx.tx_ins,
        LittleEndian.length-put 4 tx.version,
        LittleEndian.length-put 4 tx.lock_time,
        Ins.length-bin_write tx.tx_ins h.tx_ins.ins,
        Outs.length-bin_write tx.tx_outs h.tx_outs.outs,
        size-witness tx.tx_ins,
      ))
  | inr plain ↦ rw plain (
      omega (
        arith,
        length-append head (ins ++ (outs ++ tail)),
        length-append ins (outs ++ tail),
        length-append outs tail,
        LittleEndian.length-put 4 tx.version,
        LittleEndian.length-put 4 tx.lock_time,
        Ins.length-bin_write tx.tx_ins h.tx_ins.ins,
        Outs.length-bin_write tx.tx_outs h.tx_outs.outs,
        size-witness tx.tx_ins,
        no_witness tx.tx_ins (h.plain plain),
      ))
]
  where
    head : Bytes
    head = LittleEndian.put 4 tx.version

    ins : Bytes
    ins = TxInList.bin_write tx.tx_ins

    outs : Bytes
    outs = TxOutList.bin_write tx.tx_outs

    tail : Bytes
    tail = LittleEndian.put 4 tx.lock_time

-- For a transaction as it is read back, the weight and one byte for each input without a witness
-- that a SegWit transaction has are three times the bytes without the witnesses and the bytes with
-- them.
pub weight-bytes :
    (tx : Tx)
    → IsValid tx
    → weight tx + left_out tx ≡ 3 * length (bin_write_without_witness tx) + length (bin_write tx)
unfolding weight
weight-bytes tx h = omega (arith, length-bin_write_without_witness tx h, length-bin_write tx h)

add_sig_ops-length : (ts : TxInList) (n : ℕ) → add_sig_ops n ts ≡ n + length ts
unfolding add_sig_ops TxIn.sig_op_count
add_sig_ops-length [] n = omega arith
add_sig_ops-length (t ∷ ts) n = omega (arith, add_sig_ops-length ts (n + 1))

-- The virtual size of a transaction is at most a number exactly when four times the number are at
-- least its weight and at least 80 for each input.
pub virtual_size-least :
    (tx : Tx) (v : ℕ)
    → (virtual_size tx ≤ v) ↔ ((weight tx ≤ 4 * v) × (80 * length tx.tx_ins ≤ 4 * v))
unfolding virtual_size sig_op_count
virtual_size-least tx v = ground (arith, add_sig_ops-length tx.tx_ins 0)

-- ===== src/Tx/Preimage.antt =====
-- What the hash of a transaction is taken of: all of it but the witnesses and the SegWit flag.
use blkchain.Prelude.{
  ℕ, ◌≡◌, ◌≢◌, ◌↔◌, refl, sym, ap, ◌∙◌, false, [], ◌∷◌, ◌++◌, map, All, append-nil, arith,
}
use mathlib.Core.Path.{ap₂}
use blkchain.Io.{ok, Bytes, Result}
use blkchain.Uint256.{sha_sha256}
use blkchain.Binary.{write_list, write_each, write_compact_size}
use blkchain.TxIn
use blkchain.TxIn.{TxIn}
use blkchain.TxIn.RoundTrip as In
use blkchain.TxInList
use blkchain.TxInList.{TxInList}
use blkchain.TxInList.RoundTrip as Ins
use blkchain.Tx.{Tx, zero_tx, bin_read, bin_write, bin_write_without_witness, hash}
use blkchain.Tx.RoundTrip.{IsValid, HasNoWitness, length-strip, bin_read-bin_write}

-- A transaction without its witnesses and its flag.
abbrev pub base : Tx → Tx
base tx = record tx { tx_ins = map Ins.strip tx.tx_ins; seg_wit = false }

write_each-strip :
    (ts : TxInList) → write_each TxIn.bin_write (map Ins.strip ts) ≡ write_each TxIn.bin_write ts
unfolding write_each TxIn.bin_write
write_each-strip [] = refl
write_each-strip (t ∷ ts) = ap (λ (bs : Bytes). TxIn.bin_write t ++ bs) (write_each-strip ts)

bin_write-strip : (ts : TxInList) → TxInList.bin_write (map Ins.strip ts) ≡ TxInList.bin_write ts
unfolding TxInList.bin_write write_list
bin_write-strip ts =
    ap₂ (λ (n : ℕ) (bs : Bytes). write_compact_size n ++ bs) (length-strip ts) (write_each-strip ts)

-- The form without witness is the whole form of the base transaction.
bin_write_without_witness-base : (tx : Tx) → bin_write_without_witness tx ≡ bin_write (base tx)
unfolding bin_write_without_witness bin_write
bin_write_without_witness-base tx = rw (bin_write-strip tx.tx_ins) refl

strip_one : (t : TxIn) → In.IsValid t → In.IsValid (Ins.strip t)
strip_one t h = record {
  prev_out = h.prev_out;
  script_sig = h.script_sig;
  sequence = h.sequence;
  witness = record { count = omega arith; items = tt };
}

strip-IsValid : (ts : TxInList) → All In.IsValid ts → All In.IsValid (map Ins.strip ts)
strip-IsValid [] h = tt
strip-IsValid (t ∷ ts) h = (strip_one t h.0, strip-IsValid ts h.1)

stripped : (ts : TxInList) → All HasNoWitness (map Ins.strip ts)
stripped [] = tt
stripped (t ∷ ts) = (refl, stripped ts)

map-ne-nil : (ts : TxInList) → ts ≢ [] → map Ins.strip ts ≢ []
map-ne-nil [] h e = h refl
map-ne-nil (t ∷ ts) h e = cc

base-IsValid : (tx : Tx) → IsValid tx → IsValid (base tx)
base-IsValid tx h = record {
  version = h.version;
  tx_ins = record {
    count = omega (arith, length-strip tx.tx_ins, h.tx_ins.count);
    ins = strip-IsValid tx.tx_ins h.tx_ins.ins;
  };
  some_in = map-ne-nil tx.tx_ins h.some_in;
  tx_outs = h.tx_outs;
  lock_time = h.lock_time;
  plain = λ e. stripped tx.tx_ins;
}

read_base :
    (tx : Tx) → IsValid tx → bin_read zero_tx (bin_write_without_witness tx) ≡ ok (base tx, [])
read_base tx h =
    rw (bin_write_without_witness-base tx) (
      rw (append-nil (bin_write (base tx))) at
        (bin_read-bin_write (base tx) [] (base-IsValid tx h)))

bases_equal :
    {a b : Tx} {r s : Bytes} → ◌≡◌ {A = Result (Tx × Bytes)} (ok (a, r)) (ok (b, s)) → a ≡ b
bases_equal e = cc

-- Two transactions that are read back give the hash the same bytes if and only if they differ at
-- most in their witnesses and in the SegWit mark.
pub same_preimage :
    (tx other : Tx)
    → IsValid tx
    → IsValid other
    → (bin_write_without_witness tx ≡ bin_write_without_witness other) ↔ (base tx ≡ base other)
same_preimage tx other h k = (
  λ e. bases_equal (sym (read_base tx h) ∙ ap (bin_read zero_tx) e ∙ read_base other k),
  λ e.
      bin_write_without_witness-base tx
      ∙ ap bin_write e
      ∙ sym (bin_write_without_witness-base other),
)

strip_again : (ts : TxInList) → map Ins.strip (map Ins.strip ts) ≡ map Ins.strip ts
strip_again [] = refl
strip_again (t ∷ ts) = ap (◌∷◌ (Ins.strip t)) (strip_again ts)

-- The hash does not depend on the witnesses or the flag.
pub hash-base : (sha256 : Bytes → Bytes) (tx : Tx) → hash sha256 tx ≡ hash sha256 (base tx)
unfolding hash
hash-base sha256 tx =
    let twice : map Ins.strip (map Ins.strip tx.tx_ins) ≡ map Ins.strip tx.tx_ins =
      strip_again tx.tx_ins in
    ap (sha_sha256 sha256) (
      bin_write_without_witness-base tx
      ∙ ap (λ (ts : TxInList). bin_write (record tx { tx_ins = ts; seg_wit = false })) (sym twice)
      ∙ sym (bin_write_without_witness-base (base tx)))

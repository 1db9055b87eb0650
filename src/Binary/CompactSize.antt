-- ===== src/Binary/CompactSize.antt =====
-- `readCompactSize`, `compactSizeSize` and `writeCompactSize` of binary.go, against each other and
-- against the encoding of the Bitcoin protocol that the source names.
use blkchain.Prelude.{
  ℕ, ◌+◌, ◌*◌, ◌%◌, ◌^◌, ◌≤◌, ◌<◌, ◌≡◌, ◌≢◌, ◌↔◌, refl, ap, ◌∙◌, [], ◌∷◌, ◌++◌, length, ltb, leb,
  if◌then◌else◌, All, Bool-cases, inl, inr, arith,
}
use blkchain.Prelude.Bits.{bit_or-low, zero-bit_or}
use blkchain.Io.{ok, Bytes, IsByte, IsU64, Reader, read_full}
use blkchain.Io.LittleEndian
use blkchain.Binary.{
  or_bytes, compact_buf, read_compact_size, compact_size_size, write_compact_size, max_uint16,
  max_uint32,
}
use native.Mathlib.Nat.{one-le-pow, pow-le-pow_right, mod-eq_of_lt}
use native.Mathlib.Numerals.{towards_suc}

next_byte : (i : ℕ) → 2 ^ ((i + 1) * 8) ≡ 256 * 2 ^ (i * 8)
next_byte i = ap (λ (k : ℕ). 2 ^ k) (omega arith) ∙ eight (i * 8)
  where
    eight : (k : ℕ) → 2 ^ (k + 8) ≡ 256 * 2 ^ k
    eight k = simp towards_suc (omega arith)

byte_times : (b p : ℕ) → b < 256 → b * p + p ≤ 256 * p
byte_times b p h = grind arith

pow_pos : (k : ℕ) → 0 < 2 ^ k
pow_pos k = one-le-pow k 2 (omega arith)

in_word : (i b : ℕ) → i < 8 → b < 256 → b * 2 ^ (i * 8) % 2 ^ 64 ≡ b * 2 ^ (i * 8)
in_word i b h hb =
    let top : 2 ^ ((i + 1) * 8) ≤ 2 ^ 64 =
      pow-le-pow_right {n = 2} (omega arith) {j = 64} (omega arith) in
    mod-eq_of_lt (omega (arith, next_byte i, byte_times b (2 ^ (i * 8)) hb, pow_pos (i * 8)))

-- The bytes are joined by `or`, which adds them up, since none overlaps those before it.
pub or_bytes-get :
    (i : ℕ) (bs : Bytes) (result : ℕ)
    → All IsByte bs
    → i + length bs ≤ 8
    → result < 2 ^ (i * 8)
    → or_bytes i bs result ≡ result + LittleEndian.get bs * 2 ^ (i * 8)
unfolding or_bytes LittleEndian.get
or_bytes-get i [] result h fits lt = omega arith
or_bytes-get i (b ∷ bs) result h fits lt = rw (in_word i b (omega arith) h.0) (
    rw (bit_or-low (i * 8) result b lt) (
      or_bytes-get (i + 1) bs (result + b * 2 ^ (i * 8)) h.1 (omega arith)
        (omega (arith, next_byte i, byte_times b (2 ^ (i * 8)) h.0))
      ∙ omega (arith, ap (λ (t : ℕ). LittleEndian.get bs * t) (next_byte i))))

put_bytes : (k v : ℕ) → k ≤ 8 → v < 256 ^ k → or_bytes 0 (LittleEndian.put k v) 0 ≡ v
put_bytes k v hk h =
    or_bytes-get 0 (LittleEndian.put k v) 0 (LittleEndian.put-IsByte k v)
      (omega (arith, LittleEndian.length-put k v)) (omega arith)
    ∙ omega (arith, LittleEndian.get-put k v h)

one_byte : (b : ℕ) (rest : Bytes) → read_full 1 (b ∷ rest) ≡ ok (b ∷ [], rest)
one_byte b rest = LittleEndian.read_full-append 1 (b ∷ []) rest refl

-- What is decoded after the first byte, in the four cases.
read_after :
    (k first v : ℕ) (rest : Bytes)
    → k ≤ 8
    → v < 256 ^ k
    → compact_buf (first ∷ []) ≡ read_full k
    → read_compact_size (first ∷ LittleEndian.put k v ++ rest) ≡ ok (v, rest)
unfolding read_compact_size
read_after k first v rest hk h e = ground (
  arith,
  one_byte first (LittleEndian.put k v ++ rest),
  ap (λ (f : Reader Bytes). f (LittleEndian.put k v ++ rest)) e,
  LittleEndian.read_full-append k (LittleEndian.put k v) rest (LittleEndian.length-put k v),
  put_bytes k v hk h,
)

read_small : (v : ℕ) (rest : Bytes) → v < 0xfd → read_compact_size (v ∷ rest) ≡ ok (v, rest)
unfolding read_compact_size compact_buf LittleEndian.get or_bytes
read_small v rest h = ground (arith, one_byte v rest, zero-bit_or (v * 2 ^ (0 * 8) % 2 ^ 64))

read_form :
    (k first i m : ℕ) (rest : Bytes)
    → k ≤ 8
    → m ≡ i
    → i < 256 ^ k
    → compact_buf (first ∷ []) ≡ read_full k
    → read_compact_size (first ∷ LittleEndian.put k m ++ rest) ≡ ok (i, rest)
read_form k first i m rest hk e h form = rw e (read_after k first i rest hk h form)

two_form : compact_buf (0xfd ∷ []) ≡ read_full 2
unfolding compact_buf LittleEndian.get
two_form = refl

four_form : compact_buf (0xfe ∷ []) ≡ read_full 4
unfolding compact_buf LittleEndian.get
four_form = refl

eight_form : compact_buf (0xff ∷ []) ≡ read_full 8
unfolding compact_buf LittleEndian.get
eight_form = refl

-- Every 64-bit number is read back from its compact size, whatever follows it.
pub read_compact_size-write_compact_size :
    (i : ℕ) (rest : Bytes)
    → IsU64 i
    → read_compact_size (write_compact_size i ++ rest) ≡ ok (i, rest)
unfolding write_compact_size
read_compact_size-write_compact_size i rest h = elim (Bool-cases (ltb i 0xfd)) [
  | inl small ↦
      let e : i % 256 ≡ i = ground arith in rw (small, e) (read_small i rest (ground arith))
  | inr a ↦ elim (Bool-cases (ltb i max_uint16)) [
    | inl two ↦
        rw (a, two) (read_form 2 0xfd i _ rest (omega arith) (ground arith) (ground arith) two_form)
    | inr b ↦ elim (Bool-cases (ltb i max_uint32)) [
      | inl four ↦
          rw (a, b, four)
            (read_form 4 0xfe i _ rest (omega arith) (ground arith) (ground arith) four_form)
      | inr c ↦ rw (a, b, c) (read_form 8 0xff i i rest (omega arith) refl h eight_form)
    ]
  ]
]

-- A compact size takes as many bytes as is computed for it.
pub length-write_compact_size : (i : ℕ) → length (write_compact_size i) ≡ compact_size_size i
unfolding write_compact_size compact_size_size
length-write_compact_size i = ground (
  arith,
  LittleEndian.length-put 2 (i % 2 ^ 16),
  LittleEndian.length-put 4 (i % 2 ^ 32),
  LittleEndian.length-put 8 i,
)

-- The encoding of the protocol: the shortest of the four forms whose field holds the number.
pub shortest : ℕ → Bytes
shortest i =
    if leb i 0xfc
    then i ∷ []
    else if leb i 0xffff
    then 0xfd ∷ LittleEndian.put 2 i
    else if leb i 0xffff_ffff
    then 0xfe ∷ LittleEndian.put 4 i
    else 0xff ∷ LittleEndian.put 8 i

wide_of_two : write_compact_size 0xffff ≢ shortest 0xffff
unfolding write_compact_size shortest LittleEndian.put
wide_of_two h = cc

wide_of_four : write_compact_size 0xffff_ffff ≢ shortest 0xffff_ffff
unfolding write_compact_size shortest LittleEndian.put
wide_of_four h = cc

-- A number is written in the form that Bitcoin prescribes for compact sizes, the shortest that
-- holds it, if and only if it is neither 65535 nor 4294967295.
pub write_compact_size-shortest :
    (i : ℕ) → (write_compact_size i ≡ shortest i) ↔ ((i ≢ 0xffff) × (i ≢ 0xffff_ffff))
unfolding write_compact_size shortest
write_compact_size-shortest i = (
  λ h. (λ e. wide_of_two (rw e at h), λ e. wide_of_four (rw e at h)),
  λ (two, four). ground arith,
)

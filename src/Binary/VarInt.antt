-- ===== src/Binary/VarInt.antt =====
-- `ReadVarInt` and `WriteVarInt` of binary.go: the ten bytes of the buffer are enough for every
-- 64-bit number, and what was written is read back.
use blkchain.Prelude.{
  ℕ, zero, suc, ◌+◌, ◌-◌, ◌*◌, ◌/◌, ◌%◌, ◌^◌, ◌≤◌, ◌<◌, ◌≡◌, refl, ap, sym, ◌∙◌, bit_and, bit_or,
  [], ◌∷◌, ◌++◌, reverse, reverse-append, append_assoc, ◌==◌, if◌then◌else◌, arith,
}
use mathlib.Core.Path.{ap₂}
use native.Mathlib.Decide.{dec_le}
use blkchain.Prelude.Bits.{bit_or-low, bit_or-high, bit_and-127, bit_and-128}
use blkchain.Io.{ok, err, Bytes, IsU64}
use blkchain.Binary.{read_var_int_loop, read_var_int, fill_groups, write_var_int}

-- One round of the reader, on a last byte and on a byte with the top bit set.
last_byte :
    (m g : ℕ) (rest : Bytes)
    → g < 128
    → m * 128 + g < 2 ^ 64
    → read_var_int_loop m (g ∷ rest) ≡ ok (m * 128 + g, rest)
unfolding read_var_int_loop
last_byte m g rest hg h =
    ground (arith, bit_and-127 g, bit_and-128 g, bit_or-high 7 g m (omega arith))

inner_byte :
    (m g k : ℕ) (rest : Bytes)
    → g < 128
    → m * 128 + g + 1 ≡ k
    → k < 2 ^ 64
    → read_var_int_loop m ((g + 128) ∷ rest) ≡ read_var_int_loop k rest
unfolding read_var_int_loop
inner_byte m g k rest hg e h =
    let n : bit_or (m * 128 % 2 ^ 64) (bit_and (g + 128) 127) ≡ m * 128 + g =
      ap₂ bit_or (omega arith) (omega (arith, bit_and-127 (g + 128))) ∙ bit_or-high 7 g m hg in
    let top : bit_and (g + 128) 128 ≡ 128 = omega (arith, bit_and-128 (g + 128)) in
    let wrap : (m * 128 + g + 1) % 2 ^ 64 ≡ k = omega arith in rw (top, n, wrap) refl

-- The numbers that the last `room` bytes of the buffer can hold lie below `capacity room`.
abbrev capacity : ℕ → ℕ
capacity zero = 0
capacity (suc room) = 128 * (capacity room + 1)

low_group : (n : ℕ) → bit_and (n % 256) 0x7f ≡ n % 128
low_group n = bit_and-127 (n % 256) ∙ omega arith

marked : (g : ℕ) → g < 128 → bit_or g 0x80 ≡ g + 128
marked g h = bit_or-low 7 g 1 h

-- The rounds of the loop, for a byte `b` that is stored first.
fill_last :
    (room len n : ℕ)
    → n ≤ 127
    → fill_groups (suc room) len n ≡ ok ((if len == 0 then n % 128 else n % 128 + 128) ∷ [])
unfolding fill_groups
fill_last room len n h = ground (arith, low_group n, marked (n % 128))

fill_more :
    (room len n : ℕ) (bs : Bytes)
    → 127 < n
    → fill_groups room (len + 1) (n / 128 - 1) ≡ ok bs
    → fill_groups (suc room) len n ≡ ok ((if len == 0 then n % 128 else n % 128 + 128) ∷ bs)
unfolding fill_groups
fill_more room len n bs h e = ground (arith, low_group n, marked (n % 128))

-- The bytes `bs`, written from the last to the first, take the reader from 0 to `k`.
abbrev Reaches : Bytes → ℕ → Type 0
Reaches bs k = (rest : Bytes) → read_var_int_loop 0 (reverse bs ++ rest) ≡ read_var_int_loop k rest

reverse_last : (b : ℕ) (bs rest : Bytes) → reverse (b ∷ bs) ++ rest ≡ reverse bs ++ b ∷ rest
reverse_last b bs rest =
    ap (λ (l : Bytes). l ++ rest) (reverse-append (b ∷ []) bs)
    ∙ append_assoc (reverse bs) (b ∷ []) rest

read_last :
    (b k : ℕ) (bs rest : Bytes)
    → Reaches bs k
    → read_var_int_loop 0 (reverse (b ∷ bs) ++ rest) ≡ read_var_int_loop k (b ∷ rest)
read_last b k bs rest reads = rw (reverse_last b bs rest) (reads (b ∷ rest))

Reaches-none : Reaches [] 0
Reaches-none rest = refl

Reaches-marked :
    (n k : ℕ) (bs : Bytes)
    → Reaches bs k
    → k ≡ n / 128
    → n + 1 < 2 ^ 64
    → Reaches ((n % 128 + 128) ∷ bs) (n + 1)
Reaches-marked n k bs reads e fits rest =
    read_last (n % 128 + 128) k bs rest reads
    ∙ inner_byte k (n % 128) (n + 1) rest (omega arith) (omega arith) fits

-- The groups behind the first: each is marked, and the reader has `n + 1` when it has read them.
groups_behind :
    (room len n : ℕ)
    → 0 < len
    → n < capacity room
    → n + 1 < 2 ^ 64
    → (bs : Bytes) × (fill_groups room len n ≡ ok bs) × Reaches bs (n + 1)
groups_behind zero len n hl h fits = absurd (omega arith)
groups_behind (suc room) len n hl h fits = elim (dec_le n 127) [
  | yes last ↦ (
    (n % 128 + 128) ∷ [],
    fill_last room len n last ∙ ground arith,
    Reaches-marked n 0 [] Reaches-none (omega arith) fits,
  )
  | no more ↦
      let (bs, filled, reads) =
        groups_behind room (len + 1) (n / 128 - 1) (omega arith) (omega arith) (omega arith) in
      (
        (n % 128 + 128) ∷ bs,
        fill_more room len n bs (omega arith) filled ∙ ground arith,
        Reaches-marked n (n / 128 - 1 + 1) bs reads (omega arith) fits,
      )
]

read_first :
    (n k : ℕ) (bs rest : Bytes)
    → Reaches bs k
    → k ≡ n / 128
    → IsU64 n
    → read_var_int_loop 0 (reverse ((n % 128) ∷ bs) ++ rest) ≡ ok (n, rest)
read_first n k bs rest reads e h =
    read_last (n % 128) k bs rest reads
    ∙ last_byte k (n % 128) rest (omega arith) (omega arith)
    ∙ ap (λ (m : ℕ). ok (m, rest)) (omega arith)

-- Every 64-bit number is written as a variable-length integer without leaving the ten bytes of the
-- buffer, and is read back from it, whatever follows it.
pub read_var_int-write_var_int :
    (n : ℕ) (rest : Bytes)
    → IsU64 n
    → (bs : Bytes) × (write_var_int n ≡ ok bs) × (read_var_int (bs ++ rest) ≡ ok (n, rest))
unfolding write_var_int read_var_int
read_var_int-write_var_int n rest h = elim (dec_le n 127) [
  | yes last ↦ (
    reverse ((n % 128) ∷ []),
    rw (fill_last 9 0 n last, write_var_int) refl,
    read_first n 0 [] rest Reaches-none (omega arith) h,
  )
  | no more ↦
      let (bs, filled, reads) =
        groups_behind 9 1 (n / 128 - 1) (omega arith) (omega arith) (omega arith) in
      (
        reverse ((n % 128) ∷ bs),
        rw (fill_more 9 0 n bs (omega arith) filled, write_var_int) refl,
        read_first n (n / 128 - 1 + 1) bs rest reads (omega arith) h,
      )
]

-- The bytes that `WriteVarInt` writes; there are none if it should fail.
pub put : ℕ → Bytes
put n = elim (write_var_int n) [ ok bs ↦ bs | err e ↦ [] ]

put-eq : (n : ℕ) (bs : Bytes) → write_var_int n ≡ ok bs → put n ≡ bs
unfolding put
put-eq n bs e = rw (e, put) refl

pub write_var_int-put : (n : ℕ) → IsU64 n → write_var_int n ≡ ok (put n)
write_var_int-put n h =
    let (bs, written, _) = read_var_int-write_var_int n [] h in
    written ∙ ap ok (sym (put-eq n bs written))

pub read_var_int-put :
    (n : ℕ) (rest : Bytes) → IsU64 n → read_var_int (put n ++ rest) ≡ ok (n, rest)
read_var_int-put n rest h =
    let (bs, written, reads) = read_var_int-write_var_int n rest h in rw (put-eq n bs written) reads

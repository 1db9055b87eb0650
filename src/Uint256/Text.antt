-- ===== src/Uint256/Text.antt =====
-- The text form of a hash: big-endian hexadecimal, and the way back.
use blkchain.Prelude.{
  ℕ, ◌*◌, ◌/◌, ◌%◌, ◌<◌, ◌≡◌, refl, ap, ◌∙◌, sym, some, [], ◌∷◌, length, get_or, tabulate,
  tabulate-get_or, reverse, All, length-reverse, reverse-append, All-append, arith,
}
use mathlib.Core.List.{reverse-reverse}
use blkchain.Io.{ok, Bytes, IsByte}
use blkchain.Uint256.{
  Uint256, IsHash, copy, swap_ends, hex_digit, encode_hex, from_hex_char, join_digits, decode_hex,
  to_string, from_bytes, from_string,
}

swap_ends-tabulate : (f : ℕ → ℕ) → swap_ends 16 0 (tabulate 32 f) ≡ reverse (tabulate 32 f)
unfolding swap_ends tabulate
swap_ends-tabulate f = refl

-- The sixteen swaps reverse the array.
swap_ends-reverse : (u : Uint256) → length u ≡ 32 → swap_ends 16 0 u ≡ reverse u
swap_ends-reverse u h =
    let e : tabulate 32 (λ k. get_or u k 0) ≡ u = tabulate-get_or 32 u 0 h in
    rw e at (swap_ends-tabulate (λ k. get_or u k 0))

from_hex_char-hex_digit : (n : ℕ) → n < 16 → from_hex_char (hex_digit n) ≡ some n
unfolding from_hex_char hex_digit
from_hex_char-hex_digit n h = ground arith

pub decode_hex-encode_hex : (bs : Bytes) → All IsByte bs → decode_hex (encode_hex bs) ≡ ok bs
unfolding decode_hex encode_hex join_digits
decode_hex-encode_hex [] h = refl
decode_hex-encode_hex (b ∷ bs) h =
    rw
      (
        from_hex_char-hex_digit (b / 16) (omega (arith, h.0)),
        from_hex_char-hex_digit (b % 16) (omega arith),
        decode_hex-encode_hex bs h.1,
      )
      (ap (λ (d : ℕ). ok (d ∷ bs)) (omega arith))

length-encode_hex : (bs : Bytes) → length (encode_hex bs) ≡ length bs * 2
unfolding encode_hex
length-encode_hex [] = omega arith
length-encode_hex (b ∷ bs) = omega (arith, length-encode_hex bs)

copy_all : (dst src : Bytes) → length dst ≡ length src → copy dst src ≡ src
unfolding copy
copy_all [] [] h = refl
copy_all [] (s ∷ src) h = absurd (omega arith)
copy_all (d ∷ dst) [] h = absurd (omega arith)
copy_all (d ∷ dst) (s ∷ src) h = ap (◌∷◌ s) (copy_all dst src (omega arith))

All-reverse : (bs : Bytes) → All IsByte bs → All IsByte (reverse bs)
All-reverse [] h = tt
All-reverse (b ∷ bs) h =
    rw (reverse-append (b ∷ []) bs)
      (All-append IsByte (reverse bs) (b ∷ []) (All-reverse bs h.1) (h.0, tt))

-- The text of 32 bytes is the hexadecimal text of the bytes in reverse order.
pub to_string-encode_hex : (u : Uint256) → length u ≡ 32 → to_string u ≡ encode_hex (reverse u)
unfolding to_string
to_string-encode_hex u h = rw (swap_ends-reverse u h) refl

length-to_string : (u : Uint256) → length u ≡ 32 → length (to_string u) ≡ 64
length-to_string u h =
    rw (to_string-encode_hex u h) (omega (arith, length-encode_hex (reverse u), length-reverse u))

decode_hex-to_string : (u : Uint256) → IsHash u → decode_hex (to_string u) ≡ ok (reverse u)
decode_hex-to_string u h =
    rw (to_string-encode_hex u h.wide) (decode_hex-encode_hex (reverse u) (All-reverse u h.bytes))

-- A hash is read back from its hexadecimal text.
pub from_string-to_string : (u : Uint256) → IsHash u → from_string (to_string u) ≡ ok u
unfolding from_string from_bytes
from_string-to_string u h =
    let back : swap_ends 16 0 (reverse u) ≡ u =
      swap_ends-reverse (reverse u) (omega (arith, length-reverse u, h.wide)) ∙ reverse-reverse u in
    rw (length-to_string u h.wide, decode_hex-to_string u h, back)
      (ap ok (copy_all _ u (sym h.wide)))

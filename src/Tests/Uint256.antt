-- ===== src/Tests/Uint256.antt =====
-- uint256.go and uint32.go at concrete inputs.
use blkchain.Prelude.{◌^◌, ◌≡◌, refl, [], ◌∷◌, replicate, ◌-◌, arith, reverse}
use blkchain.Io.{ok, err, Bytes, incorrect_length, bad_hex, unexpected_type}
use blkchain.Uint256.{
  copy, swap_ends, hex_digit, encode_hex, from_hex_char, join_digits, decode_hex, to_string,
  marshal_json, from_bytes, from_string, int64, byte_slice, scan, scan_uint32,
}
use blkchain.Uint256.Text.{from_string-to_string, to_string-encode_hex}
use blkchain.Tests.Data.{hash_of, hash_of-IsHash}

-- 31 bytes.
abbrev hash_31 : Bytes
hash_31 = replicate 31 9

program : Unit {0}
unfolding copy swap_ends hex_digit encode_hex from_hex_char join_digits decode_hex to_string
    marshal_json from_bytes from_string scan scan_uint32
program = tt

refused :
    (from_string (b'0' ∷ []) ≡ err incorrect_length)
    × (decode_hex (b'0' ∷ b'x' ∷ []) ≡ err bad_hex)
    × (decode_hex (b'F' ∷ b'f' ∷ []) ≡ ok (255 ∷ []))
unfolding program
refused = (refl, refl, refl)

scans :
    (scan (hash_of 1) (int64 5) ≡ err unexpected_type)
    × (scan_uint32 (int64 (2 ^ 64 - 1)) ≡ ok (2 ^ 32 - 1))
    × (scan (hash_of 1) (byte_slice (hash_of 2)) ≡ ok (hash_of 2))
unfolding program
scans = (refl, refl, refl)

from_string-to_string_example : from_string (to_string (hash_of 0xab)) ≡ ok (hash_of 0xab)
from_string-to_string_example =
    from_string-to_string (hash_of 0xab) (hash_of-IsHash 0xab (omega arith))

to_string-encode_hex_example : to_string (1 ∷ hash_31) ≡ encode_hex (reverse (1 ∷ hash_31))
to_string-encode_hex_example = to_string-encode_hex (1 ∷ hash_31) refl

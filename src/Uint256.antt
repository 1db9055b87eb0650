-- ===== src/Uint256.antt =====
-- uint256.go and uint32.go: 32-byte hashes, their text form, and the values that come from SQL.
pub mod Text
use blkchain.Prelude.{
  ℕ, zero, suc, ◌+◌, ◌-◌, ◌*◌, ◌/◌, ◌%◌, ◌^◌, Bool, ◌&&◌, Option, none, some, List, [], ◌∷◌, ◌++◌,
  length, get_or, set, replicate, ltb, leb, ◌==◌, ◌≡◌, ◌<◌, All, if◌then◌else◌, not,
}
use blkchain.Io.{Result, ok, err, Bytes, IsByte, incorrect_length, bad_hex, unexpected_type}

-- `[32]byte`.
abbrev pub Uint256 : Type 0
Uint256 = Bytes

pub record IsHash (u : Uint256) : Type 0 where
  pub wide : length u ≡ 32
  pub bytes : All IsByte u

-- Go's `copy(dst, src)`: as many bytes as both have.
unfoldable pub copy : Bytes → Bytes → Bytes
copy [] src = []
copy (d ∷ dst) [] = d ∷ dst
copy (d ∷ dst) (s ∷ src) = s ∷ copy dst src

-- `u[i], u[31-i] = u[31-i], u[i]` for `n` rounds from `i` on.
unfoldable pub swap_ends : ℕ → ℕ → Uint256 → Uint256
swap_ends zero i u = u
swap_ends (suc n) i u =
    swap_ends n (i + 1) (set (set u i (get_or u (31 - i) 0)) (31 - i) (get_or u i 0))

-- `encoding/hex`: two lower-case digits a byte; both cases are read.
unfoldable pub hex_digit : ℕ → ℕ
hex_digit n = if ltb n 10 then n + b'0' else n - 10 + b'a'

unfoldable pub encode_hex : Bytes → Bytes
encode_hex [] = []
encode_hex (b ∷ bs) = hex_digit (b / 16) ∷ hex_digit (b % 16) ∷ encode_hex bs

unfoldable pub from_hex_char : ℕ → Option ℕ
from_hex_char c =
    if leb b'0' c && leb c b'9'
    then some (c - b'0')
    else if leb b'a' c && leb c b'f'
    then some (c - b'a' + 10)
    else if leb b'A' c && leb c b'F'
    then some (c - b'A' + 10)
    else none

unfoldable pub join_digits : Option ℕ → Option ℕ → Result Bytes → Result Bytes
join_digits (some hi) (some lo) (ok bs) = ok ((hi * 16 + lo) ∷ bs)
join_digits (some hi) (some lo) (err e) = err e
join_digits (some hi) none rest = err bad_hex
join_digits none lo rest = err bad_hex

unfoldable pub decode_hex : Bytes → Result Bytes
decode_hex [] = ok []
decode_hex (c ∷ []) = err bad_hex
decode_hex (c ∷ d ∷ cs) = join_digits (from_hex_char c) (from_hex_char d) (decode_hex cs)

unfoldable pub to_string : Uint256 → Bytes
to_string u = encode_hex (swap_ends 16 0 u)

-- `json.Marshal` of a text whose characters need no escape.
unfoldable pub marshal_json : Uint256 → Bytes
marshal_json u = b'"' ∷ (to_string u ++ b'"' ∷ [])

unfoldable pub from_bytes : Bytes → Uint256
from_bytes from = copy (replicate 32 0) from

unfoldable pub from_string : Bytes → Result Uint256
from_string from =
    if not (length from == 32 * 2)
    then err incorrect_length
    else elim (decode_hex from) [ err e ↦ err e | ok b ↦ ok (from_bytes (swap_ends 16 0 b)) ]

-- The dynamic types that `Scan` meets: `int64`, as its 64 bits, `[]byte`, and any other.
pub data Value : Type 0 where
  int64 : ℕ → Value
  byte_slice : Bytes → Value
  other : Value

unfoldable pub scan : Uint256 → Value → Result Uint256
scan u (byte_slice b) = ok (copy u b)
scan u (int64 i) = err unexpected_type
scan u other = err unexpected_type

-- `Uint32.Scan` of uint32.go.
unfoldable pub scan_uint32 : Value → Result ℕ
scan_uint32 (int64 i) = ok (i % 2 ^ 32)
scan_uint32 (byte_slice b) = err unexpected_type
scan_uint32 other = err unexpected_type

-- `ShaSha256`, over the function of `crypto/sha256`.
unfoldable pub sha_sha256 : (Bytes → Bytes) → Bytes → Uint256
sha_sha256 sha256 b = sha256 (sha256 b)

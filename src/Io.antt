-- ===== src/Io.antt =====
-- Readers and writers of package `io` and `encoding/binary`, as the Go sources use them: a reader
-- is a function of the bytes that are left, a writer to a `bytes.Buffer` is the list of its bytes.
pub mod LittleEndian
use blkchain.Prelude.{
  ℕ, zero, suc, ◌+◌, ◌*◌, ◌/◌, ◌%◌, ◌^◌, ◌<◌, ◌≡◌, Bool, List, [], ◌∷◌, ◌++◌, length, take, drop,
  leb, if◌then◌else◌,
}

-- What a Go call returns instead of a value. `bad_alloc` is the panic of `make` at a length that is
-- no non-negative `int`; `index_range` is the panic of an index that is out of range, and `nil_pointer`
-- that of a call on a nil pointer.
pub data Error : Type 0 where
  eof unexpected_eof : Error
  invalid_segwit_flag : ℕ → Error
  bad_magic : ℕ → Error
  incorrect_length bad_hex unexpected_type : Error
  no_valid_parent : ℕ → Error
  bad_alloc index_range nil_pointer : Error

pub data Result {ℓ} (A : Type ℓ) : Type ℓ where
  ok : A → Result A
  err : Error → Result A

abbrev pub Bytes : Type 0
Bytes = List ℕ

abbrev pub IsByte : ℕ → Type 0
IsByte b = b < 256

abbrev pub IsU32 : ℕ → Type 0
IsU32 n = n < 2 ^ 32

abbrev pub IsU64 : ℕ → Type 0
IsU64 n = n < 2 ^ 64

-- A length of a Go slice: a non-negative `int`.
abbrev pub IsLen : ℕ → Type 0
IsLen n = n < 2 ^ 63

abbrev pub Reader : Type 0 → Type 0
Reader A = Bytes → Result (A × Bytes)

infixl 5 ◌>>=◌ ◌>>◌
abbrev pub ◌>>=◌ : {A B : Type 0} → Reader A → (A → Reader B) → Reader B
◌>>=◌ m f r = elim (m r) [ ok (a, rest) ↦ f a rest | err e ↦ err e ]

abbrev pub ◌>>◌ : {B : Type 0} → Reader (Unit {0}) → Reader B → Reader B
m >> k = m >>= λ _. k

abbrev pub done : {A : Type 0} → A → Reader A
done a r = ok (a, r)

abbrev pub fail : {A : Type 0} → Error → Reader A
fail e r = err e

-- The error of `io.ReadFull` when fewer bytes are left than were asked for.
abbrev pub short : Bytes → Error
short [] = eof
short (b ∷ bs) = unexpected_eof

-- `io.ReadFull(r, buf)` for a buffer of `n` bytes.
unfoldable pub read_full : ℕ → Reader Bytes
read_full n r = if leb n (length r) then ok (take n r, drop n r) else err (short r)

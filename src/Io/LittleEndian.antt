-- ===== src/Io/LittleEndian.antt =====
-- `binary.LittleEndian` on `k` bytes, and `binary.Read` of such a number.
use blkchain.Prelude.{
  ℕ, zero, suc, ◌+◌, ◌*◌, ◌/◌, ◌%◌, ◌^◌, ◌<◌, ◌≡◌, refl, ap, [], ◌∷◌, ◌++◌, length, All, le→leb,
  length-append, take-append, drop-append, arith,
}
use blkchain.Io.{ok, Bytes, IsByte, Reader, ◌>>=◌, done, read_full, IsU32, IsU64}
use native.Mathlib.Nat.{pow-suc}

unfoldable pub put : ℕ → ℕ → Bytes
put zero v = []
put (suc k) v = (v % 256) ∷ put k (v / 256)

unfoldable pub get : Bytes → ℕ
get [] = 0
get (b ∷ bs) = b + 256 * get bs

unfoldable pub read : ℕ → Reader ℕ
read k = do bs ← read_full k; done (get bs)

pub length-put : (k v : ℕ) → length (put k v) ≡ k
unfolding put
length-put zero v = refl
length-put (suc k) v = ap suc (length-put k (v / 256))

pub put-IsByte : (k v : ℕ) → All IsByte (put k v)
unfolding put
put-IsByte zero v = tt
put-IsByte (suc k) v = (omega arith, put-IsByte k (v / 256))

pub get-put : (k v : ℕ) → v < 256 ^ k → get (put k v) ≡ v
unfolding put get
get-put zero v h = omega arith
get-put (suc k) v h = omega (arith, get-put k (v / 256) (omega (arith, pow-suc 256 k)))

pub get-lt : (bs : Bytes) → All IsByte bs → get bs < 256 ^ length bs
unfolding get
get-lt [] h = omega arith
get-lt (b ∷ bs) h = omega (arith, get-lt bs h.1, pow-suc 256 (length bs), h.0)

-- A full read takes exactly the bytes that were put in front.
pub read_full-append :
    (n : ℕ) (xs rest : Bytes) → length xs ≡ n → read_full n (xs ++ rest) ≡ ok (xs, rest)
unfolding read_full
read_full-append n xs rest h = rw (← h) (
    rw (le→leb (length xs) (length (xs ++ rest)) (omega (arith, length-append xs rest)))
      (rw (take-append xs rest, drop-append xs rest) refl))

pub read-put : (k v : ℕ) (rest : Bytes) → v < 256 ^ k → read k (put k v ++ rest) ≡ ok (v, rest)
unfolding read
read-put k v rest h =
    ground (arith, read_full-append k (put k v) rest (length-put k v), get-put k v h)

pub read_u32 : (v : ℕ) (rest : Bytes) → IsU32 v → read 4 (put 4 v ++ rest) ≡ ok (v, rest)
read_u32 v rest h = read-put 4 v rest (omega arith)

pub read_u64 : (v : ℕ) (rest : Bytes) → IsU64 v → read 8 (put 8 v ++ rest) ≡ ok (v, rest)
read_u64 v rest h = read-put 8 v rest (omega arith)

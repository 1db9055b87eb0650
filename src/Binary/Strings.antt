-- ===== src/Binary/Strings.antt =====
-- `readString`, `writeString`, `readList` and `writeList` of binary.go: what was written is read back.
use blkchain.Prelude.{
  ℕ, map, ap, ◌+◌, ◌≡◌, refl, List, [], ◌∷◌, ◌++◌, length, All, append-nil, append_assoc,
  length-append, arith,
}
use blkchain.Io.{ok, Bytes, IsLen, Reader}
use blkchain.Io.LittleEndian
use blkchain.Binary.{
  write_compact_size, compact_size_size, make_bytes, read_string, write_string, read_times,
  read_list, write_each, write_list,
}
use blkchain.Binary.CompactSize

-- A byte string of a length below 2^63 is read back from what is written of it, whatever follows.
pub read_string-write_string :
    (s rest : Bytes) → IsLen (length s) → read_string (write_string s ++ rest) ≡ ok (s, rest)
unfolding read_string write_string make_bytes
read_string-write_string s rest h = rw (append_assoc (write_compact_size (length s)) s rest) (
    ground (
      arith,
      CompactSize.read_compact_size-write_compact_size (length s) (s ++ rest) (omega arith),
      LittleEndian.read_full-append (length s) s rest refl,
    ))

pub length-write_string :
    (s : Bytes) → length (write_string s) ≡ compact_size_size (length s) + length s
unfolding write_string
length-write_string s = omega (
  arith,
  length-append (write_compact_size (length s)) s,
  CompactSize.length-write_compact_size (length s),
)

-- A loop of reads, each of which appends what it sees of the element that was written.
module _ {A B : Type 0} (do_write : A → Bytes) (do_read : List B → Reader (List B)) (view : A → B)
    (Valid : A → Type 0)
    (step : (x : A) (xs : List B) (rest : Bytes)
      → Valid x
      → do_read xs (do_write x ++ rest) ≡ ok (xs ++ view x ∷ [], rest)) where
  read_times-write_each :
      (ys : List A) (xs : List B) (rest : Bytes)
      → All Valid ys
      → read_times do_read (length ys) xs (write_each do_write ys ++ rest)
        ≡ ok (xs ++ map view ys, rest)
  unfolding read_times write_each
  read_times-write_each [] xs rest h = rw (append-nil xs) refl
  read_times-write_each (y ∷ ys) xs rest h =
      rw (append_assoc (do_write y) (write_each do_write ys) rest) (
        ground (
          arith,
          step y xs (write_each do_write ys ++ rest) h.0,
          read_times-write_each ys (xs ++ view y ∷ []) rest h.1,
          append_assoc xs (view y ∷ []) (map view ys),
        ))

  pub read_list-write_list :
      (ys : List A) (xs : List B) (rest : Bytes)
      → All Valid ys
      → IsLen (length ys)
      → read_list do_read xs (write_list do_write ys ++ rest) ≡ ok (xs ++ map view ys, rest)
  unfolding read_list write_list
  read_list-write_list ys xs rest h len =
      rw (append_assoc (write_compact_size (length ys)) (write_each do_write ys) rest) (
        ground (
          arith,
          CompactSize.read_compact_size-write_compact_size (length ys)
              (write_each do_write ys ++ rest) (omega arith),
          read_times-write_each ys xs rest h,
        ))

pub map_self : {A : Type 0} (xs : List A) → map (λ x. x) xs ≡ xs
map_self [] = refl
map_self (x ∷ xs) = ap (◌∷◌ x) (map_self xs)

-- A list is as long as its count and its elements, where each element has the size that is added.
module _ {A : Type 0} (do_write : A → Bytes) (size : A → ℕ) (Valid : A → Type 0)
    (sized : (x : A) → Valid x → length (do_write x) ≡ size x) (add_sizes : ℕ → List A → ℕ)
    (none : (result : ℕ) → add_sizes result [] ≡ result)
    (more : (result : ℕ) (x : A) (xs : List A)
      → add_sizes result (x ∷ xs) ≡ add_sizes (result + size x) xs) where
  length-write_each :
      (xs : List A) (result : ℕ)
      → All Valid xs
      → result + length (write_each do_write xs) ≡ add_sizes result xs
  unfolding write_each
  length-write_each [] result h = omega (arith, none result)
  length-write_each (x ∷ xs) result h = omega (
    arith,
    more result x xs,
    sized x h.0,
    length-append (do_write x) (write_each do_write xs),
    length-write_each xs (result + size x) h.1,
  )

  pub length-write_list :
      (xs : List A)
      → All Valid xs
      → length (write_list do_write xs) ≡ add_sizes (compact_size_size (length xs)) xs
  unfolding write_list
  length-write_list xs h = omega (
    arith,
    length-append (write_compact_size (length xs)) (write_each do_write xs),
    CompactSize.length-write_compact_size (length xs),
    length-write_each xs (compact_size_size (length xs)) h,
  )

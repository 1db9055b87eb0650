-- ===== src/Witness/RoundTrip.antt =====
-- A witness that was written is read back, and its size is the number of its bytes.
use blkchain.Prelude.{◌≡◌, refl, ap, ◌∙◌, [], ◌∷◌, ◌++◌, length, All, arith}
use blkchain.Io.{ok, Bytes, IsLen}
use blkchain.Binary.{compact_size_size, write_string, write_list, write_each, write_compact_size}
use blkchain.Binary.Strings
use blkchain.Witness.{
  Witness, WitnessItem, item_size, read_item, bin_read, bin_write, add_sizes, size,
}

abbrev pub IsItem : WitnessItem → Type 0
IsItem w = IsLen (length w)

pub record IsValid (wits : Witness) : Type 0 where
  pub count : IsLen (length wits)
  pub items : All IsItem wits

read_item_step :
    (w : WitnessItem) (wits : Witness) (rest : Bytes)
    → IsItem w
    → read_item wits (write_string w ++ rest) ≡ ok (wits ++ w ∷ [], rest)
unfolding read_item
read_item_step w wits rest h = ground (arith, Strings.read_string-write_string w rest h)

pub bin_read-bin_write :
    (wits more : Witness) (rest : Bytes)
    → IsValid more
    → bin_read wits (bin_write more ++ rest) ≡ ok (wits ++ more, rest)
unfolding bin_read bin_write
bin_read-bin_write wits more rest h =
    Strings.read_list-write_list write_string read_item (λ w. w) IsItem read_item_step more wits
      rest h.items h.count
    ∙ ap (λ (l : Witness). ok (wits ++ l, rest)) (Strings.map_self more)

length-bin_write_sum :
    (wits : Witness)
    → All (λ w. Unit {0}) wits
    → length (bin_write wits) ≡ add_sizes (compact_size_size (length wits)) wits
unfolding bin_write add_sizes item_size
length-bin_write_sum =
    Strings.length-write_list write_string item_size (λ w. Unit)
      (λ w h. Strings.length-write_string w) add_sizes (λ n. refl) (λ n w ws. refl)

any : (wits : Witness) → All (λ w. Unit {0}) wits
any [] = tt
any (w ∷ wits) = (tt, any wits)

-- An empty witness is written as one byte, which its size leaves out.
pub length-bin_write_none : length (bin_write []) ≡ 1
unfolding bin_write write_list write_compact_size write_each
length-bin_write_none = refl

pub length-bin_write_some :
    (w : WitnessItem) (wits : Witness) → length (bin_write (w ∷ wits)) ≡ size (w ∷ wits)
unfolding size
length-bin_write_some w wits = length-bin_write_sum (w ∷ wits) (any (w ∷ wits))

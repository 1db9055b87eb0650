-- ===== src/Witness.antt =====
-- witness.go: the witness of an input, a list of byte strings.
pub mod RoundTrip
use blkchain.Prelude.{ℕ, ◌+◌, List, [], ◌∷◌, ◌++◌, length}
use blkchain.Io.{Bytes, Reader, ◌>>=◌, done}
use blkchain.Binary.{compact_size_size, read_string, write_string, read_list, write_list}

abbrev pub WitnessItem : Type 0
WitnessItem = Bytes

abbrev pub Witness : Type 0
Witness = List WitnessItem

unfoldable pub item_size : WitnessItem → ℕ
item_size wi = compact_size_size (length wi) + length wi

-- The closure of `BinRead`: it appends to the witness.
unfoldable pub read_item : Witness → Reader Witness
read_item wits = do wit ← read_string; done (wits ++ wit ∷ [])

unfoldable pub bin_read : Witness → Reader Witness
bin_read wits = read_list read_item wits

unfoldable pub bin_write : Witness → Bytes
bin_write wits = write_list write_string wits

-- `result += w.Size()` over the items.
unfoldable pub add_sizes : ℕ → Witness → ℕ
add_sizes result [] = result
add_sizes result (w ∷ wits) = add_sizes (result + item_size w) wits

unfoldable pub size : Witness → ℕ
size [] = 0
size (w ∷ wits) = add_sizes (compact_size_size (length (w ∷ wits))) (w ∷ wits)

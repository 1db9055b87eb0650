-- ===== src/TxList.antt =====
-- tx.go: the list of the transactions of a block.
pub mod RoundTrip
use blkchain.Prelude.{ℕ, ◌+◌, List, [], ◌∷◌, ◌++◌, length}
use blkchain.Io.{Bytes, Reader, ◌>>=◌, done}
use blkchain.Binary.{compact_size_size, read_list}
use blkchain.Tx
use blkchain.Tx.{Tx, zero_tx}

abbrev pub TxList : Type 0
TxList = List Tx

unfoldable pub read_tx : TxList → Reader TxList
read_tx tl = do tx ← Tx.bin_read zero_tx; done (tl ++ tx ∷ [])

unfoldable pub bin_read : TxList → Reader TxList
bin_read tl = read_list read_tx tl

-- `result += f(t)` over the transactions.
unfoldable pub add_all : (Tx → ℕ) → ℕ → TxList → ℕ
add_all f result [] = result
add_all f result (t ∷ tl) = add_all f (result + f t) tl

unfoldable pub base_size : TxList → ℕ
base_size tl = add_all Tx.base_size (compact_size_size (length tl)) tl

unfoldable pub size : TxList → ℕ
size tl = add_all Tx.size (compact_size_size (length tl)) tl

unfoldable pub weight : TxList → ℕ
weight tl = add_all Tx.weight (compact_size_size (length tl)) tl

unfoldable pub virtual_size : TxList → ℕ
virtual_size tl = add_all Tx.virtual_size (compact_size_size (length tl)) tl

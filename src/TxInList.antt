-- ===== src/TxInList.antt =====
-- tx_in.go: the list of the inputs.
pub mod RoundTrip
use blkchain.Prelude.{ℕ, ◌+◌, List, [], ◌∷◌, ◌++◌, length, replicate}
use blkchain.Io.{Bytes, Reader, ◌>>=◌, done}
use blkchain.Binary.{compact_size_size, read_list, write_list}
use blkchain.TxIn
use blkchain.TxIn.{TxIn}

abbrev pub TxInList : Type 0
TxInList = List TxIn

-- `var txin TxIn`.
abbrev pub zero_tx_in : TxIn
zero_tx_in = record {
  prev_out = record { hash = replicate 32 0; n = 0 };
  script_sig = [];
  sequence = 0;
  witness = [];
}

unfoldable pub read_tx_in : TxInList → Reader TxInList
read_tx_in tins = do txin ← TxIn.bin_read zero_tx_in; done (tins ++ txin ∷ [])

unfoldable pub bin_read : TxInList → Reader TxInList
bin_read tins = read_list read_tx_in tins

unfoldable pub bin_write : TxInList → Bytes
bin_write tins = write_list TxIn.bin_write tins

unfoldable pub add_base_sizes : ℕ → TxInList → ℕ
add_base_sizes result [] = result
add_base_sizes result (t ∷ tins) = add_base_sizes (result + TxIn.base_size t) tins

unfoldable pub base_size : TxInList → ℕ
base_size tins = add_base_sizes (compact_size_size (length tins)) tins

unfoldable pub add_sizes : ℕ → TxInList → ℕ
add_sizes result [] = result
add_sizes result (t ∷ tins) = add_sizes (result + TxIn.size t) tins

unfoldable pub size : TxInList → ℕ
size tins = add_sizes (compact_size_size (length tins)) tins

-- ===== src/TxOutList.antt =====
-- tx_out.go: the list of the outputs.
pub mod RoundTrip
use blkchain.Prelude.{ℕ, ◌+◌, List, [], ◌∷◌, ◌++◌, length}
use blkchain.Io.{Bytes, Reader, ◌>>=◌, done}
use blkchain.Binary.{compact_size_size, read_list, write_list}
use blkchain.TxOut
use blkchain.TxOut.{TxOut}

abbrev pub TxOutList : Type 0
TxOutList = List TxOut

abbrev pub zero_tx_out : TxOut
zero_tx_out = record { value = 0; script_pub_key = [] }

unfoldable pub read_tx_out : TxOutList → Reader TxOutList
read_tx_out touts = do txout ← TxOut.bin_read zero_tx_out; done (touts ++ txout ∷ [])

unfoldable pub bin_read : TxOutList → Reader TxOutList
bin_read touts = read_list read_tx_out touts

unfoldable pub bin_write : TxOutList → Bytes
bin_write touts = write_list TxOut.bin_write touts

unfoldable pub add_sizes : ℕ → TxOutList → ℕ
add_sizes result [] = result
add_sizes result (t ∷ touts) = add_sizes (result + TxOut.size t) touts

unfoldable pub size : TxOutList → ℕ
size touts = add_sizes (compact_size_size (length touts)) touts

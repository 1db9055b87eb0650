-- ===== src/Tests/Tx.antt =====
-- tx.go, tx_in.go, tx_out.go and witness.go at concrete inputs.
use blkchain.Prelude.{◌+◌, ◌*◌, ◌≤◌, ◌≡◌, ◌↔◌, refl, [], ◌∷◌, ◌++◌, length}
use blkchain.Io.{ok, err, invalid_segwit_flag, read_full}
use blkchain.Io.LittleEndian
use blkchain.Binary.{
  or_bytes, compact_buf, read_compact_size, compact_size_size, write_compact_size, make_bytes,
  read_string, write_string, read_times, read_list, write_each, write_list,
}
use blkchain.Witness
use blkchain.TxIn
use blkchain.TxInList
use blkchain.TxOut
use blkchain.TxOutList
use blkchain.Tx.{
  zero_tx, size, base_size, weight, add_sig_ops, sig_op_count, virtual_size, read_flag, read_marker,
  read_witnesses, read_witness_part, bin_read, write_witnesses, bin_write,
  bin_write_without_witness,
}
use blkchain.Tx.RoundTrip.{bin_read-bin_write}
use blkchain.Tx.Size.{left_out, length-bin_write, weight-bytes, virtual_size-least}
use blkchain.Tx.Preimage.{base, same_preimage}
use blkchain.Tests.Data.{tx, tx-IsValid, plain_tx, plain_tx-IsValid}

program : Unit {0}
unfolding or_bytes compact_buf read_compact_size compact_size_size write_compact_size make_bytes
    read_string write_string read_times read_list write_each write_list LittleEndian.put
    LittleEndian.get LittleEndian.read read_full Witness.item_size Witness.read_item
    Witness.bin_read Witness.bin_write Witness.add_sizes Witness.size TxIn.base_size TxIn.size
    TxIn.sig_op_count TxIn.read_out_point TxIn.write_out_point TxIn.bin_read TxIn.bin_write
    TxInList.read_tx_in TxInList.bin_read TxInList.bin_write TxInList.add_base_sizes
    TxInList.base_size TxInList.add_sizes TxInList.size TxOut.size TxOut.bin_read TxOut.bin_write
    TxOutList.read_tx_out TxOutList.bin_read TxOutList.bin_write TxOutList.add_sizes TxOutList.size
    size base_size weight add_sig_ops sig_op_count virtual_size read_flag read_marker read_witnesses
    read_witness_part bin_read write_witnesses bin_write bin_write_without_witness
program = tt

-- The second input has no witness, and its empty witness takes a byte that `size` does not count.
sizes :
    (length (bin_write tx) ≡ 111) × (size tx ≡ 110) × (base_size tx ≡ 104) × (virtual_size tx ≡ 106)
unfolding program
sizes = (refl, refl, refl, refl)

other_flag : bin_read zero_tx (2 ∷ 0 ∷ 0 ∷ 0 ∷ 0 ∷ 2 ∷ []) ≡ err (invalid_segwit_flag 2)
unfolding program
other_flag = refl

bin_read-bin_write_example : bin_read zero_tx (bin_write tx ++ 1 ∷ []) ≡ ok (tx, 1 ∷ [])
bin_read-bin_write_example = bin_read-bin_write tx (1 ∷ []) tx-IsValid

length-bin_write_example : length (bin_write tx) ≡ size tx + left_out tx
length-bin_write_example = length-bin_write tx tx-IsValid

weight-bytes_example :
    weight tx + left_out tx ≡ 3 * length (bin_write_without_witness tx) + length (bin_write tx)
weight-bytes_example = weight-bytes tx tx-IsValid

virtual_size-least_example :
    (virtual_size tx ≤ 106) ↔ ((weight tx ≤ 4 * 106) × (80 * length tx.tx_ins ≤ 4 * 106))
virtual_size-least_example = virtual_size-least tx 106

same_preimage_example :
    (bin_write_without_witness tx ≡ bin_write_without_witness plain_tx) ↔ (base tx ≡ base plain_tx)
same_preimage_example = same_preimage tx plain_tx tx-IsValid plain_tx-IsValid

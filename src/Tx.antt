-- ===== src/Tx.antt =====
-- tx.go: a transaction, its two binary forms, its sizes and its hash.
pub mod RoundTrip
pub mod Size
pub mod Preimage
use blkchain.Prelude.{
  ℕ, zero, suc, ◌+◌, ◌-◌, ◌*◌, ◌/◌, Bool, true, false, not, List, [], ◌∷◌, ◌++◌, length, ltb, ◌==◌,
  if◌then◌else◌,
}
use blkchain.Io.{Bytes, Reader, ◌>>=◌, ◌>>◌, done, fail, invalid_segwit_flag}
use blkchain.Io.LittleEndian
use blkchain.Binary.{read_compact_size}
use blkchain.Uint256.{Uint256, sha_sha256}
use blkchain.Witness
use blkchain.TxIn
use blkchain.TxIn.{TxIn}
use blkchain.TxInList
use blkchain.TxInList.{TxInList}
use blkchain.TxOutList
use blkchain.TxOutList.{TxOutList}

pub record Tx : Type 0 where
  pub version : ℕ
  pub tx_ins : TxInList
  pub tx_outs : TxOutList
  pub lock_time : ℕ
  pub seg_wit : Bool

-- `var tx Tx`.
abbrev pub zero_tx : Tx
zero_tx = record { version = 0; tx_ins = []; tx_outs = []; lock_time = 0; seg_wit = false }

unfoldable pub size : Tx → ℕ
size tx =
    let segwit = if tx.seg_wit then 2 else 0 in
    4 + segwit + TxInList.size tx.tx_ins + TxOutList.size tx.tx_outs + 4

unfoldable pub base_size : Tx → ℕ
base_size tx =
    if not tx.seg_wit
    then size tx
    else 4 + TxInList.base_size tx.tx_ins + TxOutList.size tx.tx_outs + 4

unfoldable pub weight : Tx → ℕ
weight tx = base_size tx * 3 + size tx

unfoldable pub add_sig_ops : ℕ → TxInList → ℕ
add_sig_ops count [] = count
add_sig_ops count (tin ∷ tins) = add_sig_ops (count + TxIn.sig_op_count tin) tins

unfoldable pub sig_op_count : Tx → ℕ
sig_op_count tx = add_sig_ops 0 tx.tx_ins

abbrev pub witness_scale_factor : ℕ
witness_scale_factor = 4

abbrev pub default_bytes_per_sig_op : ℕ
default_bytes_per_sig_op = 20

unfoldable pub virtual_size : Tx → ℕ
virtual_size tx =
    let sig_op_weight = sig_op_count tx * witness_scale_factor * default_bytes_per_sig_op in
    let w = if ltb (weight tx) sig_op_weight then sig_op_weight else weight tx in
    (w + witness_scale_factor - 1) / witness_scale_factor

-- `if len(tx.TxIns) == 0`: the flag must be 1, and the inputs are read again. The second number is
-- `wcnt`.
unfoldable pub read_flag : ℕ → Reader (Unit {0})
read_flag flag = if not (flag == 1) then fail (invalid_segwit_flag flag) else done tt

unfoldable pub read_marker : TxInList → Reader (TxInList × ℕ)
read_marker (t ∷ tins) = done (t ∷ tins, 0)
read_marker [] = do
  flag ← read_compact_size
  read_flag flag
  tins ← TxInList.bin_read []
  done (tins, length tins)

-- The loop over the inputs gives each its witness.
unfoldable pub read_witnesses : TxInList → Reader TxInList
read_witnesses [] = done []
read_witnesses (txin ∷ tins) = do
  wits ← Witness.bin_read []
  rest ← read_witnesses tins
  done (record txin { witness = wits } ∷ rest)

unfoldable pub read_witness_part : ℕ → TxInList → Bool → Reader (TxInList × Bool)
read_witness_part zero tins seg_wit = done (tins, seg_wit)
read_witness_part (suc wcnt) tins seg_wit = do tins' ← read_witnesses tins; done (tins', true)

unfoldable pub bin_read : Tx → Reader Tx
bin_read tx = do
  version ← LittleEndian.read 4
  tins ← TxInList.bin_read tx.tx_ins
  (tins', wcnt) ← read_marker tins
  touts ← TxOutList.bin_read tx.tx_outs
  (tins'', seg_wit) ← read_witness_part wcnt tins' tx.seg_wit
  lock_time ← LittleEndian.read 4
  done (record {
    version = version;
    tx_ins = tins'';
    tx_outs = touts;
    lock_time = lock_time;
    seg_wit = seg_wit;
  })

unfoldable pub write_witnesses : TxInList → Bytes
write_witnesses [] = []
write_witnesses (txin ∷ tins) = Witness.bin_write txin.witness ++ write_witnesses tins

unfoldable pub bin_write : Tx → Bytes
bin_write tx =
    LittleEndian.put 4 tx.version
    ++ ((if tx.seg_wit then 0 ∷ 1 ∷ [] else [])
        ++ (TxInList.bin_write tx.tx_ins
            ++ (TxOutList.bin_write tx.tx_outs
                ++ ((if tx.seg_wit then write_witnesses tx.tx_ins else [])
                    ++ LittleEndian.put 4 tx.lock_time))))

unfoldable pub bin_write_without_witness : Tx → Bytes
bin_write_without_witness tx =
    LittleEndian.put 4 tx.version
    ++ (TxInList.bin_write tx.tx_ins
        ++ (TxOutList.bin_write tx.tx_outs ++ LittleEndian.put 4 tx.lock_time))

unfoldable pub hash : (Bytes → Bytes) → Tx → Uint256
hash sha256 tx = sha_sha256 sha256 (bin_write_without_witness tx)

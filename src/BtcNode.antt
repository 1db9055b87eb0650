-- ===== src/BtcNode.antt =====
-- btcnode/btcnode.go: the transactions and blocks in the messages of a node. A message is what the
-- package `wire` hands out, and is read through its fields only, which are the parameters here.
pub mod Valid
pub mod Headers
use blkchain.Prelude.{
  ℕ, ◌+◌, ◌%◌, ◌^◌, ◌<◌, ◌&&◌, Bool, true, false, not, List, [], ◌∷◌, ◌++◌, length, ltb,
  if◌then◌else◌,
}
use blkchain.Io.{Bytes}
use blkchain.Uint256.{Uint256}
use blkchain.Witness.{Witness}
use blkchain.TxIn.{TxIn}
use blkchain.TxInList.{TxInList}
use blkchain.TxOut.{TxOut}
use blkchain.TxOutList.{TxOutList}
use blkchain.Tx.{Tx}
use blkchain.TxList.{TxList}
use blkchain.BlockHeader.{BlockHeader}
use blkchain.Block.{Block}

-- The fields of `wire.TxIn`, `wire.TxOut`, `wire.MsgTx` and `wire.MsgBlock`; an `int32` or an
-- `int64` is its bit pattern.
pub record Wire (In Out Msg BlockMsg : Type 0) : Type 0 where
  pub prev_hash : In → Uint256
  pub prev_index : In → ℕ
  pub signature_script : In → Bytes
  pub sequence : In → ℕ
  pub witness : In → List Bytes
  pub value : Out → ℕ
  pub pk_script : Out → Bytes
  pub version : Msg → ℕ
  pub tx_in : Msg → List In
  pub tx_out : Msg → List Out
  pub lock_time : Msg → ℕ
  pub header_version : BlockMsg → ℕ
  pub prev_block : BlockMsg → Uint256
  pub merkle_root : BlockMsg → Uint256
  pub timestamp : BlockMsg → ℕ
  pub bits : BlockMsg → ℕ
  pub nonce : BlockMsg → ℕ
  pub transactions : BlockMsg → List Msg

-- `txin.Witness = append(txin.Witness, w)` over the items.
unfoldable pub append_items : Witness → List Bytes → Witness
append_items wits [] = wits
append_items wits (w ∷ ws) = append_items (wits ++ w ∷ []) ws

module _ {In Out Msg BlockMsg : Type 0} (wire : Wire In Out Msg BlockMsg) where
  unfoldable pub tx_in_from : In → TxIn
  tx_in_from i = record {
    prev_out = record { hash = wire.prev_hash i; n = wire.prev_index i };
    script_sig = wire.signature_script i;
    sequence = wire.sequence i;
    witness = append_items [] (wire.witness i);
  }

  -- The loop over the inputs, on the inputs so far and `tx.SegWit`.
  unfoldable pub add_tx_ins : TxInList → Bool → List In → TxInList × Bool
  add_tx_ins tins seg_wit [] = (tins, seg_wit)
  add_tx_ins tins seg_wit (i ∷ is) =
      let txin = tx_in_from i in
      add_tx_ins (tins ++ txin ∷ [])
        (if not seg_wit && ltb 0 (length txin.witness) then true else seg_wit) is

  unfoldable pub add_tx_outs : TxOutList → List Out → TxOutList
  add_tx_outs touts [] = touts
  add_tx_outs touts (o ∷ os) =
      add_tx_outs (touts ++ record { value = wire.value o; script_pub_key = wire.pk_script o } ∷ [])
        os

  unfoldable pub tx_from_msg_tx : Msg → Tx
  tx_from_msg_tx mtx =
      let (tins, seg_wit) = add_tx_ins [] false (wire.tx_in mtx) in
      record {
        version = wire.version mtx % 2 ^ 32;
        tx_ins = tins;
        tx_outs = add_tx_outs [] (wire.tx_out mtx);
        lock_time = wire.lock_time mtx % 2 ^ 32;
        seg_wit = seg_wit;
      }

  unfoldable pub add_txs : TxList → List Msg → TxList
  add_txs txs [] = txs
  add_txs txs (mtx ∷ ms) = add_txs (txs ++ tx_from_msg_tx mtx ∷ []) ms

  unfoldable pub block_from_msg_block : BlockMsg → ℕ → Block
  block_from_msg_block mb magic = record {
    magic = magic;
    block_header = record {
      version = wire.header_version mb % 2 ^ 32;
      prev_hash = wire.prev_block mb;
      hash_merkle_root = wire.merkle_root mb;
      time = wire.timestamp mb % 2 ^ 32;
      bits = wire.bits mb % 2 ^ 32;
      nonce = wire.nonce mb % 2 ^ 32;
    };
    txs = add_txs [] (wire.transactions mb);
  }

-- ===== src/Tests/BtcNode.antt =====
-- btcnode/btcnode.go at concrete inputs: the messages are transactions and blocks themselves.
use blkchain.Prelude.{
  ℕ, sym, List, ◌+◌, some, subst, bytes_eq, bytes_eq_sound, Bool-cases, inl, inr, ◌≡◌, ◌↔◌, refl,
  false, [], ◌∷◌, ◌++◌, All, arith,
}
use blkchain.Io.{ok}
use blkchain.TxIn.{TxIn}
use blkchain.TxOut.{TxOut}
use blkchain.Tx.{Tx, zero_tx, bin_read, bin_write}
use blkchain.Tx.RoundTrip.{HasNoWitness}
use blkchain.Block.{Block}
use blkchain.BtcNode.{
  Wire, append_items, tx_in_from, add_tx_ins, add_tx_outs, tx_from_msg_tx, add_txs,
  block_from_msg_block,
}
use blkchain.BtcNode.Valid.{Fits, bin_write-tx_from_msg_tx, tx_from_msg_tx-seg_wit}
use blkchain.KeyMap
use blkchain.HeightMap
use blkchain.Orphans.{
  eliminate_orphans, eliminate_between, find_bounds, widen, walk_down, drop_split, walk,
}
use blkchain.Uint256.{Uint256}
use blkchain.BlockHeader.{BlockHeader}
use blkchain.BtcNode.Headers.{
  ByPrev, children, Store, set_children, index_headers, set_children_height, set_parents, each,
  add_headers, add_child, by_height, add_all,
}
use blkchain.BtcNode.Headers.Heights.{IsNext, Given, set_children-Given}
use blkchain.Tests.Data.{tx, plain_tx, header, hash_of-IsHash, some_in}

program : Unit {0}
unfolding append_items tx_in_from add_tx_ins add_tx_outs tx_from_msg_tx add_txs block_from_msg_block
program = tt

abbrev wire : Wire TxIn TxOut Tx Block
wire = record {
  prev_hash = λ i. i.prev_out.hash;
  prev_index = λ i. i.prev_out.n;
  signature_script = λ i. i.script_sig;
  sequence = λ i. i.sequence;
  witness = λ i. i.witness;
  value = λ o. o.value;
  pk_script = λ o. o.script_pub_key;
  version = λ t. t.version;
  tx_in = λ t. t.tx_ins;
  tx_out = λ t. t.tx_outs;
  lock_time = λ t. t.lock_time;
  header_version = λ b. b.block_header.version;
  prev_block = λ b. b.block_header.prev_hash;
  merkle_root = λ b. b.block_header.hash_merkle_root;
  timestamp = λ b. b.block_header.time;
  bits = λ b. b.block_header.bits;
  nonce = λ b. b.block_header.nonce;
  transactions = λ b. b.txs;
}

abbrev block : Block
block = record { magic = 7; block_header = header; txs = plain_tx ∷ tx ∷ [] }

converts :
    (tx_from_msg_tx wire tx ≡ tx)
    × (tx_from_msg_tx wire plain_tx ≡ plain_tx)
    × (block_from_msg_block wire block 7 ≡ block)
unfolding program
converts = (refl, refl, refl)

tx-Fits : Fits wire tx
tx-Fits = record {
  ins = (
    record {
      prev_hash = hash_of-IsHash 7 (omega arith);
      prev_index = omega arith;
      script = omega arith;
      sequence = omega arith;
      witness = record { count = omega arith; items = (omega arith, tt) };
    },
    (
      record {
        prev_hash = hash_of-IsHash 7 (omega arith);
        prev_index = omega arith;
        script = omega arith;
        sequence = omega arith;
        witness = record { count = omega arith; items = tt };
      },
      tt,
    ),
  );
  in_count = omega arith;
  some_in = some_in;
  outs = (record { value = omega arith; script = omega arith }, tt);
  out_count = omega arith;
}

bin_write-tx_from_msg_tx_example :
    bin_read zero_tx (bin_write (tx_from_msg_tx wire tx) ++ 1 ∷ [])
    ≡ ok (tx_from_msg_tx wire tx, 1 ∷ [])
bin_write-tx_from_msg_tx_example = bin_write-tx_from_msg_tx wire tx (1 ∷ []) tx-Fits

tx_from_msg_tx-seg_wit_example :
    ((tx_from_msg_tx wire plain_tx).seg_wit ≡ false)
    ↔ All HasNoWitness ((tx_from_msg_tx wire plain_tx).tx_ins)
tx_from_msg_tx-seg_wit_example = tx_from_msg_tx-seg_wit wire plain_tx

indexing : Unit {0}
unfolding index_headers set_children_height set_parents set_children each children add_headers
    add_child by_height add_all eliminate_orphans eliminate_between find_bounds widen walk_down
    drop_split walk KeyMap.get KeyMap.put HeightMap.add HeightMap.get HeightMap.has HeightMap.put
    bytes_eq
indexing = tt

abbrev header_at : ℕ → BlockHeader
header_at b = record header { prev_hash = b ∷ [] }

-- Two headers, one above the other, behind the hash of height 5; a hash has its height as its byte.
abbrev chain : ByPrev
chain = (5 ∷ [], 0 ∷ []) ∷ (6 ∷ [], 1 ∷ []) ∷ []

abbrev chain_hash : ℕ → Uint256
chain_hash i = (6 + i) ∷ []

abbrev chain_height : Uint256 → ℕ
chain_height [] = 0
chain_height (b ∷ hash) = b

abbrev InChain : Uint256 → List ℕ → Type 0
InChain hash is = All (IsNext chain_hash chain chain_height 7 hash) is

next_5 : InChain (5 ∷ []) (children chain (5 ∷ []))
unfolding children KeyMap.get bytes_eq
next_5 = ((refl, omega arith), tt)

next_6 : InChain (6 ∷ []) (children chain (6 ∷ []))
unfolding children KeyMap.get bytes_eq
next_6 = ((refl, omega arith), tt)

no_children :
    (hash : Uint256)
    → bytes_eq (5 ∷ []) hash ≡ false
    → bytes_eq (6 ∷ []) hash ≡ false
    → children chain hash ≡ []
unfolding children KeyMap.get
no_children hash e f = cc

chain_next : (hash : Uint256) → InChain hash (children chain hash)
chain_next hash = elim (Bool-cases (bytes_eq (5 ∷ []) hash)) [
  | inl e ↦ subst (λ h. InChain h (children chain h)) (bytes_eq_sound (5 ∷ []) hash e) next_5
  | inr e ↦ elim (Bool-cases (bytes_eq (6 ∷ []) hash)) [
    | inl f ↦ subst (λ h. InChain h (children chain h)) (bytes_eq_sound (6 ∷ []) hash f) next_6
    | inr f ↦ subst (InChain hash) (sym (no_children hash e f)) tt
  ]
]

set_children-Given_example :
    (st : Store) × (set_children chain_hash chain 3 5 (5 ∷ []) (λ i. 0) ≡ some st)
    × Given chain_hash chain chain_height 7 chain_next (children chain (5 ∷ [])) (λ i. 0) st
set_children-Given_example =
    set_children-Given chain_hash chain chain_height 7 chain_next 2 (5 ∷ []) (λ i. 0) (omega arith)

-- The second header is at height 7, and the index begins below the first.
indexed :
    index_headers chain_hash
      (λ i. (5 + i) ∷ [])
      3
      (header_at 5 ∷ header_at 6 ∷ [])
      ((5, (5 ∷ []) ∷ []) ∷ [])
    ≡ some (ok (record { m = (6, 0 ∷ []) ∷ (7, 1 ∷ []) ∷ []; above = 6; n = 0; count = 2 }))
unfolding indexing
indexed = refl

-- Without headers nothing is done, and the index is empty.
not_indexed :
    index_headers chain_hash (λ i. (5 + i) ∷ []) 0 [] ((5, (5 ∷ []) ∷ []) ∷ [])
    ≡ some (ok (record { m = []; above = 1; n = 0; count = 0 }))
unfolding indexing
not_indexed = refl

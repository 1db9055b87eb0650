-- ===== src/BtcNode/Valid.antt =====
-- The transactions of a node's messages can be written and read back: the SegWit mark is right.
use blkchain.Prelude.{
  suc, ◌+◌, ◌≡◌, ◌≢◌, ◌↔◌, refl, sym, ap, ◌∙◌, Bool, true, false, List, [], ◌∷◌, ◌++◌, length,
  length-append, append_assoc, append-nil, map, All, All-append, ltb, Bool-cases, inl, inr, arith,
}
use blkchain.Io.{ok, Bytes, IsLen, IsU32, IsU64}
use blkchain.Uint256.{IsHash}
use blkchain.Witness.{Witness}
use blkchain.Witness.RoundTrip as W
use blkchain.TxIn.RoundTrip as In
use blkchain.TxInList.{TxInList}
use blkchain.TxOut.RoundTrip as Out
use blkchain.TxOutList.{TxOutList}
use blkchain.Tx.{zero_tx, bin_read, bin_write}
use blkchain.Tx.RoundTrip.{IsValid, HasNoWitness, bin_read-bin_write}
use blkchain.BtcNode.{Wire, append_items, tx_in_from, add_tx_ins, add_tx_outs, tx_from_msg_tx}

append_items-append : (wits : Witness) (ws : List Bytes) → append_items wits ws ≡ wits ++ ws
unfolding append_items
append_items-append wits [] = sym (append-nil wits)
append_items-append wits (w ∷ ws) =
    append_items-append (wits ++ w ∷ []) ws ∙ append_assoc wits (w ∷ []) ws

module _ {I O Msg BlockMsg : Type 0} (wire : Wire I O Msg BlockMsg) where
  -- An input and an output of a message whose parts fit.
  pub record FitsIn (i : I) : Type 0 where
    pub prev_hash : IsHash (wire.prev_hash i)
    pub prev_index : IsU32 (wire.prev_index i)
    pub script : IsLen (length (wire.signature_script i))
    pub sequence : IsU32 (wire.sequence i)
    pub witness : W.IsValid (wire.witness i)

  pub record FitsOut (o : O) : Type 0 where
    pub value : IsU64 (wire.value o)
    pub script : IsLen (length (wire.pk_script o))

  tx_in_from-IsValid : (i : I) → FitsIn i → In.IsValid (tx_in_from wire i)
  unfolding tx_in_from
  tx_in_from-IsValid i h = record {
    prev_out = record { hash = h.prev_hash; n = h.prev_index };
    script_sig = h.script;
    sequence = h.sequence;
    witness = rw (append_items-append [] (wire.witness i)) h.witness;
  }

  -- The inputs are added in order.
  ins_of :
      (tins : TxInList) (seg_wit : Bool) (is : List I)
      → (add_tx_ins wire tins seg_wit is).0 ≡ tins ++ map (tx_in_from wire) is
  unfolding add_tx_ins
  ins_of tins seg_wit [] = sym (append-nil tins)
  ins_of tins seg_wit (i ∷ is) =
      ins_of (tins ++ tx_in_from wire i ∷ []) _ is
      ∙ append_assoc tins (tx_in_from wire i ∷ []) (map (tx_in_from wire) is)

  no_witness : (wits : Witness) → ltb 0 (length wits) ≡ false → wits ≡ []
  no_witness [] h = refl
  no_witness (w ∷ wits) h = absurd (ground arith)

  -- Once set, the mark stays.
  stays_marked : (tins : TxInList) (is : List I) → (add_tx_ins wire tins true is).1 ≡ true
  unfolding add_tx_ins
  stays_marked tins [] = refl
  stays_marked tins (i ∷ is) = stays_marked (tins ++ tx_in_from wire i ∷ []) is

  unmarked :
      (tins : TxInList) (is : List I)
      → (add_tx_ins wire tins false is).1 ≡ false
      → All HasNoWitness (map (tx_in_from wire) is)
  unfolding add_tx_ins
  unmarked tins [] e = tt
  unmarked tins (i ∷ is) e = elim (Bool-cases (ltb 0 (length (tx_in_from wire i).witness))) [
    | inl some_item ↦
        let marked = stays_marked (tins ++ tx_in_from wire i ∷ []) is in
        let off : (add_tx_ins wire (tins ++ tx_in_from wire i ∷ []) true is).1 ≡ false =
          rw (some_item, add_tx_ins) at e in
        absurd cc
    | inr none ↦ (
      no_witness _ none,
      unmarked (tins ++ tx_in_from wire i ∷ []) is (rw (none, add_tx_ins) at e),
    )
  ]

  map-All : (is : List I) → All FitsIn is → All In.IsValid (map (tx_in_from wire) is)
  map-All [] h = tt
  map-All (i ∷ is) h = (tx_in_from-IsValid i h.0, map-All is h.1)

  outs-All :
      (touts : TxOutList) (os : List O)
      → All Out.IsValid touts
      → All FitsOut os
      → All Out.IsValid (add_tx_outs wire touts os)
  unfolding add_tx_outs
  outs-All touts [] h k = h
  outs-All touts (o ∷ os) h k =
      let one : Out.IsValid (record { value = wire.value o; script_pub_key = wire.pk_script o }) =
        record { value = k.0.value; script = k.0.script } in
      outs-All (touts ++ record { value = wire.value o; script_pub_key = wire.pk_script o } ∷ []) os
        (All-append Out.IsValid touts _ h (one, tt)) k.1

  length-outs :
      (touts : TxOutList) (os : List O)
      → length (add_tx_outs wire touts os) ≡ length touts + length os
  unfolding add_tx_outs
  length-outs touts [] = omega arith
  length-outs touts (o ∷ os) =
      length-outs (touts ++ record { value = wire.value o; script_pub_key = wire.pk_script o } ∷ [])
        os
      ∙ omega (
        arith,
        length-append touts
            (record { value = wire.value o; script_pub_key = wire.pk_script o } ∷ []),
      )

  length-map : (is : List I) → length (map (tx_in_from wire) is) ≡ length is
  length-map [] = refl
  length-map (i ∷ is) = ap suc (length-map is)

  -- A message whose parts fit and that has an input.
  pub record Fits (mtx : Msg) : Type 0 where
    pub ins : All FitsIn (wire.tx_in mtx)
    pub in_count : IsLen (length (wire.tx_in mtx))
    pub some_in : wire.tx_in mtx ≢ []
    pub outs : All FitsOut (wire.tx_out mtx)
    pub out_count : IsLen (length (wire.tx_out mtx))

  map-ne : (is : List I) → is ≢ [] → map (tx_in_from wire) is ≢ []
  map-ne [] ne e = ne refl
  map-ne (i ∷ is) ne e = cc

  still_unmarked :
      (tins : TxInList) (is : List I)
      → All HasNoWitness (map (tx_in_from wire) is)
      → (add_tx_ins wire tins false is).1 ≡ false
  unfolding add_tx_ins
  still_unmarked tins [] h = refl
  still_unmarked tins (i ∷ is) h =
      let bare : ltb 0 (length (tx_in_from wire i).witness) ≡ false =
        ap (λ (wits : Witness). ltb 0 (length wits)) h.0 in
      rw (bare, add_tx_ins) (still_unmarked (tins ++ tx_in_from wire i ∷ []) is h.1)

  -- A transaction that is made from a node's message is not marked as SegWit if and only if none
  -- of its inputs has a witness.
  pub tx_from_msg_tx-seg_wit :
      (mtx : Msg)
      → ((tx_from_msg_tx wire mtx).seg_wit ≡ false)
        ↔ All HasNoWitness ((tx_from_msg_tx wire mtx).tx_ins)
  unfolding tx_from_msg_tx
  tx_from_msg_tx-seg_wit mtx =
      rw (ins_of [] false (wire.tx_in mtx))
        (unmarked [] (wire.tx_in mtx), still_unmarked [] (wire.tx_in mtx))

  tx_from_msg_tx-IsValid : (mtx : Msg) → Fits mtx → IsValid (tx_from_msg_tx wire mtx)
  unfolding tx_from_msg_tx
  tx_from_msg_tx-IsValid mtx h =
      let same = ins_of [] false (wire.tx_in mtx) in
      record {
        version = omega arith;
        tx_ins = rw same (record {
          count = rw (length-map (wire.tx_in mtx)) h.in_count;
          ins = map-All (wire.tx_in mtx) h.ins;
        });
        some_in = rw same (map-ne (wire.tx_in mtx) h.some_in);
        tx_outs = record {
          count = omega (arith, length-outs [] (wire.tx_out mtx), h.out_count);
          outs = outs-All [] (wire.tx_out mtx) tt h.outs;
        };
        lock_time = omega arith;
        plain = λ e. rw same (unmarked [] (wire.tx_in mtx) e);
      }

  -- A transaction that is made from a node's message whose parts fit and that has an input is read
  -- back from the bytes that it is written as, whatever follows them.
  pub bin_write-tx_from_msg_tx :
      (mtx : Msg) (rest : Bytes)
      → Fits mtx
      → bin_read zero_tx (bin_write (tx_from_msg_tx wire mtx) ++ rest)
        ≡ ok (tx_from_msg_tx wire mtx, rest)
  bin_write-tx_from_msg_tx mtx rest h =
      bin_read-bin_write (tx_from_msg_tx wire mtx) rest (tx_from_msg_tx-IsValid mtx h)

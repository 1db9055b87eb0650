-- ===== src/Db/System/ForeignKeys/Phase.antt =====
-- Where `pgBlockWorker` of db/postgres.go stands between two blocks: a signal to commit rows that refer
-- to others is sent only after the others were committed.
use blkchain.Prelude.{
  ℕ, suc, ◌≡◌, ◌≤◌, refl, Bool, true, false, not, ◌&&◌, ◌||◌, Option, none, some, List, [], ◌∷◌,
  ◌++◌, append_assoc, length, ◌==◌, ◌⊎◌, if◌then◌else◌, arith,
}
use blkchain.Io.{Bytes}
use blkchain.Uint256.{Uint256}
use blkchain.KeyMap.{KeyMap}
use blkchain.Tx
use blkchain.Tx.{Tx}
use blkchain.TxIn.{TxIn}
use blkchain.TxOut.{TxOut}
use blkchain.TxIdCache
use blkchain.TxIdCache.{TxIdCache}
use blkchain.Db.Table.{Table}
use blkchain.Db.{BlockRecSync, Msg, row, commit_signal}
use blkchain.Db.Worker.{
  Action, send, await, reply, do_tx, Channel, block_ch, tx_ch, tx_in_ch, tx_out_ch, Heights,
  height_of, tx_actions, in_actions, out_actions, commit_actions, end_actions, connected_actions,
  block_actions, transaction,
}
use blkchain.Db.System.{asks, Stage, Stages, stage}
use blkchain.Db.System.Debts.{asked, debt, debts}

-- Whether all rows of blocks are committed, and all rows of transactions, and whose answer is next.
pub record Phase : Type 0 where
  pub blocks : Bool
  pub txs : Bool
  pub next : Option Channel

abbrev pub is_block : Option Channel → Bool
is_block none = false
is_block (some block_ch) = true
is_block (some tx_ch) = false
is_block (some tx_in_ch) = false
is_block (some tx_out_ch) = false

abbrev pub is_tx : Option Channel → Bool
is_tx none = false
is_tx (some block_ch) = false
is_tx (some tx_ch) = true
is_tx (some tx_in_ch) = false
is_tx (some tx_out_ch) = false

abbrev pub after : Action → Phase → Phase
after (send block_ch m) p = record {
  blocks = false;
  txs = p.txs;
  next = if asks m then some block_ch else none;
}
after (send tx_ch m) p = record {
  blocks = p.blocks;
  txs = false;
  next = if asks m then some tx_ch else none;
}
after (send tx_in_ch m) p = record p { next = none }
after (send tx_out_ch m) p = record p { next = none }
after await p = record {
  blocks = p.blocks || is_block p.next;
  txs = p.txs || is_tx p.next;
  next = none;
}
after (reply r) p = record p { next = none }
after (do_tx b n tx) p = record { blocks = p.blocks; txs = false; next = none }

abbrev pub allowed : Action → Phase → Bool
allowed (send block_ch m) p = true
allowed (send tx_ch (row tr)) p = true
allowed (send tx_ch (commit_signal s)) p = p.blocks
allowed (send tx_in_ch (row r)) p = true
allowed (send tx_in_ch (commit_signal s)) p = p.txs
allowed (send tx_out_ch (row r)) p = true
allowed (send tx_out_ch (commit_signal s)) p = p.txs
allowed await p = true
allowed (reply r) p = true
allowed (do_tx b n tx) p = true

-- At the end all rows of blocks and transactions are committed.
unfoldable pub ordered : Phase → List Action → Bool
ordered p [] = p.blocks && p.txs
ordered p (a ∷ rest) = allowed a p && ordered (after a p) rest

abbrev pub settled_phase : Phase
settled_phase = record { blocks = true; txs = true; next = none }

-- A phase in which rows are sent.
abbrev open_phase : Bool → Phase
open_phase t = record { blocks = false; txs = t; next = none }

ordered-commit_actions : (t sync : Bool) → ordered (open_phase t) (commit_actions sync) ≡ true
unfolding ordered commit_actions
ordered-commit_actions t true = refl
ordered-commit_actions t false = refl

ordered-tx_actions :
    (t : Bool) (b n : ℕ) (txs : List Tx) (sync : Bool)
    → ordered (open_phase t) (tx_actions b n txs ++ commit_actions sync) ≡ true
unfolding ordered tx_actions
ordered-tx_actions t b n [] sync = ordered-commit_actions t sync
ordered-tx_actions t b n (tx ∷ txs) sync = ordered-tx_actions false b (suc n) txs sync

ordered-ignored :
    (sync : Bool) → ordered settled_phase (if sync then reply false ∷ [] else []) ≡ true
unfolding ordered
ordered-ignored true = refl
ordered-ignored false = refl

pub ordered-block_actions :
    (sha256 : Bytes → Bytes) (hs : Heights) (id : ℕ) (b : BlockRecSync)
    → ordered settled_phase (block_actions sha256 false hs id b) ≡ true
unfolding block_actions connected_actions end_actions ordered
ordered-block_actions sha256 hs id b =
    elim (height_of hs b.rec)
      as (λ o.
        ordered settled_phase (elim o [
          | some h ↦ connected_actions sha256 false id b h
          | none ↦ if b.sync then reply false ∷ [] else []
        ])
        ≡ true) [
          | some h ↦ ordered-tx_actions true id 0 b.rec.block.txs b.sync
          | none ↦ ordered-ignored b.sync
        ]

-- The phase between two signals.
abbrev phase : Bool → Bool → Phase
phase b t = record { blocks = b; txs = t; next = none }

ordered-in_actions :
    (p q : Bool) (id n : ℕ) (ts : List TxIn) (rest : List Action)
    → ordered (phase p q) rest ≡ true
    → ordered (phase p q) (in_actions id n ts ++ rest) ≡ true
unfolding ordered in_actions
ordered-in_actions p q id n [] rest h = h
ordered-in_actions p q id n (t ∷ ts) rest h = ordered-in_actions p q id (suc n) ts rest h

ordered-out_actions :
    (p q : Bool) (id : ℕ) (hash : Uint256) (n : ℕ) (ts : List TxOut) (rest : List Action)
    → ordered (phase p q) rest ≡ true
    → ordered (phase p q) (out_actions id hash n ts ++ rest) ≡ true
unfolding ordered out_actions
ordered-out_actions p q id hash n [] rest h = h
ordered-out_actions p q id hash n (t ∷ ts) rest h =
    ordered-out_actions p q id hash (suc n) ts rest h

ordered-rows :
    (p q : Bool) (id : ℕ) (hash : Uint256) (tx : Tx) (rest : List Action) (known : Bool)
    → ordered (phase p q) rest ≡ true
    → ordered (phase p q) (
        (if known then [] else in_actions id 0 tx.tx_ins ++ out_actions id hash 0 tx.tx_outs)
        ++ rest)
      ≡ true
ordered-rows p q id hash tx rest true h = h
ordered-rows p q id hash tx rest false h =
    let ins = in_actions id 0 tx.tx_ins in
    let outs = out_actions id hash 0 tx.tx_outs in
    rw (append_assoc ins outs rest) (
      ordered-in_actions p q id 0 tx.tx_ins (outs ++ rest)
        (ordered-out_actions p q id hash 0 tx.tx_outs rest h))

pub ordered-transaction :
    (sha256 : Bytes → Bytes) (first : KeyMap ℕ → Option Bytes) (cache : TxIdCache) (id b n : ℕ)
    (tx : Tx) (rest : List Action) (p : Phase)
    → ordered (after (do_tx b n tx) p) rest ≡ true
    → ordered p ((transaction sha256 first cache id b n tx).1 ++ rest) ≡ true
unfolding ordered transaction
ordered-transaction sha256 first cache id b n tx rest p h =
    let recent = (TxIdCache.add first cache (Tx.hash sha256 tx) id (length tx.tx_outs)).1 in
    ordered-rows p.blocks false id (Tx.hash sha256 tx) tx rest (not (recent == id)) h

-- No rows of the table are missing, and none wait.
abbrev pub Settled : {R A : Type 0} → Table R → Stage A → Type 0
Settled t st = (t.pending ≡ []) × (st.queue ≡ [])

abbrev pub ends_asking : {A : Type 0} → List (Msg A) → Bool
ends_asking [] = false
ends_asking (m ∷ []) = asks m
ends_asking (m ∷ n ∷ ms) = ends_asking (n ∷ ms)

-- The signal to commit that the worker waits for is the last message, or it is answered.
abbrev pub Acked : {R A : Type 0} → Table R → Stage A → Type 0
Acked t st = ((st.answering ≡ true) × Settled t st) ⊎ (ends_asking st.queue ≡ true)

pub ends_asking-send :
    {A : Type 0} (ms : List (Msg A)) (m : Msg A) → asks m ≡ true → ends_asking (ms ++ m ∷ []) ≡ true
ends_asking-send [] m h = h
ends_asking-send (n ∷ []) m h = h
ends_asking-send (n ∷ o ∷ ms) m h = ends_asking-send (o ∷ ms) m h

pub asked-ends : {A : Type 0} (ms : List (Msg A)) → ends_asking ms ≡ true → 1 ≤ asked ms
unfolding asked
asked-ends [] h = absurd (cc)
asked-ends (m ∷ []) h = rw (h) (omega arith)
asked-ends (m ∷ n ∷ ms) h = omega (arith, asked-ends (n ∷ ms) h)

-- Two writers do not owe an answer at once.
pub debts-two :
    (c d : Channel) (ss : Stages)
    → debts ss ≡ 1
    → 1 ≤ debt (stage c ss)
    → 1 ≤ debt (stage d ss)
    → c ≡ d
unfolding debts
debts-two block_ch block_ch ss h i j = refl
debts-two block_ch tx_ch ss h i j = absurd (omega arith)
debts-two block_ch tx_in_ch ss h i j = absurd (omega arith)
debts-two block_ch tx_out_ch ss h i j = absurd (omega arith)
debts-two tx_ch block_ch ss h i j = absurd (omega arith)
debts-two tx_ch tx_ch ss h i j = refl
debts-two tx_ch tx_in_ch ss h i j = absurd (omega arith)
debts-two tx_ch tx_out_ch ss h i j = absurd (omega arith)
debts-two tx_in_ch block_ch ss h i j = absurd (omega arith)
debts-two tx_in_ch tx_ch ss h i j = absurd (omega arith)
debts-two tx_in_ch tx_in_ch ss h i j = refl
debts-two tx_in_ch tx_out_ch ss h i j = absurd (omega arith)
debts-two tx_out_ch block_ch ss h i j = absurd (omega arith)
debts-two tx_out_ch tx_ch ss h i j = absurd (omega arith)
debts-two tx_out_ch tx_in_ch ss h i j = absurd (omega arith)
debts-two tx_out_ch tx_out_ch ss h i j = refl

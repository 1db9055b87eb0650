-- ===== src/Db/System.antt =====
-- The goroutines of db/postgres.go over their channels: `pgBlockWorker`, which takes blocks from
-- `WriteBlock`, and the four writers, interleaved in any order.
pub mod Pairs
pub mod Ends
pub mod Debts
pub mod Invariant
pub mod Progress
pub mod Costs
pub mod Bounded
pub mod ForeignKeys
pub mod Numbered
use blkchain.Prelude.{
  ℕ, zero, suc, ◌+◌, ◌%◌, ◌^◌, ◌<◌, ◌≡◌, Bool, true, false, ◌||◌, Option, none, some, List, [], ◌∷◌,
  ◌++◌, length, ltb, if◌then◌else◌,
}
use blkchain.Io.{Bytes, Result, ok, err}
use blkchain.Uint256.{Uint256}
use blkchain.KeyMap.{KeyMap}
use blkchain.Tx.{Tx}
use blkchain.TxIn.{TxIn}
use blkchain.TxIdCache.{TxIdCache, new_tx_id_cache}
use blkchain.Db.{
  BlockRecSync, BlockRec, TxRec, TxInRec, TxOutRec, Msg, row, commit_signal, BlockRow, TxOutRow,
}
use blkchain.Db.Table.{Table, begin, commit}
use blkchain.Db.Writers.{
  TableName, blocks, txs, block_txs, txins, txouts, no_table, TxTables, TxInTables, write_block,
  write_tx, write_tx_in, write_tx_out, commit_tx_ins,
}
use blkchain.Db.Worker.{
  Channel, block_ch, tx_ch, tx_in_ch, tx_out_ch, Carried, Action, send, await, reply, do_tx,
  Heights, block_actions, transaction, to_write,
}

-- What the goroutines are started with, and the parameters of the code that they call.
pub record Config : Type 0 where
  pub has_db : Bool
  pub works : TableName → ℕ → Bool
  pub first_import : Bool
  pub nil_witness : TxIn → Bool
  pub utxo : Option (Uint256 → ℕ → Result Bool)
  pub first : KeyMap ℕ → Option Bytes
  pub sha256 : Bytes → Bytes

-- A channel and the writer that reads it: the messages that wait, whether the writer is at
-- `sync <- true`, and whether it has returned.
pub record Stage (A : Type 0) : Type 0 where
  pub queue : List (Msg A)
  pub answering : Bool
  pub returned : Bool

pub record Stages : Type 0 where
  pub s_block : Stage BlockRec
  pub s_tx : Stage TxRec
  pub s_tx_in : Stage TxInRec
  pub s_tx_out : Stage TxOutRec

abbrev pub stage : (c : Channel) → Stages → Stage (Carried c)
stage block_ch ss = ss.s_block
stage tx_ch ss = ss.s_tx
stage tx_in_ch ss = ss.s_tx_in
stage tx_out_ch ss = ss.s_tx_out

abbrev pub set_stage : (c : Channel) → Stage (Carried c) → Stages → Stages
set_stage block_ch st ss = record ss { s_block = st }
set_stage tx_ch st ss = record ss { s_tx = st }
set_stage tx_in_ch st ss = record ss { s_tx_in = st }
set_stage tx_out_ch st ss = record ss { s_tx_out = st }

-- The length of `make(chan …)`.
abbrev pub capacity : Channel → ℕ
capacity block_ch = 2
capacity tx_ch = 64
capacity tx_in_ch = 64
capacity tx_out_ch = 64

-- What the writers have, and the cache of ids that one of them shares with the worker.
pub record Tables : Type 0 where
  pub t_blocks : Table BlockRow
  pub t_txs : TxTables
  pub t_tx_ins : TxInTables
  pub t_tx_outs : Table TxOutRow
  pub cache : TxIdCache

-- Whether a message asks for an answer.
abbrev pub asks : {A : Type 0} → Msg A → Bool
asks (row a) = false
asks (commit_signal s) = s

-- `input` are the blocks that callers still write; `todo` is what the worker does before it takes
-- the next; `closed` tells whether it has closed the channels; `replies` are the answers on the
-- callers' channels.
pub record State : Type 0 where
  pub input : List BlockRecSync
  pub todo : List Action
  pub closed : Bool
  pub block_id : ℕ
  pub tx_id : ℕ
  pub stages : Stages
  pub tables : Tables
  pub replies : List Bool

-- Who is next: the worker, with the heights that the database would tell; the writer of a channel; or
-- both, with the answer that passes between them.
pub data Turn : Type 0 where
  worker : Heights → Turn
  writer answer : Channel → Turn

module _ (cfg : Config) where
  -- A writer's work on a message, up to the answer.
  unfoldable pub receive : (c : Channel) → Msg (Carried c) → Tables → Result Tables
  receive block_ch m t = ok (record t { t_blocks = write_block cfg.has_db cfg.works t.t_blocks m })
  receive tx_ch m t = ok (record t { t_txs = write_tx cfg.has_db cfg.works t.t_txs m })
  receive tx_in_ch m t =
      elim (write_tx_in cfg.has_db cfg.works cfg.first_import cfg.nil_witness t.cache t.t_tx_ins
        m) [ err e ↦ err e | ok (cache, ins) ↦ ok (record t { t_tx_ins = ins; cache = cache }) ]
  receive tx_out_ch m t =
      ok (record t { t_tx_outs = write_tx_out cfg.has_db cfg.works cfg.utxo t.t_tx_outs m })

  -- The last commit of a writer, when its channel is closed.
  unfoldable pub last_commit : Channel → Tables → Tables
  last_commit block_ch t = record t {
    t_blocks = (commit cfg.has_db (cfg.works blocks) 0 t.t_blocks).1;
  }
  last_commit tx_ch t = record t {
    t_txs = record {
      txs = (commit cfg.has_db (cfg.works txs) 0 t.t_txs.txs).1;
      block_txs = (commit cfg.has_db (cfg.works block_txs) 0 t.t_txs.block_txs).1;
    };
  }
  last_commit tx_in_ch t = record t { t_tx_ins = commit_tx_ins cfg.has_db cfg.works t.t_tx_ins }
  last_commit tx_out_ch t = record t {
    t_tx_outs = (commit cfg.has_db (cfg.works txouts) 0 t.t_tx_outs).1;
  }

  -- With no action left, the worker takes the next block, or closes the channels.
  unfoldable pub next_block : Heights → List BlockRecSync → State → Option State
  next_block hs [] s = if s.closed then none else some (record s { closed = true })
  next_block hs (b ∷ bs) s =
      let id = (s.block_id + 1) % 2 ^ 64 in
      some (record s {
        input = bs;
        block_id = id;
        todo = block_actions cfg.sha256 cfg.first_import hs id b;
      })

  -- An action, with those behind it. A channel that is full makes the worker wait.
  unfoldable pub act : Action → List Action → State → Option State
  act (send c m) rest s =
      let st = stage c s.stages in
      let st' = record st { queue = st.queue ++ m ∷ [] } in
      if ltb (length st.queue) (capacity c)
      then some (record s { todo = rest; stages = set_stage c st' s.stages })
      else none
  act await rest s = none
  act (reply r) rest s = some (record s { todo = rest; replies = s.replies ++ r ∷ [] })
  act (do_tx block_id n tx) rest s =
      let id = (s.tx_id + 1) % 2 ^ 64 in
      let (cache, actions) = transaction cfg.sha256 cfg.first s.tables.cache id block_id n tx in
      some (record s {
        todo = actions ++ rest;
        tx_id = id;
        tables = record s.tables { cache = cache };
      })

  unfoldable pub work : Heights → List Action → State → Option State
  work hs [] s = next_block hs s.input s
  work hs (a ∷ rest) s = act a rest s

  unfoldable pub hear : Channel → List Action → State → Option State
  hear c (await ∷ rest) s =
      let st = record (stage c s.stages) { answering = false } in
      if (stage c s.stages).answering
      then some (record s { todo = rest; stages = set_stage c st s.stages })
      else none
  hear c [] s = none
  hear c (send d m ∷ rest) s = none
  hear c (reply r ∷ rest) s = none
  hear c (do_tx b n tx ∷ rest) s = none

  -- A writer that does not wait for its answer to be heard takes the next message; with none left and
  -- the channel closed, it commits and returns. A panic ends it all.
  unfoldable pub write : (c : Channel) → List (Msg (Carried c)) → State → Option State
  write c (m ∷ ms) s =
      let st = record (stage c s.stages) { queue = ms; answering = asks m } in
      elim (receive c m s.tables) [
        | err e ↦ none
        | ok t ↦ some (record s { tables = t; stages = set_stage c st s.stages })
      ]
  write c [] s =
      let st = record (stage c s.stages) { returned = true } in
      if s.closed
      then some (record s { tables = last_commit c s.tables; stages = set_stage c st s.stages })
      else none

  unfoldable pub step : Turn → State → Option State
  step (worker hs) s = work hs s.todo s
  step (answer c) s = hear c s.todo s
  step (writer c) s =
      let st = stage c s.stages in
      let next = write c st.queue s in if st.answering || st.returned then none else next

  pub data Run : ℕ → State → State → Type 0 where
    stop : {s : State} → Run zero s s
    later :
        {n : ℕ} {s t u : State} (turn : Turn) → step turn s ≡ some t → Run n t u → Run (suc n) s u

-- `begin` of each writer, over what the tables hold.
unfoldable pub begin_all : Config → Tables → Tables
begin_all cfg t = record t {
  t_blocks = begin cfg.has_db (cfg.works blocks) t.t_blocks;
  t_txs = record {
    txs = begin cfg.has_db (cfg.works txs) t.t_txs.txs;
    block_txs = begin cfg.has_db (cfg.works block_txs) t.t_txs.block_txs;
  };
  t_tx_ins = record t.t_tx_ins { txins = begin cfg.has_db (cfg.works txins) t.t_tx_ins.txins };
  t_tx_outs = begin cfg.has_db (cfg.works txouts) t.t_tx_outs;
}

abbrev pub new_stage : {A : Type 0} → Stage A
new_stage = record { queue = []; answering = false; returned = false }

abbrev pub is_some : {A : Type 0} → Option A → Bool
is_some none = false
is_some (some a) = true

-- The start, with the last ids and the top height of the database, over the blocks that will come.
unfoldable pub start : Config → (block_id tx_id : ℕ) → Heights → Tables → List BlockRecSync → State
start cfg block_id tx_id hs t bs = record {
  input = to_write cfg.sha256 (is_some cfg.utxo) hs bs;
  todo = [];
  closed = false;
  block_id = block_id;
  tx_id = tx_id;
  stages = record {
    s_block = new_stage;
    s_tx = new_stage;
    s_tx_in = new_stage;
    s_tx_out = new_stage;
  };
  tables = begin_all cfg t;
  replies = [];
}

-- ===== src/Db/Writers.antt =====
-- The four writers of db/postgres.go: what each does on a message from its channel, and at the end,
-- when the channel is closed.
pub mod Complete
use blkchain.Prelude.{
  ℕ, zero, suc, ◌+◌, ◌%◌, ◌^◌, Bool, true, false, not, ◌&&◌, Option, none, some, List, [], ◌∷◌,
  ◌++◌, length, ◌==◌, if◌then◌else◌,
}
use blkchain.Io.{Result, ok, err, Bytes, nil_pointer}
use blkchain.Uint256.{Uint256}
use blkchain.Witness
use blkchain.TxIn.{TxIn}
use blkchain.Tx
use blkchain.Block
use blkchain.TxIdCache.{TxIdCache, check}
use blkchain.Db.{
  BlockRec, TxRec, TxInRec, TxOutRec, Msg, row, commit_signal, BlockRow, TxRow, BlockTxRow, TxInRow,
  TxOutRow, PrevoutMiss, int32,
}
use blkchain.Db.Table.{Table, begin, exec, commit}

pub data TableName : Type 0 where
  blocks txs block_txs txins txouts prevout_miss : TableName

-- `var txn, stmt` before the first `begin`.
abbrev pub no_table : {R : Type 0} → Table R
no_table = record { open_stmt = false; pending = []; committed = []; calls = 0 }

unfoldable pub block_row : BlockRec → BlockRow
block_row br =
    let b = br.block in
    record {
      id = br.id;
      height = br.height;
      hash = br.hash;
      version = int32 b.block_header.version;
      prevhash = b.block_header.prev_hash;
      merkleroot = b.block_header.hash_merkle_root;
      time = int32 b.block_header.time;
      bits = int32 b.block_header.bits;
      nonce = int32 b.block_header.nonce;
      orphan = br.orphan;
      size = Block.size b;
      base_size = Block.base_size b;
      weight = Block.weight b;
      virt_size = Block.virtual_size b;
    }

unfoldable pub tx_row : TxRec → TxRow
tx_row tr = record {
  id = tr.id;
  txid = tr.hash;
  version = int32 tr.tx.version;
  locktime = int32 tr.tx.lock_time;
  size = Tx.size tr.tx;
  base_size = Tx.base_size tr.tx;
  weight = Tx.weight tr.tx;
  virt_size = Tx.virtual_size tr.tx;
}

unfoldable pub block_tx_row : TxRec → BlockTxRow
block_tx_row tr = record { block_id = tr.block_id; n = tr.n; tx_id = tr.id }

-- The two tables of `pgTxWriter`.
pub record TxTables : Type 0 where
  pub txs : Table TxRow
  pub block_txs : Table BlockTxRow

-- The table of `pgTxInWriter`, the misses that wait for the next commit, those that a commit has
-- fixed, and those that were written at once, with the number of calls for these.
pub record TxInTables : Type 0 where
  pub txins : Table TxInRow
  pub misses : List PrevoutMiss
  pub fixed : List PrevoutMiss
  pub direct : List PrevoutMiss
  pub direct_calls : ℕ

-- The calls of `recordPrevoutMisses` and `fixPrevoutTxId` in a commit.
unfoldable pub miss_calls : List PrevoutMiss → ℕ
miss_calls [] = 0
miss_calls (m ∷ misses) = (length (m ∷ misses) + 3) + 2

abbrev pub coinbase_index : ℕ
coinbase_index = 0xffff_ffff

-- `utxo` is none where there is no checker; an error of it counts as spent.
unfoldable pub is_spent : Option (Uint256 → ℕ → Result Bool) → Uint256 → ℕ → Bool
is_spent none hash n = false
is_spent (some is_utxo) hash n = elim (is_utxo hash (n % 2 ^ 32)) [ ok b ↦ not b | err e ↦ true ]

unfoldable pub tx_out_row : Option (Uint256 → ℕ → Result Bool) → TxOutRec → TxOutRow
tx_out_row utxo tr = record {
  tx_id = tr.tx_id;
  n = tr.n;
  value = tr.tx_out.value;
  scriptpubkey = tr.tx_out.script_pub_key;
  spent = is_spent utxo tr.hash tr.n;
}

-- Whether there is a database, and which of the calls for each table work.
module _ (has_db : Bool) (works : TableName → ℕ → Bool) where
  unfoldable pub write_block : Table BlockRow → Msg BlockRec → Table BlockRow
  write_block t (row br) = exec has_db (works blocks) t (block_row br)
  write_block t (commit_signal s) = begin has_db (works blocks) (commit has_db (works blocks) 0 t).1

  unfoldable pub write_tx : TxTables → Msg TxRec → TxTables
  write_tx t (row tr) = record {
    txs = if tr.dupe then t.txs else exec has_db (works txs) t.txs (tx_row tr);
    block_txs = exec has_db (works block_txs) t.block_txs (block_tx_row tr);
  }
  write_tx t (commit_signal s) = record {
    txs = begin has_db (works txs) (commit has_db (works txs) 0 t.txs).1;
    block_txs = begin has_db (works block_txs) (commit has_db (works block_txs) 0 t.block_txs).1;
  }

  unfoldable pub write_tx_out :
      Option (Uint256 → ℕ → Result Bool) → Table TxOutRow → Msg TxOutRec → Table TxOutRow
  write_tx_out utxo t (row tr) = exec has_db (works txouts) t (tx_out_row utxo tr)
  write_tx_out utxo t (commit_signal s) =
      begin has_db (works txouts) (commit has_db (works txouts) 0 t).1

  -- `commit(stmt, txn, misses)`, whether or not another transaction is begun behind it.
  unfoldable pub commit_tx_ins : TxInTables → TxInTables
  commit_tx_ins t =
      let (worked, txins') = commit has_db (works txins) (miss_calls t.misses) t.txins in
      record t {
        txins = txins';
        misses = [];
        fixed = if worked then t.fixed ++ t.misses else t.fixed;
      }

  -- `nil_witness` tells whether the slice of the witness is nil, which a list does not show.
  module _ (first_import : Bool) (nil_witness : TxIn → Bool) where
    unfoldable pub witness_column : TxIn → Option Bytes
    witness_column t = if nil_witness t then none else some (Witness.bin_write t.witness)

    -- The id of the transaction that is spent, and the cache behind the lookup; a coinbase has none.
    unfoldable pub lookup_prevout : TxIdCache → TxIn → TxIdCache × Option ℕ
    lookup_prevout cache t =
        if not (t.prev_out.n == coinbase_index) then check cache t.prev_out.hash else (cache, none)

    -- What is done about an id that is not cached. Without a database the call is on a nil pointer.
    unfoldable pub note_miss : TxInTables → TxInRec → Option ℕ → Result TxInTables
    note_miss t tr (some id) = ok t
    note_miss t tr none =
        let miss : PrevoutMiss = record {
          tx_id = tr.tx_id;
          n = tr.n;
          prev_out_hash = tr.tx_in.prev_out.hash;
        } in
        let written =
          if works prevout_miss t.direct_calls then t.direct ++ miss ∷ [] else t.direct in
        if not (tr.tx_in.prev_out.n == coinbase_index)
        then (if first_import
            then (if has_db
                then ok (record t { direct = written; direct_calls = suc t.direct_calls })
                else err nil_pointer)
            else ok (record t { misses = t.misses ++ miss ∷ [] }))
        else ok t

    unfoldable pub tx_in_row : TxInRec → Option ℕ → TxInRow
    tx_in_row tr prevout = record {
      tx_id = tr.tx_id;
      n = tr.n;
      prevout_tx_id = prevout;
      prevout_n = int32 tr.tx_in.prev_out.n;
      scriptsig = tr.tx_in.script_sig;
      sequence = int32 tr.tx_in.sequence;
      witness = witness_column tr.tx_in;
    }

    unfoldable pub write_tx_in :
        TxIdCache → TxInTables → Msg TxInRec → Result (TxIdCache × TxInTables)
    write_tx_in cache t (row tr) =
        let (cache', prevout) = lookup_prevout cache tr.tx_in in
        elim (note_miss t tr prevout) [
          | err e ↦ err e
          | ok t' ↦ ok (
            cache',
            record t' { txins = exec has_db (works txins) t'.txins (tx_in_row tr prevout) },
          )
        ]
    write_tx_in cache t (commit_signal s) =
        let t' = commit_tx_ins t in
        ok (cache, record t' { txins = begin has_db (works txins) t'.txins })

  -- The loops over the channels, each with the first `begin` and the last `commit`.
  unfoldable pub block_loop : Table BlockRow → List (Msg BlockRec) → Table BlockRow
  block_loop t [] = (commit has_db (works blocks) 0 t).1
  block_loop t (m ∷ ms) = block_loop (write_block t m) ms

  unfoldable pub block_writer : List (Msg BlockRec) → Table BlockRow
  block_writer ms = block_loop (begin has_db (works blocks) no_table) ms

  unfoldable pub tx_loop : TxTables → List (Msg TxRec) → TxTables
  tx_loop t [] = record {
    txs = (commit has_db (works txs) 0 t.txs).1;
    block_txs = (commit has_db (works block_txs) 0 t.block_txs).1;
  }
  tx_loop t (m ∷ ms) = tx_loop (write_tx t m) ms

  unfoldable pub tx_writer : List (Msg TxRec) → TxTables
  tx_writer ms =
      tx_loop
        (record {
          txs = begin has_db (works txs) no_table;
          block_txs = begin has_db (works block_txs) no_table;
        })
        ms

  unfoldable pub tx_out_loop :
      Option (Uint256 → ℕ → Result Bool) → Table TxOutRow → List (Msg TxOutRec) → Table TxOutRow
  tx_out_loop utxo t [] = (commit has_db (works txouts) 0 t).1
  tx_out_loop utxo t (m ∷ ms) = tx_out_loop utxo (write_tx_out utxo t m) ms

  unfoldable pub tx_out_writer :
      Option (Uint256 → ℕ → Result Bool) → List (Msg TxOutRec) → Table TxOutRow
  tx_out_writer utxo ms = tx_out_loop utxo (begin has_db (works txouts) no_table) ms

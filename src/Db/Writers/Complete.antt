-- ===== src/Db/Writers/Complete.antt =====
-- With a database that works, the writers leave a row for every record, wherever the commits fall.
use blkchain.Prelude.{
  ℕ, ◌≡◌, refl, ◌∙◌, Bool, true, Option, List, [], ◌∷◌, ◌++◌, map, if◌then◌else◌, Bool-cases, inl,
  inr,
}
use blkchain.Io.{Result}
use blkchain.Uint256.{Uint256}
use blkchain.Db.{
  BlockRec, TxRec, TxOutRec, Msg, row, commit_signal, BlockRow, TxRow, BlockTxRow, TxOutRow,
}
use blkchain.Db.Table.{Table, begin, exec}
use blkchain.Db.Table.Works
use blkchain.Db.Table.Works.{renew}
use blkchain.Db.Writers.{
  TableName, blocks, txs, block_txs, txouts, no_table, TxTables, block_row, tx_row, block_tx_row,
  tx_out_row, write_block, write_tx, write_tx_out, block_loop, block_writer, tx_loop, tx_writer,
  tx_out_loop, tx_out_writer,
}

module _ {A : Type 0} where
  -- The records among the messages.
  unfoldable pub rows : List (Msg A) → List A
  rows [] = []
  rows (row a ∷ ms) = a ∷ rows ms
  rows (commit_signal s ∷ ms) = rows ms

-- The records of transactions that are not known yet.
unfoldable pub fresh : List TxRec → List TxRec
fresh [] = []
fresh (tr ∷ trs) = let rest = fresh trs in if tr.dupe then rest else tr ∷ rest

module _ (works : TableName → ℕ → Bool) (w : (name : TableName) (n : ℕ) → works name n ≡ true) where
  block_loop-all :
      (t : Table BlockRow) (ms : List (Msg BlockRec))
      → t.open_stmt ≡ true
      → (block_loop true works t ms).committed
        ≡ t.committed ++ (t.pending ++ map block_row (rows ms))
  unfolding block_loop write_block rows
  block_loop-all t [] h = Works.total-commit (works blocks) (w blocks) t 0 h
  block_loop-all t (row br ∷ ms) h =
      block_loop-all (exec true (works blocks) t (block_row br)) ms
        (Works.exec-open (works blocks) (w blocks) t (block_row br) ∙ h)
      ∙ Works.total-exec (works blocks) (w blocks) t (block_row br) (map block_row (rows ms)) h
  block_loop-all t (commit_signal s ∷ ms) h =
      block_loop-all (renew (works blocks) 0 t) ms (Works.renew-open (works blocks) (w blocks) t 0)
      ∙ Works.total-renew (works blocks) (w blocks) t 0 (map block_row (rows ms)) h

  tx_loop-block_txs :
      (t : TxTables) (ms : List (Msg TxRec))
      → t.block_txs.open_stmt ≡ true
      → (tx_loop true works t ms).block_txs.committed
        ≡ t.block_txs.committed ++ (t.block_txs.pending ++ map block_tx_row (rows ms))
  unfolding tx_loop write_tx rows
  tx_loop-block_txs t [] h = Works.total-commit (works block_txs) (w block_txs) t.block_txs 0 h
  tx_loop-block_txs t (row tr ∷ ms) h =
      tx_loop-block_txs (write_tx true works t (row tr)) ms
        (Works.exec-open (works block_txs) (w block_txs) t.block_txs (block_tx_row tr) ∙ h)
      ∙ Works.total-exec (works block_txs) (w block_txs) t.block_txs (block_tx_row tr)
          (map block_tx_row (rows ms)) h
  tx_loop-block_txs t (commit_signal s ∷ ms) h =
      tx_loop-block_txs (write_tx true works t (commit_signal s)) ms
        (Works.renew-open (works block_txs) (w block_txs) t.block_txs 0)
      ∙ Works.total-renew (works block_txs) (w block_txs) t.block_txs 0 (map block_tx_row (rows ms))
          h

  -- The rows of one transaction in the table of transactions, with those of `l` behind.
  total-tx :
      (t : Table TxRow) (tr : TxRec) (l : List TxRec) (t' : Table TxRow)
      → t' ≡ (if tr.dupe then t else exec true (works txs) t (tx_row tr))
      → t.open_stmt ≡ true
      → (t'.open_stmt ≡ true)
        × (t'.committed ++ (t'.pending ++ map tx_row l)
            ≡ t.committed ++ (t.pending ++ map tx_row (if tr.dupe then l else tr ∷ l)))
  unfolding tx_row
  total-tx t tr l t' e h = elim (Bool-cases tr.dupe) [
    | inl d ↦ let e' : t' ≡ t = e ∙ rw (d) refl in (rw (e') h, rw (e', d) refl)
    | inr d ↦
        let e' : t' ≡ exec true (works txs) t (tx_row tr) = e ∙ rw (d) refl in
        (
          rw (e') (Works.exec-open (works txs) (w txs) t (tx_row tr) ∙ h),
          rw (e', d) (Works.total-exec (works txs) (w txs) t (tx_row tr) (map tx_row l) h),
        )
  ]

  tx_loop-txs :
      (t : TxTables) (ms : List (Msg TxRec))
      → t.txs.open_stmt ≡ true
      → (tx_loop true works t ms).txs.committed
        ≡ t.txs.committed ++ (t.txs.pending ++ map tx_row (fresh (rows ms)))
  unfolding tx_loop write_tx rows fresh
  tx_loop-txs t [] h = Works.total-commit (works txs) (w txs) t.txs 0 h
  tx_loop-txs t (row tr ∷ ms) h =
      let (o, e) =
        total-tx t.txs tr (fresh (rows ms)) (write_tx true works t (row tr)).txs refl h in
      tx_loop-txs (write_tx true works t (row tr)) ms o ∙ e
  tx_loop-txs t (commit_signal s ∷ ms) h =
      tx_loop-txs (write_tx true works t (commit_signal s)) ms
        (Works.renew-open (works txs) (w txs) t.txs 0)
      ∙ Works.total-renew (works txs) (w txs) t.txs 0 (map tx_row (fresh (rows ms))) h

  tx_out_loop-all :
      (utxo : Option (Uint256 → ℕ → Result Bool)) (t : Table TxOutRow) (ms : List (Msg TxOutRec))
      → t.open_stmt ≡ true
      → (tx_out_loop true works utxo t ms).committed
        ≡ t.committed ++ (t.pending ++ map (tx_out_row utxo) (rows ms))
  unfolding tx_out_loop write_tx_out rows
  tx_out_loop-all utxo t [] h = Works.total-commit (works txouts) (w txouts) t 0 h
  tx_out_loop-all utxo t (row tr ∷ ms) h =
      tx_out_loop-all utxo (exec true (works txouts) t (tx_out_row utxo tr)) ms
        (Works.exec-open (works txouts) (w txouts) t (tx_out_row utxo tr) ∙ h)
      ∙ Works.total-exec (works txouts) (w txouts) t (tx_out_row utxo tr)
          (map (tx_out_row utxo) (rows ms)) h
  tx_out_loop-all utxo t (commit_signal s ∷ ms) h =
      tx_out_loop-all utxo (renew (works txouts) 0 t) ms
        (Works.renew-open (works txouts) (w txouts) t 0)
      ∙ Works.total-renew (works txouts) (w txouts) t 0 (map (tx_out_row utxo) (rows ms)) h

  opened :
      (name : TableName) (R : Type 0)
      → (begin true (works name) (no_table {R = R})).open_stmt ≡ true
  opened name R = Works.begin-open (works name) (w name) no_table

  -- With a database whose calls all work, the writers of blocks, transactions and outputs leave,
  -- when their channels are closed, the row of every record in its order, wherever the signals to
  -- commit fall; a transaction that is known has no row of its own, and has one as a part of its
  -- block.
  pub writers_complete :
      (utxo : Option (Uint256 → ℕ → Result Bool)) (bs : List (Msg BlockRec)) (ts : List (Msg TxRec))
      (os : List (Msg TxOutRec))
      → ((block_writer true works bs).committed ≡ map block_row (rows bs))
        × ((tx_writer true works ts).txs.committed ≡ map tx_row (fresh (rows ts)))
        × ((tx_writer true works ts).block_txs.committed ≡ map block_tx_row (rows ts))
        × ((tx_out_writer true works utxo os).committed ≡ map (tx_out_row utxo) (rows os))
  unfolding block_writer tx_writer tx_out_writer begin
  writers_complete utxo bs ts os = (
    block_loop-all (begin true (works blocks) no_table) bs (opened blocks BlockRow),
    tx_loop-txs
        (record {
          txs = begin true (works txs) no_table;
          block_txs = begin true (works block_txs) no_table;
        })
        ts (opened txs TxRow),
    tx_loop-block_txs
        (record {
          txs = begin true (works txs) no_table;
          block_txs = begin true (works block_txs) no_table;
        })
        ts (opened block_txs BlockTxRow),
    tx_out_loop-all utxo (begin true (works txouts) no_table) os (opened txouts TxOutRow),
  )

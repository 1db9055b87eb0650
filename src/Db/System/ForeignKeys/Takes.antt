-- ===== src/Db/System/ForeignKeys/Takes.antt =====
-- The writers of db/postgres.go with a database that works, as what they do to the keys of their tables.
use blkchain.Prelude.{
  ℕ, ◌≡◌, refl, sym, ap, ◌∙◌, Bool, true, false, Option, none, some, List, [], ◌∷◌, append-nil, map,
  map-append, if◌then◌else◌, Bool-cases, inl, inr,
}
use blkchain.Io.{Result, ok, err}
use blkchain.Uint256.{Uint256}
use blkchain.TxIn.{TxIn}
use blkchain.TxIdCache.{TxIdCache}
use blkchain.Db.{BlockRec, TxRec, TxInRec, TxOutRec, Msg, row, commit_signal, BlockRow, TxOutRow}
use blkchain.Db.Table.{Table, exec, commit}
use blkchain.Db.Table.Works
use blkchain.Db.Table.Works.{renew}
use blkchain.Db.Writers.{
  TableName, blocks, txs, block_txs, txins, txouts, TxTables, TxInTables, block_row, tx_row,
  block_tx_row, tx_in_row, tx_out_row, write_block, write_tx, write_tx_in, write_tx_out,
  commit_tx_ins, note_miss, miss_calls, lookup_prevout,
}
use blkchain.Db.System.ForeignKeys.{Keys, keyed}
use blkchain.Db.System.ForeignKeys.Link.{Taken}
use blkchain.Db.System.ForeignKeys.Sides.{
  block_keys, block_refs, tx_keys, in_refs, out_refs, table_side,
}

module _ {R A : Type 0} (key : R → ℕ) (f : A → Keys) (works : ℕ → Bool)
    (w : (n : ℕ) → works n ≡ true) (t : Table R) (h : t.open_stmt ≡ true)
    (q q' : List (Msg A)) where
  pub exec-Taken :
      (r : R)
      → Taken (row (key r ∷ [])) (table_side key f t q) (table_side key f (exec true works t r) q')
  exec-Taken r = (
    ap (map key) (Works.exec-committed works w t r),
    ap (map key) (Works.exec-pending works w t r h) ∙ map-append key t.pending (r ∷ []),
  )

  pub renew-Taken :
      (extra : ℕ) (s : Bool)
      → Taken (commit_signal s) (table_side key f t q) (table_side key f (renew works extra t) q')
  renew-Taken extra s = (
    ap (map key) (Works.renew-committed works w t extra h) ∙ map-append key t.committed t.pending,
    ap (map key) (Works.renew-pending works w t extra),
  )

  pub commit-Taken :
      (extra : ℕ) (s : Bool)
      → Taken
          (commit_signal s)
          (table_side key f t q)
          (table_side key f (commit true works extra t).1 q')
  commit-Taken extra s = (
    ap (map key) (Works.commit-committed works w t extra h) ∙ map-append key t.committed t.pending,
    ap (map key) (Works.commit-pending works w t extra h),
  )

module _ (works : TableName → ℕ → Bool) (w : (name : TableName) (n : ℕ) → works name n ≡ true) where
  module _ (t : Table BlockRow) (h : t.open_stmt ≡ true) where
    pub write_block-Taken :
        (m : Msg BlockRec) (q q' : List (Msg BlockRec))
        → Taken
            (keyed block_keys m)
            (table_side (λ r. r.id) block_keys t q)
            (table_side (λ r. r.id) block_keys (write_block true works t m) q')
    unfolding write_block block_row
    write_block-Taken (row br) q q' =
        exec-Taken (λ r. r.id) block_keys (works blocks) (w blocks) t h q q' (block_row br)
    write_block-Taken (commit_signal s) q q' =
        renew-Taken (λ r. r.id) block_keys (works blocks) (w blocks) t h q q' 0 s

    pub write_block-open : (m : Msg BlockRec) → (write_block true works t m).open_stmt ≡ true
    unfolding write_block
    write_block-open (row br) = Works.exec-open (works blocks) (w blocks) t (block_row br) ∙ h
    write_block-open (commit_signal s) = Works.renew-open (works blocks) (w blocks) t 0

  module _ (t : TxTables) (h : t.block_txs.open_stmt ≡ true) where
    pub write_tx-block_txs :
        (m : Msg TxRec) (q q' : List (Msg TxRec))
        → Taken
            (keyed block_refs m)
            (table_side (λ r. r.block_id) block_refs t.block_txs q)
            (table_side (λ r. r.block_id) block_refs (write_tx true works t m).block_txs q')
    unfolding write_tx block_tx_row
    write_tx-block_txs (row tr) q q' =
        exec-Taken (λ r. r.block_id) block_refs (works block_txs) (w block_txs) t.block_txs h q q'
          (block_tx_row tr)
    write_tx-block_txs (commit_signal s) q q' =
        renew-Taken (λ r. r.block_id) block_refs (works block_txs) (w block_txs) t.block_txs h q q'
          0 s

    pub write_tx-block_txs_open :
        (m : Msg TxRec) → (write_tx true works t m).block_txs.open_stmt ≡ true
    unfolding write_tx
    write_tx-block_txs_open (row tr) =
        Works.exec-open (works block_txs) (w block_txs) t.block_txs (block_tx_row tr) ∙ h
    write_tx-block_txs_open (commit_signal s) =
        Works.renew-open (works block_txs) (w block_txs) t.block_txs 0

  module _ (t : TxTables) (h : t.txs.open_stmt ≡ true) where
    tx_row-Taken :
        (tr : TxRec) (dupe : Bool) (q q' : List (Msg TxRec))
        → Taken (row (if dupe then [] else tr.id ∷ [])) (table_side (λ r. r.id) tx_keys t.txs q) (
            table_side
              (λ r. r.id)
              tx_keys
              (if dupe then t.txs else exec true (works txs) t.txs (tx_row tr))
              q')
    unfolding tx_row
    tx_row-Taken tr true q q' = (refl, sym (append-nil _))
    tx_row-Taken tr false q q' =
        exec-Taken (λ r. r.id) tx_keys (works txs) (w txs) t.txs h q q' (tx_row tr)

    pub write_tx-txs :
        (m : Msg TxRec) (q q' : List (Msg TxRec))
        → Taken
            (keyed tx_keys m)
            (table_side (λ r. r.id) tx_keys t.txs q)
            (table_side (λ r. r.id) tx_keys (write_tx true works t m).txs q')
    unfolding write_tx
    write_tx-txs (row tr) q q' = tx_row-Taken tr tr.dupe q q'
    write_tx-txs (commit_signal s) q q' =
        renew-Taken (λ r. r.id) tx_keys (works txs) (w txs) t.txs h q q' 0 s

    pub write_tx-txs_open : (m : Msg TxRec) → (write_tx true works t m).txs.open_stmt ≡ true
    unfolding write_tx tx_row
    write_tx-txs_open (row tr) = elim (Bool-cases tr.dupe) [
      | inl d ↦ rw (d) h
      | inr d ↦ rw (d) (Works.exec-open (works txs) (w txs) t.txs (tx_row tr) ∙ h)
    ]
    write_tx-txs_open (commit_signal s) = Works.renew-open (works txs) (w txs) t.txs 0

  module _ (utxo : Option (Uint256 → ℕ → Result Bool)) (t : Table TxOutRow)
      (h : t.open_stmt ≡ true) where
    pub write_tx_out-Taken :
        (m : Msg TxOutRec) (q q' : List (Msg TxOutRec))
        → Taken
            (keyed out_refs m)
            (table_side (λ r. r.tx_id) out_refs t q)
            (table_side (λ r. r.tx_id) out_refs (write_tx_out true works utxo t m) q')
    unfolding write_tx_out tx_out_row
    write_tx_out-Taken (row tr) q q' =
        exec-Taken (λ r. r.tx_id) out_refs (works txouts) (w txouts) t h q q' (tx_out_row utxo tr)
    write_tx_out-Taken (commit_signal s) q q' =
        renew-Taken (λ r. r.tx_id) out_refs (works txouts) (w txouts) t h q q' 0 s

    pub write_tx_out-open : (m : Msg TxOutRec) → (write_tx_out true works utxo t m).open_stmt ≡ true
    unfolding write_tx_out
    write_tx_out-open (row tr) =
        Works.exec-open (works txouts) (w txouts) t (tx_out_row utxo tr) ∙ h
    write_tx_out-open (commit_signal s) = Works.renew-open (works txouts) (w txouts) t 0

  module _ (nil_witness : TxIn → Bool) (cache : TxIdCache) (t : TxInTables)
      (h : t.txins.open_stmt ≡ true) where
    abbrev pub TakesIn :
        Msg TxInRec
        → List (Msg TxInRec)
        → List (Msg TxInRec)
        → Result (TxIdCache × TxInTables)
        → Type 0
    TakesIn m q q' (err e) = Unit
    TakesIn m q q' (ok (c, u)) =
        (u.txins.open_stmt ≡ true)
        × Taken (keyed in_refs m) (table_side (λ r. r.tx_id) in_refs t.txins q)
            (table_side (λ r. r.tx_id) in_refs u.txins q')

    abbrev KeepsIns : Result TxInTables → Type 0
    KeepsIns (err e) = Unit
    KeepsIns (ok u) = u.txins ≡ t.txins

    KeepsIns-if :
        (c : Bool) (u v : TxInTables)
        → KeepsIns (ok u)
        → KeepsIns (ok v)
        → KeepsIns (if c then ok u else ok v)
    KeepsIns-if true u v h k = h
    KeepsIns-if false u v h k = k

    note_miss-KeepsIns :
        (tr : TxInRec) (o : Option ℕ) → KeepsIns (note_miss true works false nil_witness t tr o)
    unfolding note_miss
    note_miss-KeepsIns tr (some id) = refl
    note_miss-KeepsIns tr none = KeepsIns-if _ _ _ refl refl

    noted-TakesIn :
        (tr : TxInRec) (c : TxIdCache) (o : Option ℕ) (q q' : List (Msg TxInRec))
        (r : Result TxInTables)
        → KeepsIns r
        → TakesIn (row tr) q q' (elim r [
          | err e ↦ err e
          | ok u ↦ ok (
            c,
            record u {
              txins = exec true (works txins) u.txins (tx_in_row true works false nil_witness tr o);
            },
          )
        ])
    unfolding tx_in_row
    noted-TakesIn tr c o q q' (err e) k = tt
    noted-TakesIn tr c o q q' (ok u) k =
        let r = tx_in_row true works false nil_witness tr o in
        (
          rw (k) (Works.exec-open (works txins) (w txins) t.txins r ∙ h),
          rw (k) (exec-Taken (λ r. r.tx_id) in_refs (works txins) (w txins) t.txins h q q' r),
        )

    pub write_tx_in-TakesIn :
        (m : Msg TxInRec) (q q' : List (Msg TxInRec))
        → TakesIn m q q' (write_tx_in true works false nil_witness cache t m)
    unfolding write_tx_in note_miss commit_tx_ins tx_in_row
    write_tx_in-TakesIn (row tr) q q' =
        let (c, o) = lookup_prevout true works false nil_witness cache tr.tx_in in
        noted-TakesIn tr c o q q' (note_miss true works false nil_witness t tr o)
          (note_miss-KeepsIns tr o)
    write_tx_in-TakesIn (commit_signal s) q q' = (
      Works.renew-open (works txins) (w txins) t.txins (miss_calls t.misses),
      renew-Taken (λ r. r.tx_id) in_refs (works txins) (w txins) t.txins h q q'
          (miss_calls t.misses) s,
    )

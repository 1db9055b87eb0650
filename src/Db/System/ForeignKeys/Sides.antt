-- ===== src/Db/System/ForeignKeys/Sides.antt =====
-- The tables of db/postgres.go with their channels, as keys.
use blkchain.Prelude.{ℕ, ◌≡◌, true, List, [], ◌∷◌, map, if◌then◌else◌}
use blkchain.Db.{BlockRec, TxRec, TxInRec, TxOutRec, Msg}
use blkchain.Db.Table.{Table}
use blkchain.Db.System.{Stages, Tables}
use blkchain.Db.System.ForeignKeys.{Keys, keyed}
use blkchain.Db.System.ForeignKeys.Link.{Side}

abbrev pub block_keys : BlockRec → Keys
block_keys br = br.id ∷ []

abbrev pub block_refs : TxRec → Keys
block_refs tr = tr.block_id ∷ []

-- A transaction that is known has no row of its own.
abbrev pub tx_keys : TxRec → Keys
tx_keys tr = if tr.dupe then [] else tr.id ∷ []

abbrev pub in_refs : TxInRec → Keys
in_refs tr = tr.tx_id ∷ []

abbrev pub out_refs : TxOutRec → Keys
out_refs tr = tr.tx_id ∷ []

abbrev pub table_side : {R A : Type 0} → (R → ℕ) → (A → Keys) → Table R → List (Msg A) → Side
table_side key f t q = record {
  committed = map key t.committed;
  pending = map key t.pending;
  queue = map (keyed f) q;
}

abbrev pub blocks_side : Tables → Stages → Side
blocks_side t ss = table_side (λ r. r.id) block_keys t.t_blocks ss.s_block.queue

abbrev pub block_txs_side : Tables → Stages → Side
block_txs_side t ss = table_side (λ r. r.block_id) block_refs t.t_txs.block_txs ss.s_tx.queue

abbrev pub txs_side : Tables → Stages → Side
txs_side t ss = table_side (λ r. r.id) tx_keys t.t_txs.txs ss.s_tx.queue

abbrev pub tx_ins_side : Tables → Stages → Side
tx_ins_side t ss = table_side (λ r. r.tx_id) in_refs t.t_tx_ins.txins ss.s_tx_in.queue

abbrev pub tx_outs_side : Tables → Stages → Side
tx_outs_side t ss = table_side (λ r. r.tx_id) out_refs t.t_tx_outs ss.s_tx_out.queue

-- A transaction of the database is open for each table.
pub record IsOpen (t : Tables) : Type 0 where
  pub o_blocks : t.t_blocks.open_stmt ≡ true
  pub o_txs : t.t_txs.txs.open_stmt ≡ true
  pub o_block_txs : t.t_txs.block_txs.open_stmt ≡ true
  pub o_tx_ins : t.t_tx_ins.txins.open_stmt ≡ true
  pub o_tx_outs : t.t_tx_outs.open_stmt ≡ true

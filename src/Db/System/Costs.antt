-- ===== src/Db/System/Costs.antt =====
-- How many steps the goroutines of db/postgres.go can take at most for what they have to do.
use blkchain.Prelude.{
  ℕ, suc, ◌+◌, ◌*◌, ◌%◌, ◌≤◌, ◌<◌, ◌≡◌, refl, Bool, true, false, not, Option, none, some, List, [],
  ◌∷◌, ◌++◌, length, length-append, ◌==◌, if◌then◌else◌, Bool-cases, inl, inr, arith,
}
use blkchain.Io.{Bytes}
use blkchain.Uint256.{Uint256}
use blkchain.KeyMap.{KeyMap}
use blkchain.Tx
use blkchain.Tx.{Tx}
use blkchain.TxIn.{TxIn}
use blkchain.TxOut.{TxOut}
use blkchain.TxIdCache
use blkchain.TxIdCache.{TxIdCache}
use blkchain.Db.{BlockRecSync, Msg}
use blkchain.Db.Worker.{
  Channel, block_ch, tx_ch, tx_in_ch, tx_out_ch, Carried, Action, send, await, reply, do_tx,
  Heights, height_of, tx_actions, in_actions, out_actions, commit_actions, first_import_actions,
  end_actions, connected_actions, block_actions, transaction,
}
use blkchain.Db.System.{Stage, Stages, stage, set_stage, State}
use blkchain.Db.System.Debts.{bit}

abbrev pub rows_of : Tx → ℕ
rows_of tx = length tx.tx_ins + length tx.tx_outs

abbrev pub cost : Action → ℕ
cost (send c m) = 3
cost await = 1
cost (reply r) = 1
cost (do_tx b n tx) = 4 + 3 * rows_of tx

unfoldable pub costs : List Action → ℕ
costs [] = 0
costs (a ∷ rest) = cost a + costs rest

unfoldable pub txs_cost : List Tx → ℕ
txs_cost [] = 0
txs_cost (tx ∷ txs) = (4 + 3 * rows_of tx) + txs_cost txs

unfoldable pub input_cost : List BlockRecSync → ℕ
input_cost [] = 0
input_cost (b ∷ bs) = (21 + txs_cost b.rec.block.txs) + input_cost bs

abbrev pub stage_cost : {A : Type 0} → Stage A → ℕ
stage_cost st = 2 * length st.queue + bit st.answering + bit (not st.returned)

unfoldable pub stages_cost : Stages → ℕ
stages_cost ss =
    stage_cost ss.s_block + stage_cost ss.s_tx + stage_cost ss.s_tx_in + stage_cost ss.s_tx_out

-- The bound: what is left of the blocks, the actions, the messages and the returns.
unfoldable pub steps_left : State → ℕ
steps_left s = input_cost s.input + costs s.todo + stages_cost s.stages + bit (not s.closed)

pub stages_cost-set_stage :
    (c : Channel) (st : Stage (Carried c)) (ss : Stages)
    → stages_cost (set_stage c st ss) + stage_cost (stage c ss) ≡ stages_cost ss + stage_cost st
unfolding stages_cost
stages_cost-set_stage block_ch st ss = omega arith
stages_cost-set_stage tx_ch st ss = omega arith
stages_cost-set_stage tx_in_ch st ss = omega arith
stages_cost-set_stage tx_out_ch st ss = omega arith

pub costs-append : (xs ys : List Action) → costs (xs ++ ys) ≡ costs xs + costs ys
unfolding costs
costs-append [] ys = omega arith
costs-append (a ∷ xs) ys = omega (arith, costs-append xs ys)

costs-tx_actions : (b n : ℕ) (txs : List Tx) → costs (tx_actions b n txs) ≡ txs_cost txs
unfolding costs tx_actions txs_cost
costs-tx_actions b n [] = refl
costs-tx_actions b n (tx ∷ txs) = omega (arith, costs-tx_actions b (suc n) txs)

costs-in_actions : (id n : ℕ) (ts : List TxIn) → costs (in_actions id n ts) ≡ 3 * length ts
unfolding costs in_actions
costs-in_actions id n [] = refl
costs-in_actions id n (t ∷ ts) = omega (arith, costs-in_actions id (suc n) ts)

costs-out_actions :
    (id : ℕ) (hash : Uint256) (n : ℕ) (ts : List TxOut)
    → costs (out_actions id hash n ts) ≡ 3 * length ts
unfolding costs out_actions
costs-out_actions id hash n [] = refl
costs-out_actions id hash n (t ∷ ts) = omega (arith, costs-out_actions id hash (suc n) ts)

costs-end_actions :
    (first_import : Bool) (id : ℕ) (sync : Bool) → costs (end_actions first_import id sync) ≤ 17
unfolding costs end_actions commit_actions first_import_actions
costs-end_actions true id sync = elim (Bool-cases (id % 1024 == 0)) [
  | inl h ↦ rw (h) (omega arith)
  | inr h ↦ rw (h) (omega arith)
]
costs-end_actions false id true = omega arith
costs-end_actions false id false = omega arith

costs-ignored : (sync : Bool) → costs (if sync then reply false ∷ [] else []) ≤ 1
unfolding costs
costs-ignored true = omega arith
costs-ignored false = omega arith

costs-rows :
    (tx_id : ℕ) (hash : Uint256) (tx : Tx) (known : Bool)
    → costs
        (if known then [] else in_actions tx_id 0 tx.tx_ins ++ out_actions tx_id hash 0 tx.tx_outs)
      ≤ 3 * rows_of tx
unfolding costs
costs-rows tx_id hash tx true = omega arith
costs-rows tx_id hash tx false =
    let ins = in_actions tx_id 0 tx.tx_ins in
    let outs = out_actions tx_id hash 0 tx.tx_outs in
    omega (
      arith,
      costs-append ins outs,
      costs-in_actions tx_id 0 tx.tx_ins,
      costs-out_actions tx_id hash 0 tx.tx_outs,
    )

module _ (sha256 : Bytes → Bytes) where
  pub costs-block_actions :
      (first_import : Bool) (hs : Heights) (id : ℕ) (b : BlockRecSync)
      → costs (block_actions sha256 first_import hs id b) < 21 + txs_cost b.rec.block.txs
  unfolding block_actions connected_actions costs
  costs-block_actions first_import hs id b =
      elim (height_of hs b.rec)
        as (λ o.
          costs (elim o [
            | some h ↦ connected_actions sha256 first_import id b h
            | none ↦ if b.sync then reply false ∷ [] else []
          ])
          < 21 + txs_cost b.rec.block.txs) [
            | some h ↦
                let txs = tx_actions id 0 b.rec.block.txs in
                let ends = end_actions first_import id b.sync in
                omega (
                  arith,
                  costs-append txs ends,
                  costs-tx_actions id 0 b.rec.block.txs,
                  costs-end_actions first_import id b.sync,
                )
            | none ↦ let c = costs-ignored b.sync in omega arith
          ]

  pub costs-transaction :
      (first : KeyMap ℕ → Option Bytes) (cache : TxIdCache) (tx_id b n : ℕ) (tx : Tx)
      → costs (transaction sha256 first cache tx_id b n tx).1 < 4 + 3 * rows_of tx
  unfolding transaction costs
  costs-transaction first cache tx_id b n tx =
      let recent = (TxIdCache.add first cache (Tx.hash sha256 tx) tx_id (length tx.tx_outs)).1 in
      let c = costs-rows tx_id (Tx.hash sha256 tx) tx (not (recent == tx_id)) in omega arith

-- The cost behind a change of one stage.
pub stages_cost-eq :
    (c : Channel) (st : Stage (Carried c)) (ss : Stages) (d : ℕ)
    → stage_cost st + d ≡ stage_cost (stage c ss)
    → stages_cost (set_stage c st ss) + d ≡ stages_cost ss
stages_cost-eq c st ss d e = omega (arith, e, stages_cost-set_stage c st ss)

pub stage_cost-send :
    {A : Type 0} (st : Stage A) (m : Msg A)
    → stage_cost (record st { queue = st.queue ++ m ∷ [] }) ≡ stage_cost st + 2
stage_cost-send st m = omega (arith, length-append st.queue (m ∷ []))

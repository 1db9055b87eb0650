-- ===== src/Db/System/Bounded.antt =====
-- The goroutines of db/postgres.go come to an end: a bound on the steps from any state.
use blkchain.Db.System.Ends.{Ends, Ends-if, Ends-unless, Ends-else}
use blkchain.Prelude.{
  ℕ, ◌+◌, ◌*◌, ◌%◌, ◌^◌, ◌≤◌, ◌<◌, ◌≡◌, refl, subst, Bool, true, false, not, ◌||◌, Option, none,
  some, List, [], ◌∷◌, ◌++◌, length, ltb, arith,
}
use blkchain.Io.{ok, err}
use blkchain.Db.{BlockRecSync, Msg}
use blkchain.Db.Worker.{Channel, Carried, Action, send, await, reply, do_tx, Heights, transaction}
use blkchain.Db.System.{
  Config, Stage, stage, set_stage, capacity, asks, State, Turn, worker, writer, answer, receive,
  next_block, act, work, hear, write, step, Run, stop, later,
}
use blkchain.Db.System.Debts.{bit}
use blkchain.Db.System.Costs.{
  steps_left, costs, input_cost, stage_cost, stages_cost-set_stage, costs-append,
  costs-block_actions, costs-transaction, stages_cost-eq, stage_cost-send,
}

abbrev Below : ℕ → State → Type 0
Below n t = steps_left t < n

abbrev Drops : ℕ → Option State → Type 0
Drops n o = Ends (Below n) o

bit-le : (b : Bool) → bit b ≤ 1
bit-le true = omega arith
bit-le false = omega arith

write-cost :
    {A : Type 0} (st : Stage A) (m : Msg A) (ms : List (Msg A))
    → st.queue ≡ m ∷ ms
    → st.answering ≡ false
    → stage_cost st ≡ 2 * length ms + 2 + bit (not st.returned)
write-cost st m ms e h = rw (e, h) (omega arith)

module _ (cfg : Config) (s : State) where
  next_block-Drops :
      (hs : Heights) (bs : List BlockRecSync)
      → s.todo ≡ []
      → s.input ≡ bs
      → Drops (steps_left s) (next_block cfg hs bs s)
  unfolding next_block steps_left costs input_cost
  next_block-Drops hs [] e f =
      Ends-unless (Below (steps_left s)) s.closed (record s { closed = true })
        (λ h. rw (h) (omega arith))
  next_block-Drops hs (b ∷ bs) e f =
      let id = (s.block_id + 1) % 2 ^ 64 in
      let l = costs-block_actions cfg.sha256 cfg.first_import hs id b in rw (e, f) (omega arith)

  act-Drops :
      (a : Action) (rest : List Action)
      → s.todo ≡ a ∷ rest
      → Drops (steps_left s) (act cfg a rest s)
  unfolding act steps_left costs
  act-Drops (send c m) rest e =
      let st = stage c s.stages in
      Ends-if (Below (steps_left s)) (ltb (length st.queue) (capacity c)) _ (λ h. rw (e) (
        omega (
          arith,
          stages_cost-set_stage c (record st { queue = st.queue ++ m ∷ [] }) s.stages,
          stage_cost-send st m,
        )))
  act-Drops await rest e = tt
  act-Drops (reply r) rest e = rw (e) (omega arith)
  act-Drops (do_tx b n tx) rest e =
      let id = (s.tx_id + 1) % 2 ^ 64 in
      let actions = (transaction cfg.sha256 cfg.first s.tables.cache id b n tx).1 in
      rw (e) (
        omega (
          arith,
          costs-append actions rest,
          costs-transaction cfg.sha256 cfg.first s.tables.cache id b n tx,
        ))

  hear-Drops :
      (c : Channel) (todo : List Action) → s.todo ≡ todo → Drops (steps_left s) (hear cfg c todo s)
  unfolding hear steps_left costs
  hear-Drops c [] e = tt
  hear-Drops c (send d m ∷ rest) e = tt
  hear-Drops c (reply r ∷ rest) e = tt
  hear-Drops c (do_tx b n tx ∷ rest) e = tt
  hear-Drops c (await ∷ rest) e =
      let st = stage c s.stages in
      Ends-if (Below (steps_left s)) st.answering _ (λ h. rw (e) (
        omega (
          arith,
          stages_cost-eq c (record st { answering = false }) s.stages 1 (rw (h) (omega arith)),
        )))

  write-Drops :
      (c : Channel) (ms : List (Msg (Carried c)))
      → (stage c s.stages).queue ≡ ms
      → (stage c s.stages).answering ≡ false
      → (stage c s.stages).returned ≡ false
      → Drops (steps_left s) (write cfg c ms s)
  unfolding write steps_left
  write-Drops c [] e h r =
      let st = stage c s.stages in
      Ends-if (Below (steps_left s)) s.closed _ (λ closed.
        omega (
          arith,
          stages_cost-eq c (record st { returned = true }) s.stages 1 (rw (r) (omega arith)),
        ))
  write-Drops c (m ∷ ms) e h r =
      let st = stage c s.stages in
      elim (receive cfg c m s.tables)
        as (λ o. Drops (steps_left s) (elim o [
          | err e ↦ none
          | ok t ↦ some (record s {
            tables = t;
            stages = set_stage c (record st { queue = ms; answering = asks m }) s.stages;
          })
        ])) [
          | err e ↦ tt
          | ok t ↦ omega (
            arith,
            stages_cost-set_stage c (record st { queue = ms; answering = asks m }) s.stages,
            bit-le (asks m),
            write-cost st m ms e h,
          )
        ]

  work-Drops :
      (hs : Heights) (todo : List Action)
      → s.todo ≡ todo
      → Drops (steps_left s) (work cfg hs todo s)
  unfolding work
  work-Drops hs [] e = next_block-Drops hs s.input e refl
  work-Drops hs (a ∷ rest) e = act-Drops a rest e

  step-Drops : (turn : Turn) → Drops (steps_left s) (step cfg turn s)
  unfolding step
  step-Drops (worker hs) = work-Drops hs s.todo refl
  step-Drops (answer c) = hear-Drops c s.todo refl
  step-Drops (writer c) =
      let st = stage c s.stages in
      Ends-else (Below (steps_left s)) (st.answering || st.returned) _
        (λ h. write-Drops c st.queue refl (ground arith) (ground arith))

-- The block worker and the four writers can take no more steps, in any order, than a number that
-- is computed from the blocks, actions and messages that are left, and what they have taken is
-- gone from it.
pub Run-bounded :
    {cfg : Config} {n : ℕ} {s t : State} → Run cfg n s t → n + steps_left t ≤ steps_left s
Run-bounded stop = omega arith
Run-bounded {cfg} {s = s} (later turn e r) =
    let d = subst (Drops (steps_left s)) e (step-Drops cfg s turn) in
    omega (arith, d, Run-bounded r)

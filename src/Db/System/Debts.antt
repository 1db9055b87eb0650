-- ===== src/Db/System/Debts.antt =====
-- The answers that the writers of db/postgres.go owe to the worker, and when a writer has returned.
use blkchain.Prelude.{
  ℕ, ◌+◌, ◌≡◌, refl, Bool, true, false, not, ◌&&◌, ◌||◌, List, [], ◌∷◌, ◌++◌, Bool-cases, inl, inr,
  arith, suc, zero, ◌<◌, ◌⊎◌,
}
use blkchain.Db.{Msg}
use blkchain.Db.Worker.{Channel, block_ch, tx_ch, tx_in_ch, tx_out_ch, Carried}
use blkchain.Db.System.{Stage, Stages, stage, set_stage, asks}

abbrev pub bit : Bool → ℕ
bit true = 1
bit false = 0

module _ {A : Type 0} where
  unfoldable pub asked : List (Msg A) → ℕ
  asked [] = 0
  asked (m ∷ ms) = bit (asks m) + asked ms

  pub asked-append :
      (ms : List (Msg A)) (m : Msg A) → asked (ms ++ m ∷ []) ≡ asked ms + bit (asks m)
  unfolding asked
  asked-append [] m = omega arith
  asked-append (n ∷ ms) m = omega (arith, asked-append ms m)

  -- The answers that a stage still owes.
  unfoldable pub debt : Stage A → ℕ
  debt st = asked st.queue + bit st.answering

  abbrev pub is_nil : List (Msg A) → Bool
  is_nil [] = true
  is_nil (m ∷ ms) = false

  -- A writer returns only when its channel is closed and empty.
  abbrev pub quiet : Bool → Stage A → Bool
  quiet closed st = not st.returned || (closed && is_nil st.queue)

module _ {A : Type 0} (st : Stage A) where
  pub quiet-open : (closed : Bool) → closed ≡ false → quiet closed st ≡ true → st.returned ≡ false
  quiet-open true h q = absurd (cc)
  quiet-open false h q = elim (Bool-cases st.returned) [
    | inl e ↦ absurd (cc (rw (e) at q))
    | inr e ↦ e
  ]

  pub quiet-some :
      (closed : Bool) (m : Msg A) (ms : List (Msg A))
      → st.queue ≡ m ∷ ms
      → quiet closed st ≡ true
      → st.returned ≡ false
  quiet-some closed m ms e q = elim (Bool-cases st.returned) [
    | inl h ↦ absurd (ground arith)
    | inr h ↦ h
  ]

  pub returned-nil : (closed : Bool) → st.returned ≡ true → quiet closed st ≡ true → st.queue ≡ []
  returned-nil closed r q = nil_of st.queue (ground arith)
    where
      nil_of : (ms : List (Msg A)) → is_nil ms ≡ true → ms ≡ []
      nil_of [] h = refl
      nil_of (m ∷ ms) h = absurd (cc)

  pub debt-send :
      (m : Msg A) → debt (record st { queue = st.queue ++ m ∷ [] }) ≡ debt st + bit (asks m)
  unfolding debt
  debt-send m = omega (arith, asked-append st.queue m)

  pub debt-hear : st.answering ≡ true → debt (record st { answering = false }) + 1 ≡ debt st
  unfolding debt
  debt-hear h = rw (h) (omega arith)

  pub debt-write :
      (m : Msg A) (ms : List (Msg A))
      → st.queue ≡ m ∷ ms
      → st.answering ≡ false
      → debt (record st { queue = ms; answering = asks m }) ≡ debt st
  unfolding debt asked
  debt-write m ms e h = rw (e, h) (omega arith)

unfoldable pub debts : Stages → ℕ
debts ss = debt ss.s_block + debt ss.s_tx + debt ss.s_tx_in + debt ss.s_tx_out

abbrev pub all_quiet : Bool → Stages → Bool
all_quiet closed ss =
    quiet closed ss.s_block
    && quiet closed ss.s_tx
    && quiet closed ss.s_tx_in
    && quiet closed ss.s_tx_out

pub debts-set_stage :
    (c : Channel) (st : Stage (Carried c)) (ss : Stages)
    → debts (set_stage c st ss) + debt (stage c ss) ≡ debts ss + debt st
unfolding debts
debts-set_stage block_ch st ss = omega arith
debts-set_stage tx_ch st ss = omega arith
debts-set_stage tx_in_ch st ss = omega arith
debts-set_stage tx_out_ch st ss = omega arith

-- The debts behind a change of one stage.
pub debts-eq :
    (c : Channel) (st : Stage (Carried c)) (ss : Stages) (k l : ℕ)
    → debts ss ≡ k
    → debt st + k ≡ debt (stage c ss) + l
    → debts (set_stage c st ss) ≡ l
debts-eq c st ss k l h e = omega (arith, h, e, debts-set_stage c st ss)

pub quiet-stage :
    (closed : Bool) (c : Channel) (ss : Stages)
    → all_quiet closed ss ≡ true
    → quiet closed (stage c ss) ≡ true
quiet-stage closed block_ch ss h = ground arith
quiet-stage closed tx_ch ss h = ground arith
quiet-stage closed tx_in_ch ss h = ground arith
quiet-stage closed tx_out_ch ss h = ground arith

pub quiet-set_stage :
    (closed : Bool) (c : Channel) (st : Stage (Carried c)) (ss : Stages)
    → all_quiet closed ss ≡ true
    → quiet closed st ≡ true
    → all_quiet closed (set_stage c st ss) ≡ true
quiet-set_stage closed block_ch st ss h q = ground arith
quiet-set_stage closed tx_ch st ss h q = ground arith
quiet-set_stage closed tx_in_ch st ss h q = ground arith
quiet-set_stage closed tx_out_ch st ss h q = ground arith

pub debt-none : {A : Type 0} (st : Stage A) → st.queue ≡ [] → st.answering ≡ false → debt st ≡ 0
unfolding debt asked
debt-none st e h = rw (e, h) refl

bit-zero : (b : Bool) → bit b ≡ 0 → b ≡ false
bit-zero true h = absurd (omega arith)
bit-zero false h = refl

pub debts-zero : (ss : Stages) → debts ss ≡ 0 → (c : Channel) → (stage c ss).answering ≡ false
unfolding debts debt
debts-zero ss h block_ch = bit-zero _ (omega arith)
debts-zero ss h tx_ch = bit-zero _ (omega arith)
debts-zero ss h tx_in_ch = bit-zero _ (omega arith)
debts-zero ss h tx_out_ch = bit-zero _ (omega arith)

positive : (n : ℕ) → (0 < n) ⊎ (n ≡ 0)
positive zero = inr refl
positive (suc n) = inl (omega arith)

-- Where an answer is owed, there is the writer that owes it.
pub debts-one : (ss : Stages) → debts ss ≡ 1 → (c : Channel) × (0 < debt (stage c ss))
unfolding debts
debts-one ss h = elim (positive (debt ss.s_block)) [
  | inl p ↦ (block_ch, p)
  | inr p ↦ elim (positive (debt ss.s_tx)) [
    | inl q ↦ (tx_ch, q)
    | inr q ↦ elim (positive (debt ss.s_tx_in)) [
      | inl r ↦ (tx_in_ch, r)
      | inr r ↦ (tx_out_ch, omega arith)
    ]
  ]
]

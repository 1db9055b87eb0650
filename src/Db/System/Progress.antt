-- ===== src/Db/System/Progress.antt =====
-- The goroutines of db/postgres.go do not block one another: `pgBlockWorker` waits for an answer only
-- while a writer is about to give it, and a full channel has a writer that reads it.
use blkchain.Prelude.{
  ℕ, ◌≡◌, refl, Bool, true, false, Option, none, some, List, [], ◌∷◌, ◌<◌, length, ltb,
  if◌then◌else◌, Bool-cases, ◌⊎◌, inl, inr, arith,
}
use blkchain.Io.{Result, ok, err, nil_pointer}
use blkchain.Db.{BlockRecSync, TxInRec, Msg, row, commit_signal}
use blkchain.Db.Writers.{TxInTables, write_tx_in, note_miss, lookup_prevout}
use blkchain.Db.Worker.{
  Channel, block_ch, tx_ch, tx_in_ch, tx_out_ch, Carried, Action, send, await, reply, do_tx,
  Heights,
}
use blkchain.Db.System.{
  Config, stage, capacity, Tables, State, Turn, worker, writer, answer, receive, next_block, act,
  work, hear, write, step, is_some, Run, start,
}
use blkchain.Db.System.Invariant.{Inv, Run-Inv, start-Inv}
use blkchain.Db.System.Debts.{
  debt-none, debts-zero, debts-one, debts, debt, quiet-some, returned-nil, asked, quiet-stage,
}

-- The worker has nothing left, the channels are closed and empty, and the writers have returned.
abbrev pub IsDone : State → Type 0
IsDone s =
    (s.input ≡ [])
    × (s.todo ≡ [])
    × (s.closed ≡ true)
    × ((c : Channel) → ((stage c s.stages).returned ≡ true) × ((stage c s.stages).queue ≡ []))

-- Some goroutine can go on.
abbrev pub CanStep : Config → State → Type 0
CanStep cfg s = (turn : Turn) × (is_some (step cfg turn s) ≡ true)

-- No call is on a nil pointer.
abbrev pub IsSafe : Config → Type 0
IsSafe cfg = (cfg.has_db ≡ true) ⊎ (cfg.first_import ≡ false)

abbrev is_ok : {A : Type 0} → Result A → Bool
is_ok (ok a) = true
is_ok (err e) = false

some-ok :
    {A B : Type 0} (r : Result A) (f : A → B)
    → is_ok r ≡ true
    → is_some (elim r as (λ x. Option B) [ err e ↦ none | ok a ↦ some (f a) ]) ≡ true
some-ok (ok a) f h = refl
some-ok (err e) f h = absurd (cc)

on_each :
    (P : Channel → Type 0) → P block_ch → P tx_ch → P tx_in_ch → P tx_out_ch → (c : Channel) → P c
on_each P a b c d block_ch = a
on_each P a b c d tx_ch = b
on_each P a b c d tx_in_ch = c
on_each P a b c d tx_out_ch = d

safe-ok :
    (c first_import has_db : Bool) (a b t : TxInTables)
    → (has_db ≡ true) ⊎ (first_import ≡ false)
    → (u : TxInTables) × ((if c
          then (if first_import then (if has_db then ok a else err nil_pointer) else ok b)
          else ok t)
        ≡ ok u)
safe-ok false fi db a b t safe = (t, refl)
safe-ok true false db a b t safe = (b, refl)
safe-ok true true true a b t safe = (a, refl)
safe-ok true true false a b t (inl h) = absurd (cc)
safe-ok true true false a b t (inr h) = absurd (cc)

module _ (cfg : Config) (safe : IsSafe cfg) where
  note_miss-ok :
      (t : TxInTables) (tr : TxInRec) (prevout : Option ℕ)
      → (u : TxInTables) × (note_miss cfg.has_db cfg.works cfg.first_import cfg.nil_witness t tr
            prevout
          ≡ ok u)
  unfolding note_miss
  note_miss-ok t tr (some id) = (_, refl)
  note_miss-ok t tr none = safe-ok _ cfg.first_import cfg.has_db _ _ _ safe

  receive-ok : (c : Channel) (m : Msg (Carried c)) (t : Tables) → is_ok (receive cfg c m t) ≡ true
  unfolding receive write_tx_in
  receive-ok block_ch m t = refl
  receive-ok tx_ch m t = refl
  receive-ok tx_in_ch (row r) t =
      let (u, e) =
        note_miss-ok t.t_tx_ins r
          (lookup_prevout cfg.has_db cfg.works cfg.first_import cfg.nil_witness t.cache
            r.tx_in).1 in
      rw (e, is_ok) refl
  receive-ok tx_in_ch (commit_signal a) t = refl
  receive-ok tx_out_ch m t = refl

  module _ (s : State) (i : Inv s) where
    -- A writer with a message and without an answer to give.
    writer-go :
        (c : Channel) (m : Msg (Carried c)) (ms : List (Msg (Carried c)))
        → (stage c s.stages).queue ≡ m ∷ ms
        → (stage c s.stages).answering ≡ false
        → CanStep cfg s
    unfolding step write
    writer-go c m ms e h =
        let nr =
          quiet-some (stage c s.stages) s.closed m ms e (quiet-stage s.closed c s.stages i.rest) in
        (writer c, rw (h, nr, e) (some-ok (receive cfg c m s.tables) _ (receive-ok c m s.tables)))

    full-go :
        (c : Channel) (ms : List (Msg (Carried c)))
        → (stage c s.stages).queue ≡ ms
        → (stage c s.stages).answering ≡ false
        → ltb (length ms) (capacity c) ≡ false
        → CanStep cfg s
    full-go block_ch [] e h full = absurd (cc)
    full-go tx_ch [] e h full = absurd (cc)
    full-go tx_in_ch [] e h full = absurd (cc)
    full-go tx_out_ch [] e h full = absurd (cc)
    full-go c (m ∷ ms) e h full = writer-go c m ms e h

    asked-go :
        (c : Channel) (ms : List (Msg (Carried c)))
        → (stage c s.stages).queue ≡ ms
        → (stage c s.stages).answering ≡ false
        → 0 < debt (stage c s.stages)
        → CanStep cfg s
    unfolding debt asked
    asked-go c [] e h p = absurd (omega (arith, p, debt-none (stage c s.stages) e h))
    asked-go c (m ∷ ms) e h p = writer-go c m ms e h

    owing-go :
        (c : Channel) (ms : List (Msg (Carried c))) (rest : List Action)
        → (stage c s.stages).queue ≡ ms
        → s.todo ≡ await ∷ rest
        → 0 < debt (stage c s.stages)
        → CanStep cfg s
    unfolding step hear
    owing-go c ms rest e f h = elim (Bool-cases (stage c s.stages).answering) [
      | inl a ↦ (answer c, rw (f, a) refl)
      | inr a ↦ asked-go c ms e a h
    ]

    act-go : (a : Action) (rest : List Action) → s.todo ≡ a ∷ rest → CanStep cfg s
    unfolding step work act
    act-go (send c m) rest e =
        let d : debts s.stages ≡ 0 = rw (e) at i.owed in
        elim (Bool-cases (ltb (length (stage c s.stages).queue) (capacity c))) [
          | inl h ↦ (worker [], rw (e, h) refl)
          | inr h ↦ full-go c (stage c s.stages).queue refl (debts-zero s.stages d c) h
        ]
    act-go await rest e =
        let d : debts s.stages ≡ 1 = rw (e) at i.owed in
        let (c, p) = debts-one s.stages d in owing-go c (stage c s.stages).queue rest refl e p
    act-go (reply r) rest e = (worker [], rw (e) refl)
    act-go (do_tx b n tx) rest e = (worker [], rw (e) refl)

    return-go :
        (c : Channel) (ms : List (Msg (Carried c)))
        → (stage c s.stages).queue ≡ ms
        → s.closed ≡ true
        → (stage c s.stages).answering ≡ false
        → (stage c s.stages).returned ≡ false
        → CanStep cfg s
    unfolding step write
    return-go c [] e closed a r = (writer c, rw (a, r, e, closed) refl)
    return-go c (m ∷ ms) e closed a r = writer-go c m ms e a

    closed-go :
        (c : Channel) (ms : List (Msg (Carried c)))
        → (stage c s.stages).queue ≡ ms
        → s.closed ≡ true
        → s.todo ≡ []
        → (((stage c s.stages).returned ≡ true) × ((stage c s.stages).queue ≡ [])) ⊎ CanStep cfg s
    unfolding step write
    closed-go c ms e closed f =
        let d : debts s.stages ≡ 0 = rw (f) at i.owed in
        let a = debts-zero s.stages d c in
        elim (Bool-cases (stage c s.stages).returned) [
          | inl r ↦ inl (
            r,
            returned-nil (stage c s.stages) s.closed r (quiet-stage s.closed c s.stages i.rest),
          )
          | inr r ↦ inr (return-go c ms e closed a r)
        ]

    all-go :
        s.input ≡ []
        → s.todo ≡ []
        → s.closed ≡ true
        → ((c : Channel)
            → (((stage c s.stages).returned ≡ true) × ((stage c s.stages).queue ≡ []))
              ⊎ CanStep cfg s)
        → IsDone s ⊎ CanStep cfg s
    all-go f e h each = elim (each block_ch) [
      | inr g ↦ inr g
      | inl a ↦ elim (each tx_ch) [
        | inr g ↦ inr g
        | inl b ↦ elim (each tx_in_ch) [
          | inr g ↦ inr g
          | inl c ↦ elim (each tx_out_ch) [
            | inr g ↦ inr g
            | inl d ↦ inl (
              f,
              e,
              h,
              on_each
                  (λ c'. ((stage c' s.stages).returned ≡ true) × ((stage c' s.stages).queue ≡ [])) a
                  b c d,
            )
          ]
        ]
      ]
    ]

    todo-go :
        (todo : List Action) (bs : List BlockRecSync)
        → s.todo ≡ todo
        → s.input ≡ bs
        → IsDone s ⊎ CanStep cfg s
    unfolding step work next_block
    todo-go (a ∷ rest) bs e f = inr (act-go a rest e)
    todo-go [] (b ∷ bs) e f = inr (worker [], rw (e, f) refl)
    todo-go [] [] e f = elim (Bool-cases s.closed) [
      | inr h ↦ inr (worker [], rw (e, f, h) refl)
      | inl h ↦ all-go f e h (λ c. closed-go c (stage c s.stages).queue refl h e)
    ]

    go : IsDone s ⊎ CanStep cfg s
    go = todo-go s.todo s.input refl refl

-- Whatever the order in which the block worker and the four writers take their steps from the
-- start, in every state that they reach all is done, that is, no block, action or message is left,
-- the channels are closed and the writers have returned, or one of them can take a step, when
-- there is a database or this is no first import. The callers of `WriteBlock`, which may wait for
-- an answer, take no part in this.
pub never-stuck :
    (cfg : Config) (block_id tx_id : ℕ) (hs : Heights) (t : Tables) (bs : List BlockRecSync) {n : ℕ}
    {s : State}
    → IsSafe cfg
    → Run cfg n (start cfg block_id tx_id hs t bs) s
    → IsDone s ⊎ CanStep cfg s
never-stuck cfg block_id tx_id hs t bs {s = s} safe r =
    go cfg safe s (Run-Inv r (start-Inv cfg block_id tx_id hs t bs))

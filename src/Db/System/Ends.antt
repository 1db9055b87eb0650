-- ===== src/Db/System/Ends.antt =====
-- What holds behind a step that can be taken.
use blkchain.Prelude.{ℕ, ◌≡◌, refl, subst, Bool, true, false, Option, none, some, if◌then◌else◌}
use blkchain.Db.System.{Config, State, Turn, step, Run, stop, later}

module _ (P : State → Type 0) where
  abbrev pub Ends : Option State → Type 0
  Ends none = Unit
  Ends (some t) = P t

  pub Ends-if : (c : Bool) (t : State) → (c ≡ true → P t) → Ends (if c then some t else none)
  Ends-if true t h = h refl
  Ends-if false t h = tt

  pub Ends-if_any : (c : Bool) (t : State) → P t → Ends (if c then some t else none)
  Ends-if_any c t h = Ends-if c t (λ e. h)

  pub Ends-unless : (c : Bool) (t : State) → (c ≡ false → P t) → Ends (if c then none else some t)
  Ends-unless true t h = tt
  Ends-unless false t h = h refl

  pub Ends-unless_any : (c : Bool) (t : State) → P t → Ends (if c then none else some t)
  Ends-unless_any c t h = Ends-unless c t (λ e. h)

  pub Ends-else :
      (c : Bool) (o : Option State) → (c ≡ false → Ends o) → Ends (if c then none else o)
  Ends-else true o h = tt
  Ends-else false o h = h refl

  -- What every step keeps holds behind a run.
  pub Run-keeps :
      {cfg : Config} {n : ℕ} {s t : State}
      → ((s : State) → P s → (turn : Turn) → Ends (step cfg turn s))
      → Run cfg n s t
      → P s
      → P t
  Run-keeps keeps stop h = h
  Run-keeps {s = s} keeps (later turn e r) h = Run-keeps keeps r (subst Ends e (keeps s h turn))

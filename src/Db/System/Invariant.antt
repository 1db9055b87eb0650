-- ===== src/Db/System/Invariant.antt =====
-- What holds between any two steps of the goroutines of db/postgres.go: at most one answer is out, and
-- then the worker waits for it.
use blkchain.Db.System.Ends.{Ends, Ends-if, Ends-unless, Ends-else, Run-keeps}
use blkchain.Prelude.{
  ℕ, ◌+◌, ◌%◌, ◌^◌, ◌≡◌, refl, sym, ap, ◌∙◌, subst, Bool, true, false, ◌||◌, Option, none, some,
  List, [], ◌∷◌, ◌++◌, length, ltb, Bool-cases, inl, inr, arith,
}
use blkchain.Io.{ok, err}
use blkchain.Db.{BlockRecSync, Msg}
use blkchain.Db.Worker.{Channel, Carried, Action, send, await, reply, do_tx, Heights}
use blkchain.Db.System.{
  Config, Stages, stage, set_stage, capacity, Tables, asks, State, Turn, worker, writer, answer,
  receive, next_block, act, work, hear, write, step, Run, start,
}
use blkchain.Db.System.Pairs.{asking, waits, paired, ready, block_actions-ready, transaction-ready}
use blkchain.Db.System.Debts.{
  bit, asked, debt, debts, all_quiet, debt-send, debt-hear, debt-write, quiet-open, quiet-some,
  debts-eq, quiet-stage, quiet-set_stage,
}

pub record Inv (s : State) : Type 0 where
  pub pairs : paired s.todo ≡ true
  pub owed : debts s.stages ≡ bit (waits s.todo)
  pub idle : s.closed ≡ true → (s.todo ≡ []) × (s.input ≡ [])
  pub rest : all_quiet s.closed s.stages ≡ true

abbrev Keeps : Option State → Type 0
Keeps o = Ends Inv o

close-quiet : (closed : Bool) (ss : Stages) → all_quiet closed ss ≡ true → all_quiet true ss ≡ true
close-quiet closed ss h = ground arith

pub ready-split :
    (todo : List Action) → ready todo ≡ true → (waits todo ≡ false) × (paired todo ≡ true)
ready-split todo h = (ground arith, ground arith)

pub paired-split :
    (a : Action) (rest : List Action)
    → paired (a ∷ rest) ≡ true
    → (waits rest ≡ asking a) × (paired rest ≡ true)
unfolding paired
paired-split a rest h = elim (Bool-cases (asking a)) [
  | inl e ↦ (ground arith, ground arith)
  | inr e ↦ (ground arith, ground arith)
]

module _ (cfg : Config) (s : State) (i : Inv s) where
  -- The worker closes the channels only when nothing is left to do.
  pub busy : (a : Action) (rest : List Action) → s.todo ≡ a ∷ rest → s.closed ≡ false
  busy a rest e = elim (Bool-cases s.closed) [
    | inr h ↦ h
    | inl h ↦ let (t, _) = i.idle h in absurd (cc)
  ]

  waiting : (todo : List Action) → s.todo ≡ todo → debts s.stages ≡ bit (waits todo)
  waiting todo e = rw (e) at i.owed

  split :
      (a : Action) (rest : List Action)
      → s.todo ≡ a ∷ rest
      → (waits rest ≡ asking a) × (paired rest ≡ true)
  split a rest e = let p : paired (a ∷ rest) ≡ true = rw (e) at i.pairs in paired-split a rest p

  next_block-Keeps :
      (hs : Heights) (bs : List BlockRecSync)
      → s.todo ≡ []
      → s.input ≡ bs
      → Keeps (next_block cfg hs bs s)
  unfolding next_block
  next_block-Keeps hs [] e f =
      Ends-unless Inv s.closed (record s { closed = true })
        (λ h. record {
          pairs = i.pairs;
          owed = i.owed;
          idle = λ _. (e, f);
          rest = close-quiet s.closed s.stages i.rest;
        })
  next_block-Keeps hs (b ∷ bs) e f =
      let id = (s.block_id + 1) % 2 ^ 64 in
      let (w, p) = ready-split _ (block_actions-ready cfg.sha256 cfg.first_import hs id b) in
      record {
        pairs = p;
        owed = rw (w) (waiting [] e);
        idle = λ h. let (_, t) = i.idle h in absurd (cc);
        rest = i.rest;
      }

  not_returned : (c : Channel) → s.closed ≡ false → (stage c s.stages).returned ≡ false
  not_returned c h =
      quiet-open (stage c s.stages) s.closed h (quiet-stage s.closed c s.stages i.rest)

  act-Keeps : (a : Action) (rest : List Action) → s.todo ≡ a ∷ rest → Keeps (act cfg a rest s)
  unfolding act
  act-Keeps (send c m) rest e =
      let st = stage c s.stages in
      Ends-if Inv (ltb (length (stage c s.stages).queue) (capacity c)) _ (λ h. record {
        pairs = (split (send c m) rest e).1;
        owed =
            debts-eq c (record st { queue = st.queue ++ m ∷ [] }) s.stages 0 (bit (waits rest))
              (waiting (send c m ∷ rest) e)
              (rw ((split (send c m) rest e).0, debt-send st m) (omega arith));
        idle = λ h. absurd (cc (busy (send c m) rest e));
        rest =
            quiet-set_stage s.closed c (record st { queue = st.queue ++ m ∷ [] }) s.stages i.rest
              (rw (not_returned c (busy (send c m) rest e)) refl);
      })
  act-Keeps await rest e = tt
  act-Keeps (reply r) rest e = record {
    pairs = (split (reply r) rest e).1;
    owed = waiting (reply r ∷ rest) e ∙ ap bit (sym (split (reply r) rest e).0);
    idle = λ h. absurd (cc (busy (reply r) rest e));
    rest = i.rest;
  }
  act-Keeps (do_tx b n tx) rest e =
      let id = (s.tx_id + 1) % 2 ^ 64 in
      let (w, p) = split (do_tx b n tx) rest e in
      let r : ready rest ≡ true = ground arith in
      let (w', p') =
        ready-split _ (transaction-ready cfg.sha256 cfg.first s.tables.cache id b n tx rest r) in
      record {
        pairs = p';
        owed = waiting (do_tx b n tx ∷ rest) e ∙ ap bit (sym w');
        idle = λ h. absurd (cc (busy (do_tx b n tx) rest e));
        rest = i.rest;
      }

  hear-Keeps : (c : Channel) (todo : List Action) → s.todo ≡ todo → Keeps (hear cfg c todo s)
  unfolding hear paired
  hear-Keeps c [] e = tt
  hear-Keeps c (send d m ∷ rest) e = tt
  hear-Keeps c (reply r ∷ rest) e = tt
  hear-Keeps c (do_tx b n tx ∷ rest) e = tt
  hear-Keeps c (await ∷ rest) e =
      let st = stage c s.stages in
      Ends-if Inv st.answering _ (λ h. record {
        pairs = (split await rest e).1;
        owed =
            debts-eq c (record st { answering = false }) s.stages 1 (bit (waits rest))
              (waiting (await ∷ rest) e)
              (rw ((split await rest e).0) (omega (arith, debt-hear st h)));
        idle = λ h. absurd (cc (busy await rest e));
        rest =
            quiet-set_stage s.closed c (record st { answering = false }) s.stages i.rest
              (quiet-stage s.closed c s.stages i.rest);
      })

  write-Keeps :
      (c : Channel) (ms : List (Msg (Carried c)))
      → (stage c s.stages).queue ≡ ms
      → (stage c s.stages).answering ≡ false
      → Keeps (write cfg c ms s)
  unfolding write debt
  write-Keeps c [] e h =
      let st = stage c s.stages in
      Ends-if Inv s.closed _ (λ closed. record {
        pairs = i.pairs;
        owed = debts-eq c (record st { returned = true }) s.stages _ _ i.owed (omega arith);
        idle = i.idle;
        rest =
            quiet-set_stage s.closed c (record st { returned = true }) s.stages i.rest
              (rw (closed, e) refl);
      })
  write-Keeps c (m ∷ ms) e h =
      let st = stage c s.stages in
      elim (receive cfg c m s.tables)
        as (λ r. Keeps (elim r [
          | err e ↦ none
          | ok t ↦ some (record s {
            tables = t;
            stages = set_stage c (record st { queue = ms; answering = asks m }) s.stages;
          })
        ])) [
          | err e ↦ tt
          | ok t ↦ record {
            pairs = i.pairs;
            owed =
                debts-eq c (record st { queue = ms; answering = asks m }) s.stages _ _ i.owed
                  (omega (arith, debt-write st m ms e h));
            idle = i.idle;
            rest =
                quiet-set_stage s.closed c (record st { queue = ms; answering = asks m }) s.stages
                  i.rest
                  (rw (quiet-some st s.closed m ms e (quiet-stage s.closed c s.stages i.rest))
                    refl);
          }
        ]

  work-Keeps : (hs : Heights) (todo : List Action) → s.todo ≡ todo → Keeps (work cfg hs todo s)
  unfolding work
  work-Keeps hs [] e = next_block-Keeps hs s.input e refl
  work-Keeps hs (a ∷ rest) e = act-Keeps a rest e

  step-Keeps : (turn : Turn) → Keeps (step cfg turn s)
  unfolding step
  step-Keeps (worker hs) = work-Keeps hs s.todo refl
  step-Keeps (answer c) = hear-Keeps c s.todo refl
  step-Keeps (writer c) =
      let st = stage c s.stages in
      Ends-else Inv (st.answering || st.returned) _
        (λ h. write-Keeps c st.queue refl (ground arith))

pub Inv-step : (cfg : Config) (turn : Turn) {s t : State} → Inv s → step cfg turn s ≡ some t → Inv t
Inv-step cfg turn {s} {t} i e = subst Keeps e (step-Keeps cfg s i turn)

pub Run-Inv : {cfg : Config} {n : ℕ} {s t : State} → Run cfg n s t → Inv s → Inv t
Run-Inv {cfg} r i = Run-keeps Inv (λ s i turn. step-Keeps cfg s i turn) r i

pub start-Inv :
    (cfg : Config) (block_id tx_id : ℕ) (hs : Heights) (t : Tables) (bs : List BlockRecSync)
    → Inv (start cfg block_id tx_id hs t bs)
unfolding start paired debts debt asked
start-Inv cfg block_id tx_id hs t bs = record {
  pairs = refl;
  owed = refl;
  idle = λ h. absurd (cc);
  rest = refl;
}

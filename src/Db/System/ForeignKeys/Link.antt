-- ===== src/Db/System/ForeignKeys/Link.antt =====
-- A table with references to another one, each filled through a channel of db/postgres.go: what the
-- writers and the worker do to the keys of both.
use blkchain.Prelude.{◌≡◌, sym, ap, ◌∙◌, subst, Bool, List, [], ◌∷◌, ◌++◌, append_assoc, append-nil}
use blkchain.Db.{Msg, row, commit_signal}
use blkchain.Db.Worker.{Action}
use blkchain.Db.System.ForeignKeys.{
  Keys, Within, keys, keys-append, Within-left, Within-nil, Within-right, Within-eq, append3,
  Within-Within, Within-append,
}

-- What one side of a reference has: the rows that are committed, those of the open transaction, and
-- the messages that wait.
pub record Side : Type 0 where
  pub committed : Keys
  pub pending : Keys
  pub queue : List (Msg Keys)

-- All keys of a side.
abbrev pub known : Side → Keys
known p = p.committed ++ (p.pending ++ keys p.queue)

-- The keys before each commit are in `ks`; `pending` are those before the messages.
unfoldable pub Covered : Keys → Keys → List (Msg Keys) → Type 0
Covered ks pending [] = Unit
Covered ks pending (row ls ∷ ms) = Covered ks (pending ++ ls) ms
Covered ks pending (commit_signal s ∷ ms) = Within pending ks × Covered ks [] ms

-- A message that the writer of a side takes.
abbrev pub Taken : Msg Keys → Side → Side → Type 0
Taken (row ks) p q = (q.committed ≡ p.committed) × (q.pending ≡ p.pending ++ ks)
Taken (commit_signal s) p q = (q.committed ≡ p.committed ++ p.pending) × (q.pending ≡ [])

Covered-mono :
    (ks ls pending : Keys) (ms : List (Msg Keys))
    → Within ks ls
    → Covered ks pending ms
    → Covered ls pending ms
unfolding Covered
Covered-mono ks ls pending [] w c = tt
Covered-mono ks ls pending (row js ∷ ms) w c = Covered-mono ks ls (pending ++ js) ms w c
Covered-mono ks ls pending (commit_signal s ∷ ms) w c =
    (Within-Within pending ks ls c.0 w, Covered-mono ks ls [] ms w c.1)

Covered-row :
    (ks pending js : Keys) (ms : List (Msg Keys))
    → Covered ks pending ms
    → Covered ks pending (ms ++ row js ∷ [])
unfolding Covered
Covered-row ks pending js [] c = tt
Covered-row ks pending js (row ls ∷ ms) c = Covered-row ks (pending ++ ls) js ms c
Covered-row ks pending js (commit_signal s ∷ ms) c = (c.0, Covered-row ks [] js ms c.1)

Covered-commit :
    (ks pending : Keys) (s : Bool) (ms : List (Msg Keys))
    → Within (pending ++ keys ms) ks
    → Covered ks pending ms
    → Covered ks pending (ms ++ commit_signal s ∷ [])
unfolding Covered keys
Covered-commit ks pending s [] w c = (λ k h. w k (Within-left pending [] k h), tt)
Covered-commit ks pending s (row ls ∷ ms) w c =
    Covered-commit ks (pending ++ ls) s ms (rw (append_assoc pending ls (keys ms)) w) c
Covered-commit ks pending s (commit_signal t ∷ ms) w c =
    (c.0, Covered-commit ks [] s ms (λ k h. w k (Within-right pending (keys ms) k h)) c.1)

-- What an action adds to the parents, and what it needs of them.
module _ (gives needs : Action → Keys) where
  unfoldable pub Fed : Keys → List Action → Type 0
  Fed ks [] = Unit
  Fed ks (a ∷ rest) = Within (needs a) ks × Fed (ks ++ gives a) rest

  pub record LinkInv (todo : List Action) (p c : Side) : Type 0 where
    pub foreign : Within c.committed p.committed
    pub covered : Covered p.committed c.pending c.queue
    pub fed_queue : Within (c.pending ++ keys c.queue) (known p)
    pub fed_todo : Fed (known p) todo

  pub Fed-mono : (ks ls : Keys) (todo : List Action) → Within ks ls → Fed ks todo → Fed ls todo
  unfolding Fed
  Fed-mono ks ls [] w f = tt
  Fed-mono ks ls (a ∷ rest) w f = (
    Within-Within (needs a) ks ls f.0 w,
    Fed-mono (ks ++ gives a) (ls ++ gives a) rest
        (Within-append ks (gives a) (ls ++ gives a)
          (Within-Within ks ls (ls ++ gives a) w (Within-left ls (gives a)))
          (Within-right ls (gives a)))
        f.1,
  )

  module _ {p c : Side} where
    pub with_todo :
        {todo todo' : List Action} → Fed (known p) todo' → LinkInv todo p c → LinkInv todo' p c
    with_todo f i = record {
      foreign = i.foreign;
      covered = i.covered;
      fed_queue = i.fed_queue;
      fed_todo = f;
    }

    -- The parent has at least what it had.
    pub parent_moves :
        {todo todo' : List Action} (q : Side)
        → Within p.committed q.committed
        → Within (known p) (known q)
        → Fed (known q) todo'
        → LinkInv todo p c
        → LinkInv todo' q c
    parent_moves q w v f i = record {
      foreign = Within-Within c.committed p.committed q.committed i.foreign w;
      covered = Covered-mono p.committed q.committed c.pending c.queue w i.covered;
      fed_queue = Within-Within (c.pending ++ keys c.queue) (known p) (known q) i.fed_queue v;
      fed_todo = f;
    }

    module _ (a : Action) (rest : List Action) (i : LinkInv (a ∷ rest) p c) where
      pub tail : gives a ≡ [] → Fed (known p) rest
      unfolding Fed
      tail g =
          Fed-mono (known p ++ gives a) (known p) rest
            (Within-eq _ _ (rw (g) (append-nil (known p)))) i.fed_todo.1

      pub skip : gives a ≡ [] → LinkInv rest p c
      skip g = with_todo (tail g) i

      pub send_parent :
          (m : Msg Keys)
          → gives a ≡ keys (m ∷ [])
          → LinkInv rest (record p { queue = p.queue ++ m ∷ [] }) c
      unfolding Fed
      send_parent m g =
          let q = record p { queue = p.queue ++ m ∷ [] } in
          let e : known p ++ gives a ≡ known q =
            rw (g, keys-append p.queue (m ∷ []))
              (append3 p.committed p.pending (keys p.queue) (keys (m ∷ []))) in
          parent_moves q (λ k h. h) (subst (Within (known p)) e (Within-left (known p) (gives a)))
            (subst (λ l. Fed l rest) e i.fed_todo.1) i

      pub send_row :
          (ks : Keys)
          → gives a ≡ []
          → needs a ≡ ks
          → LinkInv rest p (record c { queue = c.queue ++ row ks ∷ [] })
      unfolding Fed keys
      send_row ks g n = record {
        foreign = i.foreign;
        covered = Covered-row p.committed c.pending ks c.queue i.covered;
        fed_queue =
            subst (λ l. Within l (known p))
              (sym (
                rw (keys-append c.queue (row ks ∷ []), append-nil ks)
                  (sym (append_assoc c.pending (keys c.queue) ks))))
              (Within-append (c.pending ++ keys c.queue) ks (known p) i.fed_queue
                (subst (λ l. Within l (known p)) n i.fed_todo.0));
        fed_todo = tail g;
      }

      pub send_commit :
          (s : Bool)
          → gives a ≡ []
          → p.pending ≡ []
          → p.queue ≡ []
          → LinkInv rest p (record c { queue = c.queue ++ commit_signal s ∷ [] })
      unfolding keys
      send_commit s g pe qe =
          let e : known p ≡ p.committed = rw (pe, qe) (append-nil p.committed) in
          record {
            foreign = i.foreign;
            covered =
                Covered-commit p.committed c.pending s c.queue
                  (subst (Within (c.pending ++ keys c.queue)) e i.fed_queue) i.covered;
            fed_queue =
                subst (λ l. Within (c.pending ++ l) (known p))
                  (sym (keys-append c.queue (commit_signal s ∷ []) ∙ append-nil (keys c.queue)))
                  i.fed_queue;
            fed_todo = tail g;
          }

    pub take_parent :
        {todo : List Action} (m : Msg Keys) (ms : List (Msg Keys)) (q : Side)
        → p.queue ≡ m ∷ ms
        → q.queue ≡ ms
        → Taken m p q
        → LinkInv todo p c
        → LinkInv todo q c
    unfolding keys
    take_parent {todo} (row ks) ms q e f t i =
        let v : known p ≡ known q =
          rw (e, f, t.0, t.1)
            (ap (λ l. p.committed ++ l) (sym (append_assoc p.pending ks (keys ms)))) in
        parent_moves q (Within-eq _ _ (sym t.0)) (Within-eq _ _ v)
          (subst (λ l. Fed l todo) v i.fed_todo) i
    take_parent {todo} (commit_signal s) ms q e f t i =
        let v : known p ≡ known q =
          rw (e, f, t.0, t.1) (sym (append_assoc p.committed p.pending (keys ms))) in
        parent_moves q (subst (Within p.committed) (sym t.0) (Within-left p.committed p.pending))
          (Within-eq _ _ v) (subst (λ l. Fed l todo) v i.fed_todo) i

    pub take_child :
        {todo : List Action} (m : Msg Keys) (ms : List (Msg Keys)) (d : Side)
        → c.queue ≡ m ∷ ms
        → d.queue ≡ ms
        → Taken m c d
        → LinkInv todo p c
        → LinkInv todo p d
    unfolding keys Covered
    take_child (row ks) ms d e f t i =
        let v = subst (Covered p.committed c.pending) e i.covered in
        let w = subst (λ l. Within (c.pending ++ keys l) (known p)) e i.fed_queue in
        record {
          foreign = rw (t.0) i.foreign;
          covered = rw (t.1, f) v;
          fed_queue = rw (t.1, f, append_assoc c.pending ks (keys ms)) w;
          fed_todo = i.fed_todo;
        }
    take_child (commit_signal s) ms d e f t i =
        let v = subst (Covered p.committed c.pending) e i.covered in
        let w = subst (λ l. Within (c.pending ++ keys l) (known p)) e i.fed_queue in
        record {
          foreign = rw (t.0) (Within-append c.committed c.pending p.committed i.foreign v.0);
          covered = rw (t.1, f) v.1;
          fed_queue =
              rw (t.1, f)
                (Within-Within (keys ms) (c.pending ++ keys ms) (known p)
                  (Within-right c.pending (keys ms)) w);
          fed_todo = i.fed_todo;
        }

    -- The last commit of a writer, with its channel empty: of the parent, and of the child when the
    -- parent has all its rows committed.
    pub last_parent :
        {todo : List Action} (q : Side) (s : Bool)
        → p.queue ≡ []
        → q.queue ≡ []
        → Taken (commit_signal s) p q
        → LinkInv todo p c
        → LinkInv todo q c
    last_parent {todo} q s e f t i =
        let v : known p ≡ known q =
          rw (e, f, t.0, t.1) (sym (append_assoc p.committed p.pending (keys []))) in
        parent_moves q (subst (Within p.committed) (sym t.0) (Within-left p.committed p.pending))
          (Within-eq _ _ v) (subst (λ l. Fed l todo) v i.fed_todo) i

    pub last_child :
        {todo : List Action} (d : Side) (s : Bool)
        → p.pending ≡ []
        → p.queue ≡ []
        → c.queue ≡ []
        → d.queue ≡ []
        → Taken (commit_signal s) c d
        → LinkInv todo p c
        → LinkInv todo p d
    unfolding keys Covered
    last_child d s pe qe e f t i =
        let v : known p ≡ p.committed = rw (pe, qe) (append-nil p.committed) in
        let w = subst (λ l. Within (c.pending ++ keys l) (known p)) e i.fed_queue in
        let u = Within-Within c.pending (c.pending ++ []) (known p) (Within-left c.pending []) w in
        record {
          foreign = rw (t.0) (
              Within-append c.committed c.pending p.committed i.foreign
                (subst (Within c.pending) v u));
          covered = rw (t.1, f) tt;
          fed_queue = rw (t.1, f) (Within-nil (known p));
          fed_todo = i.fed_todo;
        }

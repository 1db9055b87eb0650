-- ===== src/Db/Table/Works.antt =====
-- A table whose database works: rows are appended, and a commit makes them stay.
use blkchain.Prelude.{
  ℕ, zero, suc, ◌+◌, ◌≡◌, refl, ap, sym, ◌∙◌, Bool, true, List, [], ◌∷◌, ◌++◌, append_assoc,
  append-nil, arith,
}
use blkchain.Db.Table.{Table, calls_ok, begin, exec, commit}

-- The commit of a writer and the transaction that it begins.
abbrev pub renew : {R : Type 0} → (ℕ → Bool) → ℕ → Table R → Table R
renew works extra t = begin true works (commit true works extra t).1

module _ (works : ℕ → Bool) (w : (n : ℕ) → works n ≡ true) where
  calls_all : (k made : ℕ) → (calls_ok works k made).0 ≡ true
  unfolding calls_ok
  calls_all zero made = refl
  calls_all (suc k) made = rw (w made, calls_ok) (calls_all k (suc made))

  module _ {R : Type 0} (t : Table R) where
    pub begin-open : (begin true works t).open_stmt ≡ true
    unfolding begin
    begin-open = calls_all 3 t.calls

    pub exec-pending :
        (r : R) → t.open_stmt ≡ true → (exec true works t r).pending ≡ t.pending ++ r ∷ []
    unfolding exec
    exec-pending r h = rw (h, w t.calls, exec) refl

    pub exec-committed : (r : R) → (exec true works t r).committed ≡ t.committed
    unfolding exec
    exec-committed r = ground arith

    pub exec-open : (r : R) → (exec true works t r).open_stmt ≡ t.open_stmt
    unfolding exec
    exec-open r = ground arith

    pub renew-open : (extra : ℕ) → (renew works extra t).open_stmt ≡ true
    unfolding begin
    renew-open extra = calls_all 3 (commit true works extra t).1.calls

    pub renew-pending : (extra : ℕ) → (renew works extra t).pending ≡ []
    unfolding begin
    renew-pending extra = refl

    pub commit-committed :
        (extra : ℕ)
        → t.open_stmt ≡ true
        → (commit true works extra t).1.committed ≡ t.committed ++ t.pending
    unfolding commit
    commit-committed extra h = rw (h, calls_all (3 + extra) t.calls, commit) refl

    pub commit-pending :
        (extra : ℕ) → t.open_stmt ≡ true → (commit true works extra t).1.pending ≡ []
    unfolding commit
    commit-pending extra h = rw (h, calls_all (3 + extra) t.calls, commit) refl

    pub commit-open : (extra : ℕ) → (commit true works extra t).1.open_stmt ≡ t.open_stmt
    unfolding commit
    commit-open extra = ground arith

    pub renew-committed :
        (extra : ℕ)
        → t.open_stmt ≡ true
        → (renew works extra t).committed ≡ t.committed ++ t.pending
    unfolding begin
    renew-committed extra h = commit-committed extra h

    -- What is committed in the end, with the rows `l` still to come, is the same before an `exec` with
    -- its row in front of `l`, and before a commit.
    pub total-exec :
        (r : R) (l : List R)
        → t.open_stmt ≡ true
        → (exec true works t r).committed ++ ((exec true works t r).pending ++ l)
          ≡ t.committed ++ (t.pending ++ r ∷ l)
    total-exec r l h =
        rw (exec-committed r, exec-pending r h)
          (ap (λ (k : List R). t.committed ++ k) (append_assoc t.pending (r ∷ []) l))

    pub total-renew :
        (extra : ℕ) (l : List R)
        → t.open_stmt ≡ true
        → (renew works extra t).committed ++ ((renew works extra t).pending ++ l)
          ≡ t.committed ++ (t.pending ++ l)
    total-renew extra l h =
        rw (renew-committed extra h, renew-pending extra) (append_assoc t.committed t.pending l)

    pub total-commit :
        (extra : ℕ)
        → t.open_stmt ≡ true
        → (commit true works extra t).1.committed ≡ t.committed ++ (t.pending ++ [])
    total-commit extra h =
        commit-committed extra h
        ∙ ap (λ (k : List R). t.committed ++ k) (sym (append-nil t.pending))

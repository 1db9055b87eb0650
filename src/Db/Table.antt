-- ===== src/Db/Table.antt =====
-- `begin` and `commit` of db/postgres.go: a table that is filled by COPY, one transaction at a time.
pub mod Works
use blkchain.Prelude.{ℕ, zero, suc, ◌+◌, Bool, true, false, List, [], ◌∷◌, ◌++◌, if◌then◌else◌}

-- `open` tells whether the statement is there, `pending` are the rows of the open transaction, and
-- `calls` counts the calls of the database.
pub record Table (R : Type 0) : Type 0 where
  pub open_stmt : Bool
  pub pending : List R
  pub committed : List R
  pub calls : ℕ

-- `k` calls, up to the first that fails: whether all worked, and how many were made.
unfoldable pub calls_ok : (ℕ → Bool) → ℕ → ℕ → Bool × ℕ
calls_ok works zero made = (true, made)
calls_ok works (suc k) made =
    let rest = calls_ok works k (suc made) in if works made then rest else (false, suc made)

-- Whether there is a database (its name is not "nulldb"), and whether its call with a number works.
module _ {R : Type 0} (has_db : Bool) (works : ℕ → Bool) where
  -- `db.Begin`, `txn.Exec`, `txn.Prepare`. What stood in an earlier transaction is not reached again.
  unfoldable pub begin : Table R → Table R
  begin t =
      let (worked, made) = calls_ok works 3 t.calls in
      if has_db
      then record t { open_stmt = worked; pending = []; calls = made }
      else record t { open_stmt = false; pending = [] }

  -- `stmt.Exec` of a row, where there is a statement; an error is logged only.
  unfoldable pub exec : Table R → R → Table R
  exec t r =
      if t.open_stmt
      then record t {
        pending = if works t.calls then t.pending ++ r ∷ [] else t.pending;
        calls = suc t.calls;
      }
      else t

  -- `stmt.Exec`, `stmt.Close`, the calls for the misses, `txn.Commit`; whether it came to that end.
  unfoldable pub commit : ℕ → Table R → Bool × Table R
  commit extra t =
      let (worked, made) = calls_ok works (3 + extra) t.calls in
      let done = record t { pending = []; committed = t.committed ++ t.pending; calls = made } in
      let not_done = record t { calls = made } in
      if t.open_stmt then (if worked then (true, done) else (false, not_done)) else (false, t)

-- ===== src/Db/System/ForeignKeys.antt =====
-- The references between the tables that db/postgres.go fills: keys, and the messages as keys.
pub mod Link
pub mod Sides
pub mod Takes
pub mod Refs
pub mod Feeds
pub mod Sends
pub mod Phase
pub mod Good
pub mod Worked
pub mod Sent
pub mod Heard
pub mod Written
pub mod Closed
pub mod Holds
use blkchain.Prelude.{
  ℕ, ◌+◌, ◌≡◌, refl, sym, ap, ◌∙◌, subst, Bool, true, false, ◌||◌, List, [], ◌∷◌, ◌++◌,
  append_assoc, ◌==◌, arith,
}
use blkchain.Db.{Msg, row, commit_signal}

abbrev pub Keys : Type 0
Keys = List ℕ

unfoldable pub has : Keys → ℕ → Bool
has [] k = false
has (j ∷ ks) k = (j == k) || has ks k

-- Every key of the first list stands in the second.
abbrev pub Within : Keys → Keys → Type 0
Within ks ls = (k : ℕ) → has ks k ≡ true → has ls k ≡ true

pub has-append : (ks ls : Keys) (k : ℕ) → has (ks ++ ls) k ≡ has ks k || has ls k
unfolding has
has-append [] ls k = refl
has-append (j ∷ ks) ls k = ground (arith, has-append ks ls k)

pub Within-left : (ks ls : Keys) → Within ks (ks ++ ls)
Within-left ks ls k h = rw (has-append ks ls k) (ground arith)

pub Within-nil : (ks : Keys) → Within [] ks
unfolding has
Within-nil ks k h = absurd (cc)

pub Within-right : (ks ls : Keys) → Within ls (ks ++ ls)
Within-right ks ls k h = rw (has-append ks ls k) (ground arith)

pub Within-eq : (ks ls : Keys) → ks ≡ ls → Within ks ls
Within-eq ks ls e = subst (Within ks) e (λ k h. h)

pub append3 : (ks ls ms ns : Keys) → (ks ++ (ls ++ ms)) ++ ns ≡ ks ++ (ls ++ (ms ++ ns))
append3 ks ls ms ns = append_assoc ks (ls ++ ms) ns ∙ ap (λ l. ks ++ l) (append_assoc ls ms ns)

pub Within-Within : (ks ls ms : Keys) → Within ks ls → Within ls ms → Within ks ms
Within-Within ks ls ms p q k h = q k (p k h)

pub Within-append : (ks ls ms : Keys) → Within ks ms → Within ls ms → Within (ks ++ ls) ms
Within-append ks ls ms p q k h =
    let h' : has ks k || has ls k ≡ true = rw (has-append ks ls k) at h in grind arith

-- The keys of the records among the messages.
unfoldable pub keys : List (Msg Keys) → Keys
keys [] = []
keys (row ks ∷ ms) = ks ++ keys ms
keys (commit_signal s ∷ ms) = keys ms

pub keys-append : (ms ns : List (Msg Keys)) → keys (ms ++ ns) ≡ keys ms ++ keys ns
unfolding keys
keys-append [] ns = refl
keys-append (row ks ∷ ms) ns = rw (keys-append ms ns) (sym (append_assoc ks (keys ms) (keys ns)))
keys-append (commit_signal s ∷ ms) ns = keys-append ms ns

abbrev pub keyed : {A : Type 0} → (A → Keys) → Msg A → Msg Keys
keyed f (row a) = row (f a)
keyed f (commit_signal s) = commit_signal s

-- ===== src/Orphans/Walk.antt =====
-- The walk of `eliminateOrphans` down the heights: its steps, and what it leaves at each height.
use blkchain.Prelude.{
  ℕ, zero, suc, ◌≤◌, ◌<◌, ◌≡◌, inl, inr, ap, ◌∙◌, [], length, ltb, ◌==◌, Bool-cases, arith,
}
use native.Mathlib.Decide.{dec_le}
use blkchain.Io.{Error, Result, ok, err}
use blkchain.Uint256.{Uint256}
use blkchain.HeightMap
use blkchain.HeightMap.{HeightMap}
use blkchain.Orphans.{pick, next_prev, walk}

pub ok_same : {A : Type 0} {a b : A} → ok a ≡ ok b → b ≡ a
ok_same e = cc

pub err_ok : {A : Type 0} {e : Error} {a : A} → ◌≡◌ {A = Result A} (err e) (ok a) → ⊥
err_ok e = cc

module _ {H : Type 0} (hash prev_hash : H → Uint256) where
  -- One step of the walk above the lowest height, as the source branches.
  pub data Stepped (lo h : ℕ) (prev : Uint256) (m : HeightMap H) (count : ℕ) (r : ℕ × HeightMap H)
      : Type 0 where
    stopped : h < lo → r ≡ (count, m) → Stepped lo h prev m count r
    chosen :
        lo ≤ h
        → 1 < length (HeightMap.get m h)
        → length (pick hash prev_hash prev (HeightMap.get m h) (HeightMap.get m h) count).0 ≡ 1
        → walk hash prev_hash lo h
            (next_prev hash prev_hash
              (pick hash prev_hash prev (HeightMap.get m h) (HeightMap.get m h) count).0
              prev)
            (HeightMap.put m h
              (pick hash prev_hash prev (HeightMap.get m h) (HeightMap.get m h) count).0)
            (pick hash prev_hash prev (HeightMap.get m h) (HeightMap.get m h) count).1
          ≡ ok r
        → Stepped lo h prev m count r
    single :
        lo ≤ h
        → length (HeightMap.get m h) ≤ 1
        → walk hash prev_hash lo h (next_prev hash prev_hash (HeightMap.get m h) prev) m count
          ≡ ok r
        → Stepped lo h prev m count r

  pub walk_step :
      (lo h : ℕ) (prev : Uint256) (m : HeightMap H) (count : ℕ) (r : ℕ × HeightMap H)
      → walk hash prev_hash lo (suc h) prev m count ≡ ok r
      → Stepped lo h prev m count r
  unfolding walk
  walk_step lo h prev m count r e = elim (Bool-cases (ltb h lo)) [
    | inl low ↦ stopped (ground arith) (ok_same (rw (low, walk) at e))
    | inr high ↦ elim (Bool-cases (ltb 1 (length (HeightMap.get m h)))) [
      | inl several ↦
          elim (Bool-cases (
            length (pick hash prev_hash prev (HeightMap.get m h) (HeightMap.get m h) count).0
            == 1)) [
              | inl one ↦
                  chosen (ground arith) (ground arith) (ground arith)
                    (rw (high, several, one, walk) at e)
              | inr no_parent ↦ absurd (err_ok (rw (high, several, no_parent, walk) at e))
            ]
      | inr few ↦ single (ground arith) (ground arith) (rw (high, few, walk) at e)
    ]
  ]

  pub same_map :
      (r : ℕ × HeightMap H) (count : ℕ) (m : HeightMap H) (j : ℕ)
      → r ≡ (count, m)
      → HeightMap.get r.1 j ≡ HeightMap.get m j
  same_map r count m j e = ap (λ (p : ℕ × HeightMap H). HeightMap.get p.1 j) e

  pub walk_none :
      (lo : ℕ) (prev : Uint256) (m : HeightMap H) (count : ℕ) (r : ℕ × HeightMap H)
      → walk hash prev_hash lo zero prev m count ≡ ok r
      → r ≡ (count, m)
  unfolding walk
  walk_none lo prev m count r e = ok_same e

  -- The walk leaves the heights from its start on as they are.
  pub walk_above :
      (lo n : ℕ) (prev : Uint256) (m : HeightMap H) (count : ℕ) (r : ℕ × HeightMap H)
      → walk hash prev_hash lo n prev m count ≡ ok r
      → (j : ℕ) → n ≤ j
      → HeightMap.get r.1 j ≡ HeightMap.get m j
  walk_above lo zero prev m count r e j hj = same_map r count m j (walk_none lo prev m count r e)
  walk_above lo (suc h) prev m count r e j hj = elim (walk_step lo h prev m count r e) [
    | stopped low same ↦ same_map r count m j same
    | chosen high several one rest ↦
        walk_above lo h _ _ _ r rest j (omega arith) ∙ HeightMap.get-put_ne m h j _ (omega arith)
    | single high few rest ↦ walk_above lo h _ _ _ r rest j (omega arith)
  ]

  pub walk_single :
      (lo n : ℕ) (prev : Uint256) (m : HeightMap H) (count : ℕ) (r : ℕ × HeightMap H) (j : ℕ)
      → walk hash prev_hash lo n prev m count ≡ ok r
      → j < n
      → (j < lo → HeightMap.get m j ≡ [])
      → length (HeightMap.get r.1 j) ≤ 1
  walk_single lo zero prev m count r j e hj low_empty = absurd (omega arith)
  walk_single lo (suc h) prev m count r j e hj low_empty = elim (walk_step lo h prev m count r e) [
    | stopped low same ↦ rw (same_map r count m j same) (rw (low_empty (omega arith)) (omega arith))
    | chosen high several one rest ↦ elim (dec_le h j) [
      | yes here ↦
          let at_h : j ≡ h = omega arith in
          rw at_h (
            rw (walk_above lo h _ _ _ r rest h (omega arith))
              (rw (HeightMap.get-put_self m h _) (omega arith)))
      | no there ↦
          walk_single lo h _ _ _ r j rest (omega arith)
            (λ l. HeightMap.get-put_ne m h j _ (omega arith) ∙ low_empty l)
    ]
    | single high few rest ↦ elim (dec_le h j) [
      | yes here ↦
          let at_h : j ≡ h = omega arith in
          rw at_h (rw (walk_above lo h _ _ _ r rest h (omega arith)) few)
      | no there ↦ walk_single lo h _ _ _ r j rest (omega arith) low_empty
    ]
  ]

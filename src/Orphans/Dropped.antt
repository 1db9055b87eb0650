-- ===== src/Orphans/Dropped.antt =====
-- The lowest and the highest height of a map, and the map after the split heights at its top are dropped.
use blkchain.Prelude.{
  ℕ, zero, suc, ◌≤◌, ◌<◌, ◌≡◌, ◌⊎◌, inl, inr, refl, ◌∙◌, none, some, List, [], ◌∷◌, length, ltb,
  not, ◌&&◌, if◌then◌else◌, Bool-cases, Option-cases, arith,
}
use native.Mathlib.Decide.{dec_le}
use blkchain.HeightMap
use blkchain.HeightMap.{HeightMap}
use blkchain.Orphans.{Bounds, widen, find_bounds, drop_split}

abbrev pub no_bounds : Bounds
no_bounds = record { min_height = none; max_height = none; count = 0 }

module _ {H : Type 0} where
  min_le :
      (b : Bounds) (m : HeightMap H) (lo l : ℕ)
      → (find_bounds b m).min_height ≡ some lo
      → b.min_height ≡ some l
      → lo ≤ l
  unfolding find_bounds
  min_le b [] lo l e f = ground arith
  min_le b ((k, v) ∷ m) lo l e f =
      let next : (widen b k v).min_height ≡ some (if ltb k l then k else l) =
        unfold widen in rw f refl in
      ground (arith, min_le (widen b k v) m lo (if ltb k l then k else l) e next)

  le_max :
      (b : Bounds) (m : HeightMap H) (hi l : ℕ)
      → (find_bounds b m).max_height ≡ some hi
      → b.max_height ≡ some l
      → l ≤ hi
  unfolding find_bounds
  le_max b [] hi l e f = ground arith
  le_max b ((k, v) ∷ m) hi l e f =
      let next : (widen b k v).max_height ≡ some (if ltb l k then k else l) =
        unfold widen in rw f refl in
      ground (arith, le_max (widen b k v) m hi (if ltb l k then k else l) e next)

  widen-min :
      (b : Bounds) (k : ℕ) (v : List H) → (l : ℕ) × ((widen b k v).min_height ≡ some l) × (l ≤ k)
  unfolding widen
  widen-min b k v = elim (Option-cases b.min_height) [
    | inl e ↦ (k, rw e refl, omega arith)
    | inr (l, e) ↦ (if ltb k l then k else l, rw e refl, ground arith)
  ]

  widen-max :
      (b : Bounds) (k : ℕ) (v : List H) → (l : ℕ) × ((widen b k v).max_height ≡ some l) × (k ≤ l)
  unfolding widen
  widen-max b k v = elim (Option-cases b.max_height) [
    | inl e ↦ (k, rw e refl, omega arith)
    | inr (l, e) ↦ (if ltb l k then k else l, rw e refl, ground arith)
  ]

  pub below_min :
      (b : Bounds) (m : HeightMap H) (lo j : ℕ)
      → (find_bounds b m).min_height ≡ some lo
      → j < lo
      → HeightMap.get m j ≡ []
  unfolding find_bounds HeightMap.get
  below_min b [] lo j e h = refl
  below_min b ((k, v) ∷ m) lo j e h =
      let (l, at_l, le) = widen-min b k v in
      ground (arith, min_le (widen b k v) m lo l e at_l, below_min (widen b k v) m lo j e h)

  pub above_max :
      (b : Bounds) (m : HeightMap H) (hi j : ℕ)
      → (find_bounds b m).max_height ≡ some hi
      → hi < j
      → HeightMap.get m j ≡ []
  unfolding find_bounds HeightMap.get
  above_max b [] hi j e h = refl
  above_max b ((k, v) ∷ m) hi j e h =
      let (l, at_l, le) = widen-max b k v in
      ground (arith, le_max (widen b k v) m hi l e at_l, above_max (widen b k v) m hi j e h)

  -- What is left when the split heights at the top are dropped.
  pub record Dropped (lo n : ℕ) (m : HeightMap H) (r : ℕ × HeightMap H) : Type 0 where
    pub bound : r.0 ≤ n
    pub kept : (j : ℕ) → j < r.0 → HeightMap.get r.1 j ≡ HeightMap.get m j
    pub gone : (j : ℕ) → r.0 ≤ j → (n ≤ j → HeightMap.get m j ≡ []) → HeightMap.get r.1 j ≡ []
    pub settled : (h : ℕ) → r.0 ≡ suc h → (length (HeightMap.get r.1 h) ≤ 1) ⊎ (h < lo)

  pub drop_split-Dropped : (lo n : ℕ) (m : HeightMap H) → Dropped lo n m (drop_split lo n m)
  unfolding drop_split
  drop_split-Dropped lo zero m = record {
    bound = omega arith;
    kept = λ j h. absurd (omega arith);
    gone = λ j h f. f h;
    settled = λ h e. absurd (omega arith);
  }
  drop_split-Dropped lo (suc h) m =
      elim (Bool-cases (ltb 1 (length (HeightMap.get m h)) && not (ltb h lo))) [
        | inl split ↦
            rw (split, drop_split)
              (dropped_more lo h m (drop_split-Dropped lo h (HeightMap.delete m h)))
        | inr one ↦
            rw (one, drop_split)
              (record {
                bound = omega arith;
                kept = λ j lt. refl;
                gone = λ j le f. f le;
                settled = λ k e. let same : k ≡ h = omega arith in rw same (ground arith);
              })
      ]
    where
      dropped_more :
          (lo h : ℕ) (m : HeightMap H)
          → Dropped lo h (HeightMap.delete m h) (drop_split lo h (HeightMap.delete m h))
          → Dropped lo (suc h) m (drop_split lo h (HeightMap.delete m h))
      dropped_more lo h m d = record {
        bound = omega (arith, d.bound);
        kept = λ j lt. d.kept j lt ∙ HeightMap.get-delete_ne m h j (omega (arith, d.bound));
        gone = λ j le f. d.gone j le (λ above. elim (dec_le (suc h) j) [
          | yes more ↦ HeightMap.get-delete_ne m h j (omega arith) ∙ f more
          | no here ↦ let same : j ≡ h = omega arith in rw same (HeightMap.get-delete_self m h)
        ]);
        settled = d.settled;
      }

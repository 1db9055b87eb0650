-- ===== src/Orphans/Unique.antt =====
-- What a successful elimination leaves at the heights of the whole map.
use blkchain.Prelude.{
  ℕ, zero, suc, ◌≤◌, ◌<◌, ◌≡◌, ◌≢◌, ◌⊎◌, inl, inr, refl, sym, ap, ◌∙◌, some, List, [], ◌∷◌, length,
  Option-cases, arith,
}
use native.Mathlib.Decide.{dec_le}
use blkchain.Io.{ok, err, index_range}
use blkchain.Uint256.{Uint256}
use blkchain.HeightMap
use blkchain.HeightMap.{HeightMap}
use blkchain.Orphans.{
  find_bounds, drop_split, walk, walk_down, eliminate_between, eliminate_orphans,
}
use blkchain.Orphans.Walk.{err_ok, walk_above, walk_single}
use blkchain.Orphans.Linked.{In, Nearest, walk_linked}
use blkchain.Orphans.Dropped.{Dropped, drop_split-Dropped, below_min, above_max, no_bounds}

module _ {H : Type 0} (hash prev_hash : H → Uint256) where
  -- How a run that does not fail goes.
  record Ran (m : HeightMap H) (r : ℕ × HeightMap H) : Type 0 where
    lo : ℕ
    hi : ℕ
    h : ℕ
    b : H
    rest : List H
    low : (find_bounds no_bounds m).min_height ≡ some lo
    high : (find_bounds no_bounds m).max_height ≡ some hi
    top : (drop_split lo (suc hi) m).0 ≡ suc h
    first : HeightMap.get (drop_split lo (suc hi) m).1 h ≡ b ∷ rest
    walked :
        walk hash prev_hash lo h
          (prev_hash b)
          (drop_split lo (suc hi) m).1
          (find_bounds no_bounds m).count
        ≡ ok r

  list_cases : (bhs : List H) → (bhs ≡ []) ⊎ ((b : H) × (rest : List H) × (bhs ≡ b ∷ rest))
  list_cases [] = inl refl
  list_cases (b ∷ rest) = inr (b, rest, refl)

  run_down :
      (m : HeightMap H) (lo top count : ℕ) (r : ℕ × HeightMap H)
      → walk_down hash prev_hash lo top m count ≡ ok r
      → (h : ℕ) × (b : H) × (rest : List H) × (top ≡ suc h)
        × (HeightMap.get m h ≡ b ∷ rest)
        × (walk hash prev_hash lo h (prev_hash b) m count ≡ ok r)
  unfolding walk_down
  run_down m lo zero count r e = absurd (err_ok e)
  run_down m lo (suc h) count r e = elim (list_cases (HeightMap.get m h)) [
    | inl empty ↦ absurd (err_ok (rw (empty, walk_down) at e))
    | inr (b, rest, at_h) ↦ (h, b, rest, refl, at_h, rw (at_h, walk_down) at e)
  ]

  ran :
      (m : HeightMap H) (r : ℕ × HeightMap H) → eliminate_orphans hash prev_hash m ≡ ok r → Ran m r
  unfolding eliminate_orphans eliminate_between
  ran m r e = elim (Option-cases (find_bounds no_bounds m).min_height) [
    | inl none_lo ↦ absurd (err_ok (rw (none_lo, eliminate_between) at e))
    | inr (lo, at_lo) ↦ elim (Option-cases (find_bounds no_bounds m).max_height) [
      | inl none_hi ↦ absurd (err_ok (rw (at_lo, none_hi, eliminate_between) at e))
      | inr (hi, at_hi) ↦
          let dropped = drop_split lo (suc hi) m in
          let (h, b, rest, top, first, walked) =
            run_down dropped.1 lo dropped.0 _ r (rw (at_lo, at_hi, eliminate_between) at e) in
          record {
            lo = lo;
            hi = hi;
            h = h;
            b = b;
            rest = rest;
            low = at_lo;
            high = at_hi;
            top = top;
            first = first;
            walked = walked;
          }
    ]
  ]

  -- Below the lowest height nothing stands, also after the split heights are dropped.
  low_empty :
      (m : HeightMap H) (r : ℕ × HeightMap H) (run : Ran m r) (j : ℕ)
      → j ≤ run.h
      → j < run.lo
      → HeightMap.get (drop_split run.lo (suc run.hi) m).1 j ≡ []
  low_empty m r run j hj low =
      (drop_split-Dropped run.lo (suc run.hi) m).kept j (omega (arith, run.top))
      ∙ below_min no_bounds m run.lo j run.low low

  -- One header stands at the height where the walk starts.
  top_one :
      (m : HeightMap H) (r : ℕ × HeightMap H) (run : Ran m r)
      → (run.lo ≤ run.h) × (HeightMap.get r.1 run.h ≡ run.b ∷ [])
  top_one m r run =
      let at_top = run.first in
      let above = walk_above hash prev_hash run.lo run.h _ _ _ r run.walked run.h (omega arith) in
      elim (dec_le run.lo run.h) [
        | no low ↦
            absurd (cons_nil (sym at_top ∙ low_empty m r run run.h (omega arith) (omega arith)))
        | yes high ↦ elim ((drop_split-Dropped run.lo (suc run.hi) m).settled run.h run.top) [
          | inl few ↦ (high, above ∙ at_top ∙ few_rest run.b run.rest (rw at_top at few))
          | inr low ↦ absurd (omega arith)
        ]
      ]
    where
      cons_nil : {b : H} {rest : List H} → b ∷ rest ≡ [] → ⊥
      cons_nil e = cc

      few_rest : (b : H) (rest : List H) → length (b ∷ rest) ≤ 1 → b ∷ rest ≡ b ∷ []
      few_rest b [] few = refl
      few_rest b (c ∷ rest) few = absurd (omega arith)

  top_few :
      (m : HeightMap H) (r : ℕ × HeightMap H) (run : Ran m r) → length (HeightMap.get m run.h) ≤ 1
  top_few m r run =
      let d = drop_split-Dropped run.lo (suc run.hi) m in
      elim (d.settled run.h run.top) [
        | inl few ↦ rw (sym (d.kept run.h (omega (arith, run.top)))) few
        | inr low ↦ absurd (omega (arith, (top_one m r run).0))
      ]

  above_empty :
      (m : HeightMap H) (r : ℕ × HeightMap H) (run : Ran m r) (j : ℕ)
      → run.h < j
      → HeightMap.get r.1 j ≡ []
  above_empty m r run j hj =
      walk_above hash prev_hash run.lo run.h _ _ _ r run.walked j (omega arith)
      ∙ (drop_split-Dropped run.lo (suc run.hi) m).gone j (omega (arith, run.top))
          (λ above. above_max no_bounds m run.hi j run.high above)

  -- When the elimination of orphans succeeds, no height has more than one header.
  pub eliminate_orphans-one :
      (m : HeightMap H) (r : ℕ × HeightMap H) (j : ℕ)
      → eliminate_orphans hash prev_hash m ≡ ok r
      → length (HeightMap.get r.1 j) ≤ 1
  eliminate_orphans-one m r j e =
      let run = ran m r e in
      elim (dec_le run.h j) [
        | no below ↦
            walk_single hash prev_hash run.lo run.h _ _ _ r j run.walked (omega arith)
              (λ low. low_empty m r run j (omega arith) low)
        | yes here ↦ elim (dec_le j run.h) [
          | no above ↦ rw (above_empty m r run j (omega arith)) (omega arith)
          | yes same ↦
              let at_h : j ≡ run.h = omega arith in rw at_h (rw ((top_one m r run).1) (omega arith))
        ]
      ]

  -- When the elimination of orphans succeeds, a height that had several headers has none, or it
  -- has one of them, whose hash is the one that the next header above it names as its parent: the
  -- heights between them have no headers.
  pub eliminate_orphans-linked :
      (m : HeightMap H) (r : ℕ × HeightMap H) (j : ℕ)
      → eliminate_orphans hash prev_hash m ≡ ok r
      → 1 < length (HeightMap.get m j)
      → (HeightMap.get r.1 j ≡ [])
        ⊎ ((b : H) × (HeightMap.get r.1 j ≡ b ∷ [])
            × In b (HeightMap.get m j)
            × Nearest hash prev_hash r.1 (suc j) (hash b))
  eliminate_orphans-linked m r j e several =
      let run = ran m r e in
      let same = (drop_split-Dropped run.lo (suc run.hi) m).kept j in
      elim (dec_le run.h j) [
        | no below ↦
            let old = same (omega (arith, run.top)) in
            let there : run.lo ≤ j = elim (dec_le run.lo j) [
              | yes high ↦ high
              | no low ↦
                  absurd (
                    omega (arith, ap length (below_min no_bounds m run.lo j run.low (omega arith))))
            ] in
            inr (
              rw old at (
                walk_linked hash prev_hash run.lo run.h _ _ _ r j run.walked (near m r run)
                  (omega arith) there (rw old several)))
        | yes here ↦ elim (dec_le j run.h) [
          | no above ↦ inl (above_empty m r run j (omega arith))
          | yes at_top ↦
              let at_h : j ≡ run.h = omega arith in
              absurd
                (omega (arith, top_few m r run, ap (λ (i : ℕ). length (HeightMap.get m i)) at_h))
        ]
      ]
    where
      near :
          (m : HeightMap H) (r : ℕ × HeightMap H) (run : Ran m r)
          → Nearest hash prev_hash r.1 run.h (prev_hash run.b)
      near m r run = record {
        height = run.h;
        child = run.b;
        above = omega arith;
        there = (top_one m r run).1;
        between = λ i lo hi. absurd (omega arith);
        names = refl;
      }

  -- When no height has exactly one header, as on an empty map, the elimination of orphans panics
  -- with an index out of range.
  pub eliminate_orphans-index_range :
      (m : HeightMap H)
      → ((j : ℕ) → length (HeightMap.get m j) ≢ 1)
      → eliminate_orphans hash prev_hash m ≡ err index_range
  unfolding eliminate_orphans eliminate_between walk_down
  eliminate_orphans-index_range m never = elim (Option-cases (find_bounds no_bounds m).min_height) [
    | inl none_lo ↦ rw (none_lo, eliminate_between) refl
    | inr (lo, at_lo) ↦ elim (Option-cases (find_bounds no_bounds m).max_height) [
      | inl none_hi ↦ rw (at_lo, none_hi, eliminate_between) refl
      | inr (hi, at_hi) ↦
          rw (at_lo, at_hi, eliminate_between)
            (no_top m lo (suc hi) _ never (λ j low. below_min no_bounds m lo j at_lo low)
              (drop_split lo (suc hi) m) (drop_split-Dropped lo (suc hi) m))
    ]
  ]
    where
      at_empty :
          (m : HeightMap H) (lo h count : ℕ)
          → HeightMap.get m h ≡ []
          → walk_down hash prev_hash lo (suc h) m count ≡ err index_range
      at_empty m lo h count e = rw (e, walk_down) refl

      is_empty : (bhs : List H) → length bhs ≤ 1 → length bhs ≢ 1 → bhs ≡ []
      is_empty [] few ne = refl
      is_empty (b ∷ bhs) few ne = absurd (ground arith)

      no_top :
          (m : HeightMap H) (lo n count : ℕ)
          → ((j : ℕ) → length (HeightMap.get m j) ≢ 1)
          → ((j : ℕ) → j < lo → HeightMap.get m j ≡ [])
          → (r : ℕ × HeightMap H) → Dropped lo n m r
          → walk_down hash prev_hash lo r.0 r.1 count ≡ err index_range
      no_top m lo n count never low (zero, m') d = refl
      no_top m lo n count never low (suc h, m') d =
          let old : HeightMap.get m' h ≡ HeightMap.get m h = d.kept h (omega arith) in
          at_empty m' lo h count (elim (d.settled h refl) [
            | inl few ↦ is_empty (HeightMap.get m' h) few (rw old (never h))
            | inr below ↦ old ∙ low h below
          ])

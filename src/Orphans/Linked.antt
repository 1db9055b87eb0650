-- ===== src/Orphans/Linked.antt =====
-- A header that is chosen among several has the hash that its nearest descendant names.
use blkchain.Prelude.{
  ℕ, zero, suc, ◌-◌, ◌≤◌, ◌<◌, ◌≡◌, ◌⊎◌, inl, inr, refl, ap, ◌∙◌, some, List, [], ◌∷◌, length,
  get_elem?, bytes_eq, bytes_eq_sound, Bool-cases, arith,
}
use native.Mathlib.Decide.{dec_le}
use blkchain.Io.{ok}
use blkchain.Uint256.{Uint256}
use blkchain.HeightMap
use blkchain.HeightMap.{HeightMap}
use blkchain.Orphans.{pick, next_prev, walk}
use blkchain.Orphans.Walk.{stopped, chosen, single, walk_step, walk_above}

-- The header stands in the list.
abbrev pub In : {H : Type 0} → H → List H → Type 0
In b bhs = (i : ℕ) × (get_elem? bhs i ≡ some b)

module _ {H : Type 0} (hash prev_hash : H → Uint256) where
  -- `prev` is what the nearest header at the height `n` or above names as its parent.
  pub record Nearest (m : HeightMap H) (n : ℕ) (prev : Uint256) : Type 0 where
    pub height : ℕ
    pub child : H
    pub above : n ≤ height
    pub there : HeightMap.get m height ≡ child ∷ []
    pub between : (i : ℕ) → n ≤ i → i < height → HeightMap.get m i ≡ []
    pub names : prev ≡ prev_hash child

  pick_cases :
      (prev : Uint256) (bhs kept : List H) (count : ℕ)
      → ((pick hash prev_hash prev bhs kept count).0 ≡ kept)
        ⊎ ((b : H) × ((pick hash prev_hash prev bhs kept count).0 ≡ b ∷ [])
            × In b bhs
            × (hash b ≡ prev))
  unfolding pick
  pick_cases prev [] kept count = inl refl
  pick_cases prev (bh ∷ bhs) kept count = elim (Bool-cases (bytes_eq (hash bh) prev)) [
    | inl found ↦ elim (pick_cases prev bhs (bh ∷ []) count) [
      | inl last ↦ inr (bh, rw (found, pick) last, (0, refl), bytes_eq_sound (hash bh) prev found)
      | inr (b, only, (i, at_i), same) ↦ inr (b, rw (found, pick) only, (suc i, at_i), same)
    ]
    | inr other ↦ elim (pick_cases prev bhs kept (count - 1)) [
      | inl last ↦ inl (rw (other, pick) last)
      | inr (b, only, (i, at_i), same) ↦ inr (b, rw (other, pick) only, (suc i, at_i), same)
    ]
  ]

  -- The header that `pick` leaves when it leaves one of several.
  picked :
      (prev : Uint256) (bhs : List H) (count : ℕ)
      → 1 < length bhs
      → length (pick hash prev_hash prev bhs bhs count).0 ≡ 1
      → (b : H) × ((pick hash prev_hash prev bhs bhs count).0 ≡ b ∷ []) × In b bhs × (hash b ≡ prev)
  picked prev bhs count several one = elim (pick_cases prev bhs bhs count) [
    | inl same ↦ absurd (omega (arith, ap length same))
    | inr found ↦ found
  ]

  Nearest-next :
      (m : HeightMap H) (h : ℕ) (prev : Uint256) (bhs : List H)
      → HeightMap.get m h ≡ bhs
      → length bhs ≤ 1
      → Nearest m (suc h) prev
      → Nearest m h (next_prev hash prev_hash bhs prev)
  unfolding next_prev
  Nearest-next m h prev [] e few near = record {
    height = near.height;
    child = near.child;
    above = omega (arith, near.above);
    there = near.there;
    between = λ i lo hi. elim (dec_le (suc h) i) [
      | yes more ↦ near.between i more hi
      | no here ↦ let same : i ≡ h = omega arith in rw same e
    ];
    names = near.names;
  }
  Nearest-next m h prev (d ∷ []) e few near = record {
    height = h;
    child = d;
    above = omega arith;
    there = e;
    between = λ i lo hi. absurd (omega arith);
    names = refl;
  }
  Nearest-next m h prev (d ∷ c ∷ ds) e few near = absurd (omega arith)

  pub walk_linked :
      (lo n : ℕ) (prev : Uint256) (m : HeightMap H) (count : ℕ) (r : ℕ × HeightMap H) (j : ℕ)
      → walk hash prev_hash lo n prev m count ≡ ok r
      → Nearest r.1 n prev
      → j < n
      → lo ≤ j
      → 1 < length (HeightMap.get m j)
      → (b : H) × (HeightMap.get r.1 j ≡ b ∷ [])
        × In b (HeightMap.get m j)
        × Nearest r.1 (suc j) (hash b)
  walk_linked lo zero prev m count r j e near hj hlo several = absurd (omega arith)
  walk_linked lo (suc h) prev m count r j e near hj hlo several_j =
      elim (walk_step hash prev_hash lo h prev m count r e) [
        | stopped low same ↦ absurd (omega arith)
        | chosen high several one rest ↦
            let kept = (pick hash prev_hash prev (HeightMap.get m h) (HeightMap.get m h) count).0 in
            let at_h : HeightMap.get r.1 h ≡ kept =
              walk_above hash prev_hash lo h _ _ _ r rest h (omega arith)
              ∙ HeightMap.get-put_self m h kept in
            elim (dec_le h j) [
              | yes here ↦
                  let same_height : j ≡ h = omega arith in
                  let (b, only, mem, same) = picked prev (HeightMap.get m h) count several one in
                  rw same_height (b, at_h ∙ only, mem, rw same near)
              | no there ↦
                  let other : HeightMap.get (HeightMap.put m h kept) j ≡ HeightMap.get m j =
                    HeightMap.get-put_ne m h j kept (omega arith) in
                  rw other at (
                    walk_linked lo h _ _ _ r j rest
                      (Nearest-next r.1 h prev kept at_h (omega arith) near) (omega arith) hlo
                      (rw other several_j))
            ]
        | single high few rest ↦ elim (dec_le h j) [
          | yes here ↦
              let same : j ≡ h = omega arith in
              absurd (omega (arith, ap (λ (i : ℕ). length (HeightMap.get m i)) same))
          | no there ↦
              walk_linked lo h _ _ _ r j rest
                (Nearest-next r.1 h prev (HeightMap.get m h)
                  (walk_above hash prev_hash lo h _ _ _ r rest h (omega arith)) few near)
                (omega arith) hlo several_j
        ]
      ]

-- ===== src/BtcNode/Headers/Heights.antt =====
-- The heights that `setChildrenHeight` of btcnode/btcnode.go gives to the headers of a node.
use blkchain.Prelude.{
  ℕ, zero, suc, ◌+◌, ◌≤◌, ◌<◌, ◌≡◌, refl, sym, ap, ◌∙◌, subst, Option, some, List, [], ◌∷◌, All,
  Bool-cases, ==_refl, ◌==◌, ◌⊎◌, inl, inr, arith,
}
use blkchain.Uint256.{Uint256}
use blkchain.BtcNode.Headers.{ByPrev, children, Store, set_height, each, set_children}

each-cons :
    (f : ℕ → Store → Option Store) (i : ℕ) (is : List ℕ) (st st₁ st₂ : Store)
    → f i st ≡ some st₁
    → each f is st₁ ≡ some st₂
    → each f (i ∷ is) st ≡ some st₂
unfolding each
each-cons f i is st st₁ st₂ e k = rw (e, each) k

module _ (hash_of : ℕ → Uint256) (m : ByPrev) where
  -- A header whose chain of parents leads to one of the headers.
  pub data Reached : List ℕ → ℕ → Type 0 where
    here : {i : ℕ} {is : List ℕ} → Reached (i ∷ is) i
    there : {i j : ℕ} {is : List ℕ} → Reached is j → Reached (i ∷ is) j
    below : {i j : ℕ} {is : List ℕ} → Reached (children m (hash_of i)) j → Reached (i ∷ is) j

  -- Each child of a hash is one height above it, and no height is above `top`.
  abbrev pub IsNext : (Uint256 → ℕ) → ℕ → Uint256 → ℕ → Type 0
  IsNext true_height top hash i =
      (true_height (hash_of i) ≡ suc (true_height hash)) × (true_height (hash_of i) ≤ top)

  module _ (true_height : Uint256 → ℕ) (top : ℕ)
      (next : (hash : Uint256) → All (IsNext true_height top hash) (children m hash)) where
    -- The headers that are reached have their heights, and no other header has another than before.
    abbrev pub Given : List ℕ → Store → Store → Type 0
    Given is st st' =
        (j : ℕ)
        → (Reached is j → st' j ≡ true_height (hash_of j))
          × ((st' j ≡ st j) ⊎ (st' j ≡ true_height (hash_of j)))

    kept :
        (st₁ st₂ : Store) (j : ℕ)
        → (st₂ j ≡ st₁ j) ⊎ (st₂ j ≡ true_height (hash_of j))
        → st₁ j ≡ true_height (hash_of j)
        → st₂ j ≡ true_height (hash_of j)
    kept st₁ st₂ j (inl p) h = p ∙ h
    kept st₁ st₂ j (inr p) h = p

    none_reached : (j : ℕ) {A : Type 0} → Reached [] j → A
    none_reached j r = elim r [ ]

    set_height-cases :
        (st : Store) (i j h : ℕ)
        → (set_height st i h j ≡ st j) ⊎ ((j ≡ i) × (set_height st i h j ≡ h))
    set_height-cases st i j h = elim (Bool-cases (j == i)) [
      | inl e ↦ inr (ground arith, rw (e) refl)
      | inr e ↦ inl (rw (e) refl)
    ]

    reached :
        (i : ℕ) (is : List ℕ) (h : ℕ) (st st₁ st₂ : Store) (j : ℕ)
        → true_height (hash_of i) ≡ h
        → Given (children m (hash_of i)) (set_height st i h) st₁
        → Given is st₁ st₂
        → Reached (i ∷ is) j
        → st₂ j ≡ true_height (hash_of j)
    reached i is h st st₁ st₂ j e g k (there r) = (k j).0 r
    reached i is h st st₁ st₂ j e g k (below r) = kept st₁ st₂ j (k j).1 ((g j).0 r)
    reached i is h st st₁ st₂ j e g k here =
        kept st₁ st₂ i (k i).1
          (elim (g i).1 [ inr q ↦ q | inl q ↦ q ∙ (rw (==_refl i) refl ∙ sym e) ])

    Given-cons :
        (i : ℕ) (is : List ℕ) (h : ℕ) (st st₁ st₂ : Store)
        → true_height (hash_of i) ≡ h
        → Given (children m (hash_of i)) (set_height st i h) st₁
        → Given is st₁ st₂
        → Given (i ∷ is) st st₂
    Given-cons i is h st st₁ st₂ e g k j = (reached i is h st st₁ st₂ j e g k, changed)
      where
        changed : (st₂ j ≡ st j) ⊎ (st₂ j ≡ true_height (hash_of j))
        changed = elim (k j).1 [
          | inr q ↦ inr q
          | inl p ↦ elim (g j).1 [
            | inr q ↦ inr (p ∙ q)
            | inl q ↦ elim (set_height-cases st i j h) [
              | inl u ↦ inl (p ∙ (q ∙ u))
              | inr (v, u) ↦
                  inr (p ∙ (q ∙ (u ∙ (sym e ∙ ap (λ x. true_height (hash_of x)) (sym v)))))
            ]
          ]
        ]

    each-Given :
        (fuel : ℕ) (hash : Uint256) (is : List ℕ) (st : Store)
        → top < fuel + suc (true_height hash)
        → All (IsNext true_height top hash) is
        → (st' : Store) × (each
              (λ i s.
                set_children hash_of m fuel
                  (suc (true_height hash))
                  (hash_of i)
                  (set_height s i (suc (true_height hash))))
              is
              st
            ≡ some st')
          × Given is st st'
    unfolding each set_children
    each-Given fuel hash [] st h all = (st, refl, λ j. ((λ r. none_reached j r), inl refl))
    each-Given zero hash (i ∷ is) st h all = absurd (omega (arith, h, all.0.0, all.0.1))
    each-Given (suc f) hash (i ∷ is) st h all =
        let up = all.0.0 in
        let st0 = set_height st i (suc (true_height hash)) in
        let (st₁, e₁, g) =
          each-Given f (hash_of i) (children m (hash_of i)) st0 (omega (arith, h, up))
            (next (hash_of i)) in
        let (st₂, e₂, k) = each-Given (suc f) hash is st₁ h all.1 in
        let e =
          subst
            (λ (x : ℕ).
              each (λ d s. set_children hash_of m f (suc x) (hash_of d) (set_height s d (suc x)))
                (children m (hash_of i)) st0
              ≡ some st₁)
            up e₁ in
        (
          st₂,
          each-cons _ i is st st₁ st₂ e e₂,
          Given-cons i is (suc (true_height hash)) st st₁ st₂ up g k,
        )

    -- When every header that names a hash as its parent is one height above it, and no height is
    -- above a bound, then the heights are set from a hash down without fail if the calls may nest
    -- as deep as the bound is above the height of the hash, and once more: each header whose chain
    -- of parents leads to the hash gets its height, and every other one keeps what it had or gets
    -- its height.
    pub set_children-Given :
        (fuel : ℕ) (hash : Uint256) (st : Store)
        → top ≤ fuel + true_height hash
        → (st' : Store) × (set_children hash_of m (suc fuel) (true_height hash) hash st ≡ some st')
          × Given (children m hash) st st'
    unfolding set_children
    set_children-Given fuel hash st h =
        each-Given fuel hash (children m hash) st (omega (arith, h)) (next hash)

-- ===== src/Index/Order.antt =====
-- `processBlocks` writes the blocks of an index height by height.
use blkchain.Prelude.{
  ℕ, zero, suc, ◌+◌, ◌-◌, ◌≤◌, ◌<◌, ◌≡◌, ◌≢◌, refl, sym, ap, ◌∙◌, Bool, true, false, some, List, [],
  ◌∷◌, ◌++◌, length, drop, get_elem?, append_assoc, append-nil, ltb, ◌==◌, Bool-cases, inl, inr,
  arith,
}
use blkchain.Io.{Result, ok}
use blkchain.HeightMap
use blkchain.HeightMap.{HeightMap}
use blkchain.Index.{Index, current, next, block_header, process_blocks}

module _ {H : Type 0} where
  drop_next :
      (n : ℕ) (xs ys : List H) (x : H)
      → drop n xs ≡ x ∷ ys
      → (get_elem? xs n ≡ some x) × (drop (suc n) xs ≡ ys) × (n < length xs)
  drop_next zero [] ys x e = absurd cc
  drop_next zero (z ∷ xs) ys x e = let whole : z ∷ xs ≡ x ∷ ys = e in (cc, cc, omega arith)
  drop_next (suc n) [] ys x e = absurd cc
  drop_next (suc n) (z ∷ xs) ys x e = let (a, b, c) = drop_next n xs ys x e in (a, b, omega arith)

  drop_end : (n : ℕ) (xs : List H) → drop n xs ≡ [] → length xs ≤ n
  drop_end zero [] e = omega arith
  drop_end zero (z ∷ xs) e = absurd cc
  drop_end (suc n) [] e = omega arith
  drop_end (suc n) (z ∷ xs) e = omega (arith, drop_end n xs e)

  -- The position `n` at the height below `above`.
  abbrev pub position : HeightMap H → ℕ → ℕ → ℕ → Index H
  position m above n count = record { m = m; above = above; n = n; count = count }

  -- How many rounds the headers of `k` heights take.
  unfoldable pub rounds : HeightMap H → ℕ → ℕ → ℕ
  rounds m h zero = 0
  rounds m h (suc k) = length (HeightMap.get m h) + rounds m (suc h) k

-- No interrupt at any time.
pub never : ℕ → Bool
never n = false

module _ {H : Type 0} {B : Type 0} (load : H → Result B) (block_of : H → B)
    (loads : (bh : H) → load bh ≡ ok (block_of bh)) where
  -- The blocks of headers at one height, with the height.
  unfoldable pub at_height : ℕ → List H → List (B × ℕ)
  at_height h [] = []
  at_height h (bh ∷ bhs) = (block_of bh, h) ∷ at_height h bhs

  -- The blocks of `k` heights from `h` on.
  pub upwards : HeightMap H → ℕ → ℕ → List (B × ℕ)
  upwards m h zero = []
  upwards m h (suc k) = at_height h (HeightMap.get m h) ++ upwards m (suc h) k

  next-same :
      (m : HeightMap H) (above n count : ℕ) (back : List H) (x : H)
      → length m ≢ 0
      → drop (suc n) (current (position m above n count)) ≡ x ∷ back
      → (next (position m above n count) ≡ (true, position m above (suc n) count))
        × (block_header (position m above (suc n) count) ≡ ok (some x))
        × (drop (suc (suc n)) (current (position m above (suc n) count)) ≡ back)
  unfolding next block_header current
  next-same m above n count back x some_height e =
      let cur = current (position m above n count) in
      let (at, left, lt) = drop_next (suc n) cur back x e in
      let some_m : (length m == 0) ≡ false = ground arith in
      let more : ltb (n + 1) (length cur) ≡ true = ground arith in
      let pos : ltb 0 (length cur) ≡ true = ground arith in
      (
        rw (some_m, more, next) (ap (λ (k : ℕ). (true, position m above k count)) (omega arith)),
        rw (pos, at, block_header) refl,
        left,
      )

  next-up :
      (m : HeightMap H) (above n count : ℕ) (back : List H) (x : H)
      → length m ≢ 0
      → drop (suc n) (current (position m above n count)) ≡ []
      → HeightMap.get m above ≡ x ∷ back
      → (next (position m above n count) ≡ (true, position m (suc above) 0 count))
        × (block_header (position m (suc above) 0 count) ≡ ok (some x))
        × (drop 1 (current (position m (suc above) 0 count)) ≡ back)
  unfolding next block_header current
  next-up m above n count back x some_height e up =
      let cur = current (position m above n count) in
      let end = drop_end (suc n) cur e in
      let some_m : (length m == 0) ≡ false = ground arith in
      let more : ltb (n + 1) (length cur) ≡ false = ground arith in
      let there : (length (x ∷ back) == 0) ≡ false = ground arith in
      let pos : ltb 0 (length (x ∷ back)) ≡ true = ground arith in
      (rw (some_m, more, up, there, next) refl, rw (up, pos, block_header) refl, ap (drop 1) up)

  next-end :
      (m : HeightMap H) (above n count : ℕ)
      → drop (suc n) (current (position m above n count)) ≡ []
      → HeightMap.get m above ≡ []
      → (next (position m above n count)).0 ≡ false
  unfolding next current
  next-end m above n count e up =
      let cur = current (position m above n count) in
      let end = drop_end (suc n) cur e in
      let more : ltb (n + 1) (length cur) ≡ false = ground arith in
      elim (Bool-cases (length m == 0)) [
        | inl no_height ↦ rw (no_height, next) refl
        | inr some_height ↦ rw (some_height, more, up, next) refl
      ]

  cons_case : (bhs : List H) → 0 < length bhs → (x : H) × (back : List H) × (bhs ≡ x ∷ back)
  cons_case [] h = absurd (omega arith)
  cons_case (x ∷ back) h = (x, back, refl)

  step_on :
      (fuel : ℕ) (ix ix' : Index H) (x : H) (written : List (B × ℕ))
      → next ix ≡ (true, ix')
      → block_header ix' ≡ ok (some x)
      → process_blocks load never (suc fuel) ix written
        ≡ process_blocks load never fuel ix' (written ++ (block_of x, ix'.above - 1) ∷ [])
  unfolding process_blocks never
  step_on fuel ix ix' x written s at =
      let more : (next ix).0 ≡ true = ap (λ (p : Bool × Index H). p.0) s in
      let moved : (next ix).1 ≡ ix' = ap (λ (p : Bool × Index H). p.1) s in
      ground (arith, more, moved, at, loads x)

  join :
      (written : List (B × ℕ)) (p : B × ℕ) (ys zs : List (B × ℕ))
      → written ++ p ∷ [] ++ (ys ++ zs) ≡ written ++ (p ∷ ys ++ zs)
  join written p ys zs = append_assoc written (p ∷ []) (ys ++ zs)

  join_up :
      (written : List (B × ℕ)) (x : H) (back : List H) (m : HeightMap H) (above k : ℕ)
      → HeightMap.get m above ≡ x ∷ back
      → written
          ++ (block_of x, suc above - 1) ∷ []
          ++ (at_height (suc above - 1) back ++ upwards m (suc above) k)
        ≡ written ++ upwards m above (suc k)
  unfolding upwards at_height
  join_up written x back m above k up =
      let down : suc above - 1 ≡ above = omega arith in
      rw (down, up)
        (join written (block_of x, above) (at_height above back) (upwards m (suc above) k))

  pub go_up :
      (k : ℕ) (m : HeightMap H) (above n count fuel : ℕ) (back : List H) (written : List (B × ℕ))
      → length m ≢ 0
      → drop (suc n) (current (position m above n count)) ≡ back
      → ((i : ℕ) → i < k → 0 < length (HeightMap.get m (above + i)))
      → HeightMap.get m (above + k) ≡ []
      → length back + rounds m above k < fuel
      → process_blocks load never fuel (position m above n count) written
        ≡ some (ok (written ++ (at_height (above - 1) back ++ upwards m above k)))
  unfolding process_blocks at_height upwards rounds never
  go_up k m above n count zero back written hm e full end hf = absurd (omega arith)
  go_up zero m above n count (suc fuel) [] written hm e full end hf =
      let stops = next-end m above n count e (ap (HeightMap.get m) (omega arith) ∙ end) in
      rw (stops, process_blocks) (ap (λ (w : List (B × ℕ)). some (ok w)) (sym (append-nil written)))
  go_up (suc k) m above n count (suc fuel) [] written hm e full end hf =
      let here : 0 < length (HeightMap.get m above) = rw base at (full 0 (omega arith)) in
      let (x, back, up) = cons_case (HeightMap.get m above) here in
      let (steps, at, left) = next-up m above n count back x hm e up in
      step_on fuel _ (position m (suc above) 0 count) x written steps at
      ∙ go_up k m (suc above) 0 count fuel back _ hm left
          (λ i lt. rw (shift i) (full (suc i) (omega arith))) (ap (HeightMap.get m) (shift k) ∙ end)
          (omega (arith, ap length up))
      ∙ ap (λ (w : List (B × ℕ)). some (ok w)) (join_up written x back m above k up)
    where
      shift : (i : ℕ) → suc above + i ≡ above + suc i
      shift i = omega arith

      base : above + 0 ≡ above
      base = omega arith
  go_up k m above n count (suc fuel) (x ∷ back) written hm e full end hf =
      let (steps, at, left) = next-same m above n count back x hm e in
      step_on fuel _ (position m above (suc n) count) x written steps at
      ∙ go_up k m above (suc n) count fuel back _ hm left full end (omega arith)
      ∙ ap (λ (w : List (B × ℕ)). some (ok w))
          (join written (block_of x, above - 1) (at_height (above - 1) back) (upwards m above k))

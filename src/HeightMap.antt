-- ===== src/HeightMap.antt =====
-- The maps from heights to the headers at a height, `map[int][]*H` of coredb/leveldb.go and
-- btcnode/btcnode.go: an association list; a missing height has the nil slice.
use blkchain.Prelude.{
  ℕ, ◌+◌, ◌≡◌, ◌≢◌, ==_refl, refl, ◌∙◌, Bool, true, false, List, [], ◌∷◌, ◌++◌, length, ◌==◌,
  if◌then◌else◌, arith, Bool-cases, inl, inr,
}

abbrev pub HeightMap : Type 0 → Type 0
HeightMap H = List (ℕ × List H)

module _ {H : Type 0} where
  -- `m[h]`.
  unfoldable pub get : HeightMap H → ℕ → List H
  get [] h = []
  get ((k, v) ∷ m) h = if k == h then v else get m h

  unfoldable pub has : HeightMap H → ℕ → Bool
  has [] h = false
  has ((k, v) ∷ m) h = if k == h then true else has m h

  -- `m[h] = v`.
  unfoldable pub put : HeightMap H → ℕ → List H → HeightMap H
  put [] h v = (h, v) ∷ []
  put ((k, w) ∷ m) h v = if k == h then (h, v) ∷ m else (k, w) ∷ put m h v

  -- `delete(m, h)`.
  unfoldable pub delete : HeightMap H → ℕ → HeightMap H
  delete [] h = []
  delete ((k, w) ∷ m) h = let rest = delete m h in if k == h then rest else (k, w) ∷ rest

  -- `if list, ok := m[h]; !ok { m[h] = []T{x} } else { m[h] = append(list, x) }`.
  unfoldable pub add : HeightMap H → ℕ → H → HeightMap H
  add m h x = if has m h then put m h (get m h ++ x ∷ []) else put m h (x ∷ [])

  -- The number of all headers.
  unfoldable pub total : HeightMap H → ℕ
  total [] = 0
  total ((k, v) ∷ m) = length v + total m

  pub get-put :
      (m : HeightMap H) (h j : ℕ) (v : List H) → get (put m h v) j ≡ (if h == j then v else get m j)
  unfolding get put
  get-put [] h j v = refl
  get-put ((k, w) ∷ m) h j v = ground (arith, get-put m h j v)

  pub get-put_self : (m : HeightMap H) (h : ℕ) (v : List H) → get (put m h v) h ≡ v
  get-put_self m h v = get-put m h h v ∙ rw (==_refl h) refl

  pub get-put_ne : (m : HeightMap H) (h j : ℕ) (v : List H) → h ≢ j → get (put m h v) j ≡ get m j
  get-put_ne m h j v ne = get-put m h j v ∙ ground arith

  pub get-delete :
      (m : HeightMap H) (h j : ℕ) → get (delete m h) j ≡ (if h == j then [] else get m j)
  unfolding get delete
  get-delete [] h j = ground arith
  get-delete ((k, w) ∷ m) h j = ground (arith, get-delete m h j)

  pub get-delete_self : (m : HeightMap H) (h : ℕ) → get (delete m h) h ≡ []
  get-delete_self m h = get-delete m h h ∙ rw (==_refl h) refl

  pub get-delete_ne : (m : HeightMap H) (h j : ℕ) → h ≢ j → get (delete m h) j ≡ get m j
  get-delete_ne m h j ne = get-delete m h j ∙ ground arith

  get_of_has : (m : HeightMap H) (h : ℕ) → has m h ≡ false → get m h ≡ []
  unfolding get has
  get_of_has [] h e = refl
  get_of_has ((k, w) ∷ m) h e = ground (arith, get_of_has m h)

  -- A header is appended to those at its height, and no other height changes.
  pub get-add :
      (m : HeightMap H) (h j : ℕ) (x : H)
      → get (add m h x) j ≡ (if h == j then get m h ++ x ∷ [] else get m j)
  unfolding add
  get-add m h j x = elim (Bool-cases (has m h)) [
    | inl old ↦ rw (old, add) (get-put m h j (get m h ++ x ∷ []))
    | inr new ↦ rw (new, add) (get-put m h j (x ∷ []) ∙ rw (get_of_has m h new) refl)
  ]

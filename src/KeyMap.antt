-- ===== src/KeyMap.antt =====
-- The maps from hash prefixes of db/txidcache.go: an association list with one entry a key.
use blkchain.Prelude.{
  ◌+◌, ◌≤◌, ◌<◌, ◌≡◌, refl, ◌∙◌, false, Option, none, some, List, [], ◌∷◌, length, bytes_eq,
  bytes_eq_sound, bytes_eq_refl, if◌then◌else◌, Bool-cases, inl, inr, arith,
}
use blkchain.Io.{Bytes}

abbrev pub KeyMap : Type 0 → Type 0
KeyMap V = List (Bytes × V)

bytes_eq_flip : (c d : Bytes) → bytes_eq c d ≡ false → bytes_eq d c ≡ false
bytes_eq_flip c d h = elim (Bool-cases (bytes_eq d c)) [
  | inr e ↦ e
  | inl e ↦
      let f : bytes_eq c c ≡ false = rw (bytes_eq_sound d c e) at h in
      let t = bytes_eq_refl c in absurd cc
]

module _ {V : Type 0} where
  -- `v, ok := m[k]`.
  unfoldable pub get : KeyMap V → Bytes → Option V
  get [] k = none
  get ((j, v) ∷ m) k = if bytes_eq j k then some v else get m k

  -- `m[k] = v`.
  unfoldable pub put : KeyMap V → Bytes → V → KeyMap V
  put [] k v = (k, v) ∷ []
  put ((j, w) ∷ m) k v = if bytes_eq j k then (j, v) ∷ m else (j, w) ∷ put m k v

  -- `delete(m, k)`.
  unfoldable pub delete : KeyMap V → Bytes → KeyMap V
  delete [] k = []
  delete ((j, w) ∷ m) k = let rest = delete m k in if bytes_eq j k then rest else (j, w) ∷ rest

  -- No key stands twice, so that the length is that of the Go map.
  abbrev pub IsMap : KeyMap V → Type 0
  IsMap [] = Unit
  IsMap ((j, w) ∷ m) = (get m j ≡ none) × IsMap m

  pub get-put_self : (m : KeyMap V) (k : Bytes) (v : V) → get (put m k v) k ≡ some v
  unfolding get put
  get-put_self [] k v = ground (arith, bytes_eq_refl k)
  get-put_self ((j, w) ∷ m) k v = ground (arith, get-put_self m k v)

  get-put_ne :
      (m : KeyMap V) (k i : Bytes) (v : V) → bytes_eq k i ≡ false → get (put m k v) i ≡ get m i
  unfolding get put
  get-put_ne [] k i v ne = ground arith
  get-put_ne ((j, w) ∷ m) k i v ne = elim (Bool-cases (bytes_eq j k)) [
    | inl same ↦
        let other : bytes_eq j i ≡ false = rw (bytes_eq_sound j k same) ne in
        rw (same, put) (rw (other, get) refl)
    | inr differ ↦ rw (differ, put) (ground (arith, get-put_ne m k i v ne))
  ]

  pub get-delete_self : (m : KeyMap V) (k : Bytes) → get (delete m k) k ≡ none
  unfolding get delete
  get-delete_self [] k = refl
  get-delete_self ((j, w) ∷ m) k = ground (arith, get-delete_self m k)

  pub get-delete-none : (m : KeyMap V) (k i : Bytes) → get m i ≡ none → get (delete m k) i ≡ none
  unfolding get delete
  get-delete-none [] k i e = refl
  get-delete-none ((j, w) ∷ m) k i e = ground (arith, get-delete-none m k i)

  pub delete-IsMap : (m : KeyMap V) (k : Bytes) → IsMap m → IsMap (delete m k)
  unfolding delete
  delete-IsMap [] k h = tt
  delete-IsMap ((j, w) ∷ m) k h = elim (Bool-cases (bytes_eq j k)) [
    | inl same ↦ rw (same, delete) (delete-IsMap m k h.1)
    | inr differ ↦ rw (differ, delete) (get-delete-none m k j h.0, delete-IsMap m k h.1)
  ]

  pub put-IsMap : (m : KeyMap V) (k : Bytes) (v : V) → IsMap m → IsMap (put m k v)
  unfolding put get
  put-IsMap [] k v h = (refl, tt)
  put-IsMap ((j, w) ∷ m) k v h = elim (Bool-cases (bytes_eq j k)) [
    | inl same ↦ rw (same, put) h
    | inr differ ↦
        rw (differ, put) (get-put_ne m k j v (bytes_eq_flip j k differ) ∙ h.0, put-IsMap m k v h.1)
  ]

  length-delete : (m : KeyMap V) (k : Bytes) → length (delete m k) ≤ length m
  unfolding delete
  length-delete [] k = omega arith
  length-delete ((j, w) ∷ m) k = ground (arith, length-delete m k)

  pub length-delete-some :
      (m : KeyMap V) (k : Bytes) (v : V) → get m k ≡ some v → length (delete m k) < length m
  unfolding delete get
  length-delete-some [] k v e = absurd cc
  length-delete-some ((j, w) ∷ m) k v e =
      ground (arith, length-delete m k, length-delete-some m k v)

  pub length-put-some :
      (m : KeyMap V) (k : Bytes) (v w : V) → get m k ≡ some w → length (put m k v) ≡ length m
  unfolding put get
  length-put-some [] k v w e = absurd cc
  length-put-some ((j, x) ∷ m) k v w e = ground (arith, length-put-some m k v w)

  pub length-put : (m : KeyMap V) (k : Bytes) (v : V) → length (put m k v) ≤ length m + 1
  unfolding put
  length-put [] k v = omega arith
  length-put ((j, w) ∷ m) k v = ground (arith, length-put m k v)

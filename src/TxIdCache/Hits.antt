-- ===== src/TxIdCache/Hits.antt =====
-- How often a cached id is found.
use blkchain.Prelude.{
  ℕ, zero, suc, ◌+◌, ◌-◌, ◌*◌, ◌%◌, ◌^◌, ◌<◌, ◌≡◌, ◌≢◌, refl, ap, ◌∙◌, bit_and, bit_or, true, false,
  Option, none, some, List, [], ◌∷◌, ◌++◌, length, take, replicate, ◌==◌, Bool-cases, Option-cases,
  inl, inr, arith,
}
use blkchain.Prelude.Bits.{bit_and-65535, bit_or-high}
use blkchain.Io.{Bytes}
use blkchain.Uint256.{Uint256}
use blkchain.KeyMap
use blkchain.KeyMap.{KeyMap}
use blkchain.TxIdCache.{
  TxIdCache, hash_prefix_size, minus_one, add_ring, look_recent, take_slot, check_size, add_big,
  add, check,
}

-- `n` checks of one hash, and their results in order.
unfoldable pub check_times : ℕ → TxIdCache → Uint256 → TxIdCache × List (Option ℕ)
check_times zero c hash = (c, [])
check_times (suc n) c hash =
    let (c', hit) = check c hash in let (c'', hits) = check_times n c' hash in (c'', hit ∷ hits)

-- The cache holds the id for the hash, and `k` more hits.
abbrev Holds : TxIdCache → Uint256 → ℕ → ℕ → Type 0
Holds c hash id zero = KeyMap.get c.m (take hash_prefix_size hash) ≡ none
Holds c hash id (suc k) = KeyMap.get c.m (take hash_prefix_size hash) ≡ some (id * 2 ^ 16 + suc k)

check_hit :
    (c : TxIdCache) (hash : Uint256) (id k : ℕ)
    → id < 2 ^ 48
    → suc k < 2 ^ 16
    → Holds c hash id (suc k)
    → ((check c hash).1 ≡ some id) × Holds (check c hash).0 hash id k
unfolding check
check_hit c hash id zero hi hk h =
    let key = take hash_prefix_size hash in
    let one_less : (id * 2 ^ 16 + 1 + 2 ^ 64 - 1) % 2 ^ 64 ≡ id * 2 ^ 16 = omega arith in
    let none_left : bit_and (id * 2 ^ 16) 0xffff ≡ 0 = omega (arith, bit_and-65535 (id * 2 ^ 16)) in
    let last : (bit_and (id * 2 ^ 16) 0xffff == 0) ≡ true = ground (arith, none_left) in
    rw (h, one_less, last, check) (ap some (omega arith), KeyMap.get-delete_self _ key)
check_hit c hash id (suc k) hi hk h =
    let key = take hash_prefix_size hash in
    let one_less : (id * 2 ^ 16 + suc (suc k) + 2 ^ 64 - 1) % 2 ^ 64 ≡ id * 2 ^ 16 + suc k =
      omega arith in
    let left : bit_and (id * 2 ^ 16 + suc k) 0xffff ≡ suc k =
      omega (arith, bit_and-65535 (id * 2 ^ 16 + suc k)) in
    let more : (bit_and (id * 2 ^ 16 + suc k) 0xffff == 0) ≡ false = ground (arith, left) in
    rw (h, one_less, more, check)
      (ap some (omega arith), KeyMap.get-put_self c.m key (id * 2 ^ 16 + suc k))

check_miss : (c : TxIdCache) (hash : Uint256) (id : ℕ) → Holds c hash id 0 → (check c hash).1 ≡ none
unfolding check
check_miss c hash id h = rw (h, check) refl

check_times_held :
    (k : ℕ) (c : TxIdCache) (hash : Uint256) (id : ℕ)
    → id < 2 ^ 48
    → k < 2 ^ 16
    → Holds c hash id k
    → (check_times (suc k) c hash).1 ≡ replicate k (some id) ++ none ∷ []
unfolding check_times
check_times_held zero c hash id hi hk h = rw (check_miss c hash id h) refl
check_times_held (suc k) c hash id hi hk h =
    let (hit, held) = check_hit c hash id k hi hk h in
    let later = check_times_held k (check c hash).0 hash id hi (omega arith) held in
    rw (hit, later) refl

ring_fresh :
    (c : TxIdCache) (key : Bytes) (id : ℕ)
    → KeyMap.get c.recent key ≡ none
    → ((add_ring c key id).1 ≡ minus_one) × ((add_ring c key id).0.m ≡ c.m)
unfolding add_ring look_recent take_slot
ring_fresh c key id h = rw (h, look_recent) (refl, refl)

module _ (first : KeyMap ℕ → Option Bytes) where
  size_none :
      (c : TxIdCache) (key : Bytes)
      → KeyMap.get c.m key ≡ none
      → KeyMap.get (check_size first c).m key ≡ none
  unfolding check_size
  size_none c key h = elim (Bool-cases (length c.m == c.sz)) [
    | inr room ↦ rw (room, check_size) h
    | inl full ↦ elim (Option-cases (first c.m)) [
      | inl e ↦ rw (full, check_size) (rw (e, check_size) h)
      | inr (k, e) ↦ rw (full, check_size) (rw (e, check_size) (KeyMap.get-delete-none c.m k key h))
    ]
  ]

  big_fresh :
      (c : TxIdCache) (key : Bytes) (id cnt : ℕ)
      → id < 2 ^ 48
      → KeyMap.get c.m key ≡ none
      → ((add_big first c key id cnt).1 ≡ id)
        × (KeyMap.get (add_big first c key id cnt).0.m key ≡ some (id * 2 ^ 16 + cnt % 2 ^ 16))
  unfolding add_big
  big_fresh c key id cnt hi h =
      let shifted : id * 2 ^ 16 % 2 ^ 64 ≡ id * 2 ^ 16 = omega arith in
      let packed : bit_or (id * 2 ^ 16) (cnt % 2 ^ 16) ≡ id * 2 ^ 16 + cnt % 2 ^ 16 =
        bit_or-high 16 (cnt % 2 ^ 16) id (omega arith) in
      rw (h, shifted, packed, add_big) (refl, KeyMap.get-put_self c.m key _)

  -- Adding a hash that is not there caches the id with its count.
  add_fresh :
      (c : TxIdCache) (hash : Uint256) (id cnt : ℕ)
      → id < 2 ^ 48
      → KeyMap.get c.recent (take hash_prefix_size hash) ≡ none
      → KeyMap.get c.m (take hash_prefix_size hash) ≡ none
      → ((add first c hash id cnt).1 ≡ id)
        × (KeyMap.get (add first c hash id cnt).0.m (take hash_prefix_size hash)
            ≡ some (id * 2 ^ 16 + cnt % 2 ^ 16))
  unfolding add
  add_fresh c hash id cnt hi hr hm =
      let key = take hash_prefix_size hash in
      let (not_recent, same) = ring_fresh c key id hr in
      let absent : KeyMap.get (check_size first (add_ring c key id).0).m key ≡ none =
        size_none (add_ring c key id).0 key (rw same hm) in
      rw (not_recent, add) (big_fresh (check_size first (add_ring c key id).0) key id cnt hi absent)

  -- A hash that is neither recent nor cached is added with an id below 2^48 and a count whose low
  -- 16 bits are not zero: as many checks as these bits count find the id, and one more finds none.
  pub check_times-add :
      (c : TxIdCache) (hash : Uint256) (id cnt : ℕ)
      → id < 2 ^ 48
      → cnt % 2 ^ 16 ≢ 0
      → KeyMap.get c.recent (take hash_prefix_size hash) ≡ none
      → KeyMap.get c.m (take hash_prefix_size hash) ≡ none
      → (check_times (suc (cnt % 2 ^ 16)) (add first c hash id cnt).0 hash).1
        ≡ replicate (cnt % 2 ^ 16) (some id) ++ none ∷ []
  check_times-add c hash id cnt hi some_left hr hm =
      check_times_held (cnt % 2 ^ 16) (add first c hash id cnt).0 hash id hi (omega arith)
        (held (cnt % 2 ^ 16) some_left ((add_fresh c hash id cnt hi hr hm).1))
    where
      held :
          (k : ℕ)
          → k ≢ 0
          → KeyMap.get (add first c hash id cnt).0.m (take hash_prefix_size hash)
            ≡ some (id * 2 ^ 16 + k)
          → Holds (add first c hash id cnt).0 hash id k
      held zero ne e = absurd (ne refl)
      held (suc k) ne e = e

  -- A hash that is neither recent nor cached is added with a positive id below 2^48 and a count
  -- whose low 16 bits are zero: the first check finds the id before it.
  pub check-add_wrapped :
      (c : TxIdCache) (hash : Uint256) (id cnt : ℕ)
      → 0 < id
      → id < 2 ^ 48
      → cnt % 2 ^ 16 ≡ 0
      → KeyMap.get c.recent (take hash_prefix_size hash) ≡ none
      → KeyMap.get c.m (take hash_prefix_size hash) ≡ none
      → (check (add first c hash id cnt).0 hash).1 ≡ some (id - 1)
  unfolding check
  check-add_wrapped c hash id cnt pos hi wrapped hr hm =
      let stored : KeyMap.get (add first c hash id cnt).0.m (take hash_prefix_size hash)
          ≡ some (id * 2 ^ 16) =
        add_fresh_wrapped ((add_fresh c hash id cnt hi hr hm).1) in
      rw (stored, check) (ap some (omega arith))
    where
      add_fresh_wrapped :
          {o : Option ℕ} → o ≡ some (id * 2 ^ 16 + cnt % 2 ^ 16) → o ≡ some (id * 2 ^ 16)
      add_fresh_wrapped e = e ∙ ap some (omega arith)

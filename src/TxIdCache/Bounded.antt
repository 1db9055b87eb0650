-- ===== src/TxIdCache/Bounded.antt =====
-- The cache over a history of calls: its maps stay maps, its size stays within the limit.
use blkchain.Prelude.{
  ℕ, ◌+◌, ◌-◌, ◌*◌, ◌%◌, ◌^◌, ◌≤◌, ◌<◌, ◌≡◌, ◌⊎◌, refl, bit_and, bit_or, Bool, true, false, not,
  Option, some, List, [], ◌∷◌, length, take, ◌==◌, if◌then◌else◌, Bool-cases, Option-cases, inl,
  inr, arith,
}
use blkchain.Io.{Bytes}
use blkchain.Uint256.{Uint256}
use blkchain.KeyMap
use blkchain.KeyMap.{KeyMap, IsMap}
use blkchain.TxIdCache.{
  TxIdCache, hash_prefix_size, recent_ring_size, minus_one, new_tx_id_cache, clear, next_slot,
  add_ring, look_recent, take_slot, check_size, add_big, add, check,
}

pub record IsValid (c : TxIdCache) : Type 0 where
  pub map : IsMap c.m
  pub recent : IsMap c.recent
  pub bounded : 0 < c.sz → length c.m ≤ c.sz
  pub slot : (c.ring_n ≡ minus_one) ⊎ (c.ring_n < recent_ring_size)

next_slot-lt : (n : ℕ) → (n ≡ minus_one) ⊎ (n < recent_ring_size) → next_slot n < recent_ring_size
unfolding next_slot
next_slot-lt n (inl e) = rw e (omega arith)
next_slot-lt n (inr h) = ground arith

look_recent-IsValid :
    (c : TxIdCache) (key : Bytes) (id : ℕ) → IsValid c → IsValid (look_recent c key id).0
unfolding look_recent
look_recent-IsValid c key id h = elim (Option-cases (KeyMap.get c.recent key)) [
  | inl e ↦
      rw (e, look_recent)
        (record {
          map = h.map;
          recent = KeyMap.put-IsMap c.recent key id h.recent;
          bounded = h.bounded;
          slot = h.slot;
        })
  | inr (hit, e) ↦
      rw (e, look_recent)
        (record { map = h.map; recent = h.recent; bounded = h.bounded; slot = h.slot })
]

if-IsMap : (b : Bool) (m n : KeyMap ℕ) → IsMap m → IsMap n → IsMap (if b then m else n)
if-IsMap true m n h k = h
if-IsMap false m n h k = k

take_slot-IsValid :
    (c : TxIdCache) (key : Bytes) (result slot : ℕ)
    → slot < recent_ring_size
    → IsValid c
    → IsValid (take_slot c key result slot)
unfolding take_slot
take_slot-IsValid c key result slot hs h = record {
  map = h.map;
  recent = if-IsMap _ _ c.recent (KeyMap.delete-IsMap c.recent (c.ring slot) h.recent) h.recent;
  bounded = h.bounded;
  slot = inr hs;
}

add_ring-IsValid :
    (c : TxIdCache) (key : Bytes) (id : ℕ) → IsValid c → IsValid (add_ring c key id).0
unfolding add_ring
add_ring-IsValid c key id h =
    let looked = look_recent-IsValid c key id h in
    take_slot-IsValid _ key _ _ (next_slot-lt _ looked.slot) looked

check-IsValid : (c : TxIdCache) (hash : Uint256) → IsValid c → IsValid (check c hash).0
unfolding check
check-IsValid c hash h = elim (Option-cases (KeyMap.get c.m (take hash_prefix_size hash))) [
  | inl e ↦
      rw (e, check) (record { map = h.map; recent = h.recent; bounded = h.bounded; slot = h.slot })
  | inr (idcnt, e) ↦
      let key = take hash_prefix_size hash in
      let next = (idcnt + 2 ^ 64 - 1) % 2 ^ 64 in
      let kept = KeyMap.put-IsMap c.m key next h.map in
      let same = KeyMap.length-put-some c.m key next idcnt e in
      let less =
        KeyMap.length-delete-some (KeyMap.put c.m key next) key next
          (KeyMap.get-put_self c.m key next) in
      elim (Bool-cases (bit_and next 0xffff == 0)) [
        | inl last ↦
            rw (e, last, check)
              (record {
                map = KeyMap.delete-IsMap (KeyMap.put c.m key next) key kept;
                recent = h.recent;
                bounded = λ pos. omega (arith, h.bounded pos, same, less);
                slot = h.slot;
              })
        | inr more ↦
            rw (e, more, check)
              (record {
                map = kept;
                recent = h.recent;
                bounded = λ pos. omega (arith, h.bounded pos, same);
                slot = h.slot;
              })
      ]
]

-- The calls that change the cache.
pub data Call : Type 0 where
  add_call : Uint256 → ℕ → ℕ → Call
  check_call : Uint256 → Call
  clear_call : Call

-- The first key of the iteration over a map that is not empty is one of its keys.
abbrev pub Chooses : (KeyMap ℕ → Option Bytes) → Type 0
Chooses first =
    (m : KeyMap ℕ)
    → 0 < length m
    → (k : Bytes) × (v : ℕ) × (first m ≡ some k) × (KeyMap.get m k ≡ some v)

module _ (first : KeyMap ℕ → Option Bytes) where
  unfoldable pub step : TxIdCache → Call → TxIdCache
  step c (add_call hash id cnt) = (add first c hash id cnt).0
  step c (check_call hash) = (check c hash).0
  step c clear_call = clear c

  unfoldable pub run : TxIdCache → List Call → TxIdCache
  run c [] = c
  run c (call ∷ calls) = run (step c call) calls

module _ (first : KeyMap ℕ → Option Bytes) (chooses : Chooses first) where
  check_size-room :
      (c : TxIdCache)
      → IsValid c
      → IsValid (check_size first c)
        × (0 < (check_size first c).sz → length (check_size first c).m < (check_size first c).sz)
  unfolding check_size
  check_size-room c h = elim (Bool-cases (length c.m == c.sz)) [
    | inr room ↦ rw (room, check_size) (h, λ pos. ground (arith, h.bounded pos))
    | inl full ↦ elim (Bool-cases (c.sz == 0)) [
      | inl no_size ↦ elim (Option-cases (first c.m)) [
        | inl e ↦ rw (full, check_size) (rw (e, check_size) (h, λ pos. absurd (ground arith)))
        | inr (k, e) ↦
            rw (full, check_size)
              (rw (e, check_size)
                (
                  record {
                    map = KeyMap.delete-IsMap c.m k h.map;
                    recent = h.recent;
                    bounded = λ pos. absurd (ground arith);
                    slot = h.slot;
                  },
                  λ pos. absurd (ground arith),
                ))
      ]
      | inr positive ↦
          let (k, v, chosen, there) = chooses c.m (ground arith) in
          let less = KeyMap.length-delete-some c.m k v there in
          rw (full, check_size)
            (rw (chosen, check_size)
              (
                record {
                  map = KeyMap.delete-IsMap c.m k h.map;
                  recent = h.recent;
                  bounded = λ pos. omega (arith, h.bounded pos);
                  slot = h.slot;
                },
                λ pos. omega (arith, h.bounded pos),
              ))
    ]
  ]

  add_big-IsValid :
      (c : TxIdCache) (key : Bytes) (id cnt : ℕ)
      → IsValid c
      → (0 < c.sz → length c.m < c.sz)
      → IsValid (add_big first c key id cnt).0
  unfolding add_big
  add_big-IsValid c key id cnt h room = elim (Option-cases (KeyMap.get c.m key)) [
    | inr (hit, e) ↦
        rw (e, add_big)
          (record { map = h.map; recent = h.recent; bounded = h.bounded; slot = h.slot })
    | inl e ↦
        rw (e, add_big)
          (record {
            map = KeyMap.put-IsMap c.m key _ h.map;
            recent = h.recent;
            bounded = λ pos. omega (
              arith,
              room pos,
              KeyMap.length-put c.m key (bit_or (id * 2 ^ 16 % 2 ^ 64) (cnt % 2 ^ 16)),
            );
            slot = h.slot;
          })
  ]

  add-IsValid :
      (c : TxIdCache) (hash : Uint256) (id cnt : ℕ)
      → IsValid c
      → IsValid (add first c hash id cnt).0
  unfolding add
  add-IsValid c hash id cnt h =
      let key = take hash_prefix_size hash in
      let ringed = add_ring-IsValid c key id h in
      elim (Bool-cases (not ((add_ring c key id).1 == minus_one))) [
        | inl hit ↦ rw (hit, add) ringed
        | inr fresh ↦
            let (valid, room) = check_size-room (add_ring c key id).0 ringed in
            rw (fresh, add)
              (add_big-IsValid (check_size first (add_ring c key id).0) key id cnt valid room)
      ]

  step-IsValid : (c : TxIdCache) (call : Call) → IsValid c → IsValid (step first c call)
  unfolding step clear
  step-IsValid c (add_call hash id cnt) h = add-IsValid c hash id cnt h
  step-IsValid c (check_call hash) h = check-IsValid c hash h
  step-IsValid c clear_call h = record {
    map = tt;
    recent = h.recent;
    bounded = λ pos. omega arith;
    slot = h.slot;
  }

  run_valid : (c : TxIdCache) (calls : List Call) → IsValid c → IsValid (run first c calls)
  unfolding run
  run_valid c [] h = h
  run_valid c (call ∷ calls) h = run_valid (step first c call) calls (step-IsValid c call h)

  -- After any history of adding, checking and clearing, no key stands twice in the cache or among
  -- the recent hashes, the cache has no more entries than its size if that is positive, and the
  -- ring is in one of its slots or before the first, when the iteration over a map that has
  -- entries starts with one of its keys.
  pub run-IsValid : (sz : ℕ) (calls : List Call) → IsValid (run first (new_tx_id_cache sz) calls)
  unfolding new_tx_id_cache
  run-IsValid sz calls =
      run_valid (new_tx_id_cache sz) calls
        (record { map = tt; recent = tt; bounded = λ pos. omega arith; slot = inl refl })

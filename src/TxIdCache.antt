-- ===== src/TxIdCache.antt =====
-- db/txidcache.go: the cache from transaction hashes to ids. An `int64` is its 64-bit pattern. A
-- counted id is a 64-bit word, the id in the upper 48 bits and a count in the lower 16.
pub mod Hits
pub mod Bounded
use blkchain.Prelude.{
  ℕ, zero, suc, ◌+◌, ◌-◌, ◌*◌, ◌/◌, ◌%◌, ◌^◌, bit_and, bit_or, Bool, ◌&&◌, not, Option, none, some,
  List, [], ◌∷◌, length, take, replicate, ◌==◌, bytes_eq, if◌then◌else◌,
}
use blkchain.Io.{Bytes}
use blkchain.Uint256.{Uint256}
use blkchain.KeyMap
use blkchain.KeyMap.{KeyMap}

abbrev pub hash_prefix_size : ℕ
hash_prefix_size = 10

abbrev pub recent_ring_size : ℕ
recent_ring_size = 1024 * 64

-- -1 as an `int64`, and as an `int`.
abbrev pub minus_one : ℕ
minus_one = 2 ^ 64 - 1

-- `ring` is the slice with `recent_ring_size` slots, as a function of the slot.
pub record TxIdCache : Type 0 where
  pub m : KeyMap ℕ
  pub sz : ℕ
  pub cols : ℕ
  pub dups : ℕ
  pub hits : ℕ
  pub miss : ℕ
  pub evic : ℕ
  pub recent : KeyMap ℕ
  pub ring : ℕ → Bytes
  pub ring_n : ℕ

abbrev pub zero_hash_prefix : Bytes
zero_hash_prefix = replicate hash_prefix_size 0

unfoldable pub new_tx_id_cache : ℕ → TxIdCache
new_tx_id_cache sz = record {
  m = [];
  sz = sz;
  cols = 0;
  dups = 0;
  hits = 0;
  miss = 0;
  evic = 0;
  recent = [];
  ring = λ i. zero_hash_prefix;
  ring_n = minus_one;
}

unfoldable pub clear : TxIdCache → TxIdCache
clear c = record c { m = [] }

-- The id that is cached as recent, or -1, with the counter and the map behind the lookup.
unfoldable pub look_recent : TxIdCache → Bytes → ℕ → TxIdCache × ℕ
look_recent c key id = elim (KeyMap.get c.recent key) [
  | some hit ↦ (record c { dups = c.dups + 1 }, hit)
  | none ↦ (record c { recent = KeyMap.put c.recent key id }, minus_one)
]

unfoldable pub next_slot : ℕ → ℕ
next_slot ring_n = let n = (ring_n + 1) % 2 ^ 64 in if n == recent_ring_size then 0 else n

-- The key in the slot is forgotten when there was no hit, and the new key takes the slot.
unfoldable pub take_slot : TxIdCache → Bytes → ℕ → ℕ → TxIdCache
take_slot c key result slot =
    let old = c.ring slot in
    let forget = not (bytes_eq old zero_hash_prefix) && (result == minus_one) in
    record c {
      ring_n = slot;
      recent = if forget then KeyMap.delete c.recent old else c.recent;
      ring = λ i. if i == slot then key else c.ring i;
    }

unfoldable pub add_ring : TxIdCache → Bytes → ℕ → TxIdCache × ℕ
add_ring c key id =
    let (c', result) = look_recent c key id in
    (take_slot c' key result (next_slot c'.ring_n), result)

-- `first` is the key that the iteration over the map comes to first, which Go leaves open.
module _ (first : KeyMap ℕ → Option Bytes) where
  unfoldable pub check_size : TxIdCache → TxIdCache
  check_size c =
      if length c.m == c.sz
      then elim (first c.m) [ none ↦ c | some k ↦ record c { m = KeyMap.delete c.m k } ]
      else c

  -- `uint64(id<<16) | uint64(uint16(cnt))`, unless the key is there.
  unfoldable pub add_big : TxIdCache → Bytes → ℕ → ℕ → TxIdCache × ℕ
  add_big c key id cnt = elim (KeyMap.get c.m key) [
    | some hit ↦ (record c { cols = c.cols + 1 }, hit / 2 ^ 16)
    | none ↦
        (record c { m = KeyMap.put c.m key (bit_or (id * 2 ^ 16 % 2 ^ 64) (cnt % 2 ^ 16)) }, id)
  ]

  unfoldable pub add : TxIdCache → Uint256 → ℕ → ℕ → TxIdCache × ℕ
  add c hash id cnt =
      let key = take hash_prefix_size hash in
      let (c', recent) = add_ring c key id in
      let big = add_big (check_size c') key id cnt in
      if not (recent == minus_one) then (c', recent) else big

-- `check` takes one from the count, and the entry goes with the last one; no id is nil.
unfoldable pub check : TxIdCache → Uint256 → TxIdCache × Option ℕ
check c hash =
    let key = take hash_prefix_size hash in
    elim (KeyMap.get c.m key) [
      | none ↦ (record c { miss = c.miss + 1 }, none)
      | some idcnt ↦
          let idcnt' = (idcnt + 2 ^ 64 - 1) % 2 ^ 64 in
          let c' = record c { hits = c.hits + 1; m = KeyMap.put c.m key idcnt' } in
          let gone = record c' { evic = c.evic + 1; m = KeyMap.delete c'.m key } in
          (if bit_and idcnt' 0xffff == 0 then gone else c', some (idcnt' / 2 ^ 16))
    ]

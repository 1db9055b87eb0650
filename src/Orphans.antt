-- ===== src/Orphans.antt =====
-- `eliminateOrphans` of coredb/leveldb.go and of btcnode/btcnode.go, which differ only in the type of
-- the headers. `hash` and `prev_hash` are those of a header.
pub mod Walk
pub mod Dropped
pub mod Unique
pub mod Linked
use blkchain.Prelude.{
  ℕ, zero, suc, ◌+◌, ◌-◌, ◌&&◌, Bool, not, Option, none, some, List, [], ◌∷◌, length, ltb, ◌==◌,
  bytes_eq, if◌then◌else◌,
}
use blkchain.Io.{Result, ok, err, no_valid_parent, index_range}
use blkchain.Uint256.{Uint256}
use blkchain.HeightMap
use blkchain.HeightMap.{HeightMap}

-- `minHeight`, `maxHeight` and `count`; `none` is the -1 that no height replaced.
pub record Bounds : Type 0 where
  pub min_height : Option ℕ
  pub max_height : Option ℕ
  pub count : ℕ

module _ {H : Type 0} where
  unfoldable pub widen : Bounds → ℕ → List H → Bounds
  widen b h v = record {
    min_height = elim b.min_height [ none ↦ some h | some lo ↦ some (if ltb h lo then h else lo) ];
    max_height = elim b.max_height [ none ↦ some h | some hi ↦ some (if ltb hi h then h else hi) ];
    count = b.count + length v;
  }

  unfoldable pub find_bounds : Bounds → HeightMap H → Bounds
  find_bounds b [] = b
  find_bounds b ((h, v) ∷ m) = find_bounds (widen b h v) m

  -- `for h := maxHeight; len(m[h]) > 1 && h >= minHeight; h--`: the first number is `maxHeight + 1`.
  unfoldable pub drop_split : ℕ → ℕ → HeightMap H → ℕ × HeightMap H
  drop_split lo zero m = (zero, m)
  drop_split lo (suc h) m =
      let rest = drop_split lo h (HeightMap.delete m h) in
      if ltb 1 (length (HeightMap.get m h)) && not (ltb h lo) then rest else (suc h, m)

module _ {H : Type 0} (hash prev_hash : H → Uint256) where
  -- The loop over the headers of one height: what stands in the map, and the count.
  unfoldable pub pick : Uint256 → List H → List H → ℕ → List H × ℕ
  pick prev [] kept count = (kept, count)
  pick prev (bh ∷ bhs) kept count =
      let found = pick prev bhs (bh ∷ []) count in
      let ignored = pick prev bhs kept (count - 1) in
      if bytes_eq (hash bh) prev then found else ignored

  unfoldable pub next_prev : List H → Uint256 → Uint256
  next_prev [] prev = prev
  next_prev (bh ∷ bhs) prev = prev_hash bh

  -- `for h := maxHeight - 1; h >= minHeight; h--`: the second number is `h + 1`.
  unfoldable pub walk : ℕ → ℕ → Uint256 → HeightMap H → ℕ → Result (ℕ × HeightMap H)
  walk lo zero prev m count = ok (count, m)
  walk lo (suc h) prev m count =
      let bhs = HeightMap.get m h in
      let (kept, count') = pick prev bhs bhs count in
      let after_split = walk lo h (next_prev kept prev) (HeightMap.put m h kept) count' in
      let after_one = walk lo h (next_prev bhs prev) m count in
      if ltb h lo
      then ok (count, m)
      else if ltb 1 (length bhs)
      then (if not (length kept == 1) then err (no_valid_parent count') else after_split)
      else after_one

  -- `prevHash := m[maxHeight][0].PrevHash` and the walk; the first number is `maxHeight + 1`.
  unfoldable pub walk_down : ℕ → ℕ → HeightMap H → ℕ → Result (ℕ × HeightMap H)
  walk_down lo zero m count = err index_range
  walk_down lo (suc h) m count = elim (HeightMap.get m h) [
    | [] ↦ err index_range
    | bh ∷ bhs ↦ walk lo h (prev_hash bh) m count
  ]

  unfoldable pub eliminate_between :
      Option ℕ → Option ℕ → HeightMap H → ℕ → Result (ℕ × HeightMap H)
  eliminate_between none hi m count = err index_range
  eliminate_between (some lo) none m count = err index_range
  eliminate_between (some lo) (some hi) m count =
      let (top, m') = drop_split lo (suc hi) m in walk_down lo top m' count

  -- The count that is returned, and the map as it is left.
  unfoldable pub eliminate_orphans : HeightMap H → Result (ℕ × HeightMap H)
  eliminate_orphans m =
      let b = find_bounds (record { min_height = none; max_height = none; count = 0 }) m in
      eliminate_between b.min_height b.max_height m b.count

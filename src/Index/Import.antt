-- ===== src/Index/Import.antt =====
-- From the values of the database to the blocks that are written.
use blkchain.Prelude.{
  ℕ, zero, suc, ◌+◌, ◌≤◌, ◌<◌, ◌≡◌, ◌≢◌, ◌⊎◌, inl, inr, refl, some, List, [], ◌∷◌, length, drop,
  arith,
}
use blkchain.Io.{Error, Result, ok, err, Bytes}
use blkchain.BlockHeader
use blkchain.BlockHeader.{BlockHeader}
use blkchain.HeightMap
use blkchain.HeightMap.{HeightMap}
use blkchain.Orphans.{eliminate_orphans}
use blkchain.Orphans.Walk.{err_ok, ok_same}
use blkchain.Orphans.Unique.{eliminate_orphans-one}
use blkchain.Index.{LevelDbBlockHeader, Index, read_entries, read_index, current, process_blocks}
use blkchain.Index.Order.{never, upwards, rounds, go_up, position, at_height}

Result-cases : {A : Type 0} (r : Result A) → ((e : Error) × (r ≡ err e)) ⊎ ((a : A) × (r ≡ ok a))
Result-cases (ok a) = inr (a, refl)
Result-cases (err e) = inl (e, refl)

module _ (sha256 : Bytes → Bytes) (zero_header : BlockHeader) (start : ℕ) where
  hash_of : LevelDbBlockHeader → Bytes
  hash_of bh = BlockHeader.hash sha256 bh.block_header

  parent_of : LevelDbBlockHeader → Bytes
  parent_of bh = bh.block_header.prev_hash

  eliminated :
      (vs : List Bytes) (ix : Index LevelDbBlockHeader)
      → read_index sha256 zero_header start vs ≡ ok ix
      → (m : HeightMap LevelDbBlockHeader) × (r : ℕ × HeightMap LevelDbBlockHeader)
        × (eliminate_orphans hash_of parent_of m ≡ ok r)
        × (ix ≡ position r.1 start 0 r.0)
  unfolding read_index hash_of parent_of
  eliminated vs ix e = elim (Result-cases (read_entries zero_header [] vs)) [
    | inl (fault, f) ↦ absurd (err_ok (rw (f, read_index) at e))
    | inr (m, f) ↦ elim (Result-cases (eliminate_orphans hash_of parent_of m)) [
      | inl (fault, g) ↦ absurd (err_ok (rw (f, g, read_index) at e))
      | inr (r, g) ↦ (m, r, g, ok_same (rw (f, g, read_index) at e))
    ]
  ]

  -- Where no height has two headers, a round a height is enough.
  few_rounds :
      (m : HeightMap LevelDbBlockHeader) (h k : ℕ)
      → ((j : ℕ) → length (HeightMap.get m j) ≤ 1)
      → rounds m h k ≤ k
  unfolding rounds
  few_rounds m h zero one = omega arith
  few_rounds m h (suc k) one = omega (arith, one h, few_rounds m (suc h) k one)

  drop_one : {A : Type 0} (xs : List A) → length xs ≤ 1 → drop 1 xs ≡ []
  drop_one [] h = refl
  drop_one (x ∷ []) h = refl
  drop_one (x ∷ y ∷ xs) h = absurd (omega arith)

  below_one :
      (m : HeightMap LevelDbBlockHeader) (above count : ℕ)
      → ((j : ℕ) → length (HeightMap.get m j) ≤ 1)
      → length (current (position m above 0 count)) ≤ 1
  unfolding current
  below_one m zero count one = omega arith
  below_one m (suc h) count one = one h

  module _ {B : Type 0} (load : LevelDbBlockHeader → Result B) (block_of : LevelDbBlockHeader → B)
      (loads : (bh : LevelDbBlockHeader) → load bh ≡ ok (block_of bh)) where
    from_start :
        (m : HeightMap LevelDbBlockHeader) (count k fuel : ℕ)
        → ((j : ℕ) → length (HeightMap.get m j) ≤ 1)
        → length m ≢ 0
        → ((i : ℕ) → i < k → 0 < length (HeightMap.get m (start + i)))
        → HeightMap.get m (start + k) ≡ []
        → k < fuel
        → process_blocks load never fuel (position m start 0 count) []
          ≡ some (ok (upwards load block_of loads m start k))
    unfolding at_height
    from_start m count k fuel one hm full end hf =
        go_up load block_of loads k m start 0 count fuel [] [] hm
          (drop_one _ (below_one m start count one)) full end
          (omega (arith, few_rounds m start k one))

    -- When the block index is read, the loop that imports it writes the blocks of the heights from
    -- the start height on, one height after the other and each with its height, up to the first
    -- height without headers, if every block can be loaded and no interrupt comes; as many rounds
    -- as heights and one more are enough.
    pub process_blocks-read_index :
        (vs : List Bytes) (ix : Index LevelDbBlockHeader) (k fuel : ℕ)
        → read_index sha256 zero_header start vs ≡ ok ix
        → length ix.m ≢ 0
        → ((i : ℕ) → i < k → 0 < length (HeightMap.get ix.m (start + i)))
        → HeightMap.get ix.m (start + k) ≡ []
        → k < fuel
        → process_blocks load never fuel ix []
          ≡ some (ok (upwards load block_of loads ix.m start k))
    process_blocks-read_index vs ix k fuel e hm full end hf =
        let (m, r, g, same) = eliminated vs ix e in
        let one : (j : ℕ) → length (HeightMap.get r.1 j) ≤ 1 =
          λ j. eliminate_orphans-one hash_of parent_of m r j g in
        rw same
          (from_start r.1 r.0 k fuel one (rw same at hm) (rw same at full) (rw same at end) hf)

-- ===== src/Tests/Orphans.antt =====
-- `eliminateOrphans` on small chains: a header is its hash and that of its parent.
use blkchain.Prelude.{ℕ, ◌≤◌, ◌≡◌, ◌≢◌, ◌⊎◌, refl, [], ◌∷◌, length, arith, bytes_eq}
use blkchain.Io.{ok, err, no_valid_parent, index_range}
use blkchain.Uint256.{Uint256}
use blkchain.HeightMap
use blkchain.HeightMap.{HeightMap}
use blkchain.Orphans.{
  widen, find_bounds, drop_split, pick, next_prev, walk, walk_down, eliminate_between,
  eliminate_orphans,
}
use blkchain.Orphans.Linked.{In, Nearest}
use blkchain.Orphans.Unique.{
  eliminate_orphans-one, eliminate_orphans-linked, eliminate_orphans-index_range,
}

abbrev Header : Type 0
Header = Uint256 × Uint256

abbrev own : Header → Uint256
own h = h.0

abbrev parent : Header → Uint256
parent h = h.1

program : Unit {0}
unfolding HeightMap.get HeightMap.put HeightMap.delete widen find_bounds drop_split pick next_prev
    walk walk_down eliminate_between eliminate_orphans bytes_eq
program = tt

abbrev header : ℕ → ℕ → Header
header n p = (n ∷ [], p ∷ [])

-- A split at the height 1, which the header at the height 2 settles, and one at the top.
abbrev chain : HeightMap Header
chain =
    (0, header 10 0 ∷ [])
    ∷ (1, header 20 10 ∷ header 21 10 ∷ [])
    ∷ (2, header 30 21 ∷ [])
    ∷ (3, header 40 30 ∷ header 41 30 ∷ [])
    ∷ []

abbrev left : HeightMap Header
left = (0, header 10 0 ∷ []) ∷ (1, header 21 10 ∷ []) ∷ (2, header 30 21 ∷ []) ∷ []

settles : eliminate_orphans own parent chain ≡ ok (5, left)
unfolding program
settles = refl

abbrev no_parent : HeightMap Header
no_parent = (1, header 20 10 ∷ header 21 10 ∷ []) ∷ (2, header 30 22 ∷ []) ∷ []

fails : eliminate_orphans own parent no_parent ≡ err (no_valid_parent 1)
unfolding program
fails = refl

abbrev split : HeightMap Header
split = (1, header 20 10 ∷ header 21 10 ∷ []) ∷ []

split_never : (j : ℕ) → length (HeightMap.get split j) ≢ 1
unfolding HeightMap.get
split_never j = ground arith

eliminate_orphans-one_example : length (HeightMap.get left 1) ≤ 1
eliminate_orphans-one_example = eliminate_orphans-one own parent chain (5, left) 1 settles

eliminate_orphans-linked_example :
    (HeightMap.get left 1 ≡ [])
    ⊎ ((b : Header) × (HeightMap.get left 1 ≡ b ∷ [])
        × In b (HeightMap.get chain 1)
        × Nearest own parent left 2 (own b))
unfolding HeightMap.get
eliminate_orphans-linked_example =
    eliminate_orphans-linked own parent chain (5, left) 1 settles (omega arith)

eliminate_orphans-index_range_example : eliminate_orphans own parent split ≡ err index_range
eliminate_orphans-index_range_example = eliminate_orphans-index_range own parent split split_never

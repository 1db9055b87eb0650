-- ===== src/BtcNode/Headers.antt =====
-- btcnode/btcnode.go: the headers that a node sends, their heights, and the index that they make. A
-- header is known by its number, in the order in which the headers come, which stands for the pointer.
pub mod Heights
use blkchain.Prelude.{
  ℕ, zero, suc, ◌+◌, ◌%◌, ◌^◌, Bool, Option, none, some, List, [], ◌∷◌, ◌++◌, length, ltb, ◌==◌,
  if◌then◌else◌,
}
use blkchain.Io.{Bytes, Result, ok, err}
use blkchain.Uint256.{Uint256}
use blkchain.KeyMap
use blkchain.KeyMap.{KeyMap}
use blkchain.HeightMap
use blkchain.HeightMap.{HeightMap}
use blkchain.BlockHeader.{BlockHeader}
use blkchain.Orphans.{eliminate_orphans}
use blkchain.Index.{Index}

-- The fields of `wire.BlockHeader`; the version and the time are bit patterns.
pub record WireHeader (Hdr : Type 0) : Type 0 where
  pub version : Hdr → ℕ
  pub prev_block : Hdr → Uint256
  pub merkle_root : Hdr → Uint256
  pub timestamp : Hdr → ℕ
  pub bits : Hdr → ℕ
  pub nonce : Hdr → ℕ

unfoldable pub header_from : {Hdr : Type 0} → WireHeader Hdr → Hdr → BlockHeader
header_from w h = record {
  version = w.version h % 2 ^ 32;
  prev_hash = w.prev_block h;
  hash_merkle_root = w.merkle_root h;
  time = w.timestamp h % 2 ^ 32;
  bits = w.bits h;
  nonce = w.nonce h;
}

-- `byPrevHash`, and `byPrevHash[hash]`.
abbrev pub ByPrev : Type 0
ByPrev = KeyMap (List ℕ)

unfoldable pub children : ByPrev → Uint256 → List ℕ
children m hash = elim (KeyMap.get m hash) [ none ↦ [] | some l ↦ l ]

unfoldable pub add_child : ByPrev → Uint256 → ℕ → ByPrev
add_child m hash i = KeyMap.put m hash (children m hash ++ i ∷ [])

-- The headers of one answer, numbered from `i` on.
unfoldable pub add_headers : ByPrev → ℕ → List BlockHeader → ByPrev
add_headers m i [] = m
add_headers m i (bh ∷ bhs) = add_headers (add_child m bh.prev_hash i) (suc i) bhs

-- The lowest of the heights; zero counts as none.
unfoldable pub min_height : ℕ → HeightMap Uint256 → ℕ
min_height low [] = low
min_height low ((h, hashes) ∷ hs) =
    min_height (if low == 0 then h else if ltb h low then h else low) hs

-- The first hashes that the node is asked from: those of `n` heights, from the top.
unfoldable pub last_hashes : HeightMap Uint256 → ℕ → ℕ → List Uint256
last_hashes hs low zero = []
last_hashes hs low (suc i) = HeightMap.get hs (low + i) ++ last_hashes hs low i

unfoldable pub locator : HeightMap Uint256 → List Uint256
locator hs = last_hashes hs (min_height 0 hs) (length hs)

-- The height of each header.
abbrev pub Store : Type 0
Store = ℕ → ℕ

abbrev pub set_height : Store → ℕ → ℕ → Store
set_height st i h = λ j. if j == i then h else st j

unfoldable pub each : (ℕ → Store → Option Store) → List ℕ → Store → Option Store
each f [] st = some st
each f (i ∷ is) st = elim (f i st) [ none ↦ none | some st' ↦ each f is st' ]

module _ (hash_of : ℕ → Uint256) (m : ByPrev) where
  -- `setChildrenHeight` on one parent, for calls nested `fuel` deep at most; no result is that they
  -- were not deep enough.
  unfoldable pub set_children : ℕ → ℕ → Uint256 → Store → Option Store
  set_children zero height hash st = none
  set_children (suc fuel) height hash st =
      each (λ i st'. set_children fuel (suc height) (hash_of i) (set_height st' i (suc height)))
        (children m hash) st

  -- The loops over the parents, with the height that has children.
  unfoldable pub set_parents : ℕ → ℕ → List Uint256 → Store × ℕ → Option (Store × ℕ)
  set_parents fuel height [] (st, found) = some (st, found)
  set_parents fuel height (hash ∷ hashes) (st, found) =
      let found' = if length (children m hash) == 0 then found else height in
      elim (set_children fuel height hash st) [
        | none ↦ none
        | some st' ↦ set_parents fuel height hashes (st', found')
      ]

  unfoldable pub set_children_height : ℕ → HeightMap Uint256 → Store × ℕ → Option (Store × ℕ)
  set_children_height fuel [] s = some s
  set_children_height fuel ((height, hashes) ∷ hs) s = elim (set_parents fuel height hashes s) [
    | none ↦ none
    | some s' ↦ set_children_height fuel hs s'
  ]

unfoldable pub add_all : Store → HeightMap ℕ → List ℕ → HeightMap ℕ
add_all st m [] = m
add_all st m (i ∷ is) = add_all st (HeightMap.add m (st i) i) is

-- `byHeight`, with the headers in the order of the iteration over `byPrevHash`.
unfoldable pub by_height : Store → HeightMap ℕ → ByPrev → HeightMap ℕ
by_height st m [] = m
by_height st m ((prev, is) ∷ rest) = by_height st (add_all st m is) rest

-- What `getHeaders` leaves, from the headers that came: the heights are all zero before. Without
-- headers the node stays as it is, at height 0 with no headers.
unfoldable pub index_headers :
    (hash_of prev_of : ℕ → Uint256)
    → (fuel : ℕ) → List BlockHeader
    → HeightMap Uint256
    → Option (Result (Index ℕ))
index_headers hash_of prev_of fuel bhs starts =
    let m = add_headers [] 0 bhs in
    if length m == 0
    then some (ok (record { m = []; above = 1; n = 0; count = 0 }))
    else elim (set_children_height hash_of m fuel starts ((λ i. 0), 0)) [
      | none ↦ none
      | some (st, found) ↦ some (elim (eliminate_orphans hash_of prev_of (by_height st [] m)) [
        | err e ↦ err e
        | ok (count, left) ↦ ok (record { m = left; above = suc found; n = 0; count = count })
      ])
    ]

-- ===== src/Db/System/Numbered/Columns.antt =====
-- The blocks that `pgBlockWorker` of db/postgres.go does not ignore, and the columns of the table of
-- blocks that name a block, each described without the code.
use blkchain.Prelude.{
  ℕ, ◌+◌, ◌%◌, ◌^◌, ◌≡◌, refl, ap, subst, ◌⊎◌, inl, inr, Bool, true, false, Option, List, [], ◌∷◌,
  ◌++◌, map, All, Bool-cases, replicate, bytes_eq, bytes_eq_refl, bytes_eq_sound,
}
use blkchain.Io.{Bytes}
use blkchain.Uint256.{Uint256}
use blkchain.BlockHeader
use blkchain.Db.{BlockRecSync, BlockRow}
use blkchain.Db.Writers.{block_row}
use blkchain.Db.Worker.{Heights, top_hash, ignore_up_to, to_write}
use blkchain.Db.System.Numbered.{numbered}

-- The id of a row, its height, its hash, and the hash of the block below it.
abbrev pub Columns : Type 0
Columns = ℕ × Option ℕ × Bytes × Bytes

abbrev pub columns : BlockRow → Columns
columns r = (r.id, r.height, r.hash, r.prevhash)

module _ (sha256 : Bytes → Bytes) where
  abbrev pub block_hash : BlockRecSync → Bytes
  block_hash b = BlockHeader.hash sha256 b.rec.block.block_header

  -- The columns of blocks that come behind the id `id`.
  abbrev pub named : ℕ → List BlockRecSync → List Columns
  named id [] = []
  named id (b ∷ bs) =
      let id' = (id + 1) % 2 ^ 64 in
      (id', b.rec.height, block_hash b, b.rec.block.block_header.prev_hash) ∷ named id' bs

  pub columns-numbered :
      (id : ℕ) (bs : List BlockRecSync)
      → map columns (map block_row (numbered sha256 id bs)) ≡ named id bs
  unfolding numbered block_row
  columns-numbered id [] = refl
  columns-numbered id (b ∷ bs) =
      let id' = (id + 1) % 2 ^ 64 in
      let c : Columns = (id', b.rec.height, block_hash b, b.rec.block.block_header.prev_hash) in
      ap (λ l. c ∷ l) (columns-numbered id' bs)

  abbrev pub AreOther : Uint256 → List BlockRecSync → Type 0
  AreOther hash bs = All (λ b. ¬ (hash ≡ block_hash b)) bs

  -- `rest` is what comes behind the first block with the hash, or nothing where there is none.
  abbrev pub IsBehind : Uint256 → List BlockRecSync → List BlockRecSync → Type 0
  IsBehind hash bs rest =
      ((before : List BlockRecSync) × (b : BlockRecSync) × (bs ≡ before ++ b ∷ rest)
        × (hash ≡ block_hash b)
        × AreOther hash before)
      ⊎ ((rest ≡ []) × AreOther hash bs)

  -- The blocks that are not ignored: all, unless there is a checker of outputs and a block already.
  abbrev pub IsKept : Bool → Heights → List BlockRecSync → List BlockRecSync → Type 0
  IsKept false hs bs rest = rest ≡ bs
  IsKept true [] bs rest = rest ≡ bs
  IsKept true (h ∷ hs) bs rest = IsBehind (top_hash (replicate 32 0) (h ∷ hs)) bs rest

  ignore_up_to-IsBehind :
      (hash : Uint256) (bs : List BlockRecSync) → IsBehind hash bs (ignore_up_to sha256 hash bs)
  unfolding ignore_up_to
  ignore_up_to-IsBehind hash [] = inr (refl, tt)
  ignore_up_to-IsBehind hash (b ∷ bs) = elim (Bool-cases (bytes_eq hash (block_hash b))) [
    | inl e ↦ rw (e) (inl ([], b, refl, bytes_eq_sound hash (block_hash b) e, tt))
    | inr e ↦ rw (e) (other (differs e) (ignore_up_to-IsBehind hash bs))
  ]
    where
      differs : bytes_eq hash (block_hash b) ≡ false → ¬ (hash ≡ block_hash b)
      differs e same =
          let h = subst (λ c. bytes_eq hash c ≡ true) same (bytes_eq_refl hash) in absurd (cc)

      other :
          {rest : List BlockRecSync}
          → ¬ (hash ≡ block_hash b)
          → IsBehind hash bs rest
          → IsBehind hash (b ∷ bs) rest
      other ne (inl (before, c, e, same, each)) =
          inl (b ∷ before, c, ap (λ l. b ∷ l) e, same, (ne, each))
      other ne (inr (e, each)) = inr (e, (ne, each))

  pub to_write-IsKept :
      (has_utxo : Bool) (hs : Heights) (bs : List BlockRecSync)
      → IsKept has_utxo hs bs (to_write sha256 has_utxo hs bs)
  unfolding to_write
  to_write-IsKept false [] bs = refl
  to_write-IsKept false (h ∷ hs) bs = refl
  to_write-IsKept true [] bs = refl
  to_write-IsKept true (h ∷ hs) bs = ignore_up_to-IsBehind (top_hash (replicate 32 0) (h ∷ hs)) bs

-- ===== src/CoreDb/Script.antt =====
-- coredb/utxo.go: the scripts that are stored in a short form.
pub mod Forms
use blkchain.Prelude.{
  ℕ, ◌+◌, ◌-◌, ◌%◌, Bool, ◌||◌, Option, none, some, List, [], ◌∷◌, ◌++◌, set, take, drop, replicate,
  ◌==◌, if◌then◌else◌,
}
use blkchain.Io.{Bytes}
use blkchain.Uint256.{copy}

unfoldable pub get_special_size : ℕ → ℕ
get_special_size size =
    if size == 0 || size == 1
    then 20
    else if size == 2 || (size == 3 || (size == 4 || size == 5))
    then 32
    else 0

-- `copy(dst[i:], src)`.
unfoldable pub copy_at : ℕ → Bytes → Bytes → Bytes
copy_at i dst src = take i dst ++ copy (drop i dst) src

unfoldable pub pay_to_key_hash : Bytes → Bytes
pay_to_key_hash input =
    let script = set (set (set (replicate 25 0) 0 0x76) 1 0xa9) 2 20 in
    set (set (copy_at 3 script input) 23 0x88) 24 0xac

unfoldable pub pay_to_script_hash : Bytes → Bytes
pay_to_script_hash input =
    let script = set (set (replicate 23 0) 0 0xa9) 1 20 in set (copy_at 2 script input) 22 0x87

unfoldable pub pay_to_key : ℕ → Bytes → Bytes
pay_to_key size input =
    let script = set (set (replicate 35 0) 0 33) 1 (size % 256) in
    set (copy_at 2 script input) 34 0xac

-- A nil slice is the empty list. `parse` is `btcec.ParsePubKey` followed by
-- `SerializeUncompressed`, and `none` where the key is refused.
unfoldable pub pay_to_full_key : (Bytes → Option Bytes) → ℕ → Bytes → Bytes
pay_to_full_key parse size input =
    let key = copy_at 1 (set (replicate 33 0) 0 ((size % 256 + 256 - 2) % 256)) input in
    elim (parse key) [
      | none ↦ []
      | some full ↦ set (copy_at 1 (set (replicate 67 0) 0 65) full) 66 0xac
    ]

unfoldable pub decompress_script : (Bytes → Option Bytes) → ℕ → Bytes → Bytes
decompress_script parse size input =
    if size == 0
    then pay_to_key_hash input
    else if size == 1
    then pay_to_script_hash input
    else if size == 2 || size == 3
    then pay_to_key size input
    else if size == 4 || size == 5
    then pay_to_full_key parse size input
    else []

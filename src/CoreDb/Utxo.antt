-- ===== src/CoreDb/Utxo.antt =====
-- coredb/utxo.go and the chain state reader of coredb/leveldb.go: the set of the unspent outputs.
pub mod RoundTrip
pub mod Lookup
use blkchain.Prelude.{
  ℕ, ◌+◌, ◌-◌, ◌*◌, ◌/◌, ◌%◌, ◌^◌, bit_and, Bool, not, Option, List, [], ◌∷◌, ◌++◌, drop, ltb, ◌==◌,
  if◌then◌else◌,
}
use blkchain.Io.{Result, ok, err, Bytes, Reader, ◌>>=◌, done, read_full}
use blkchain.Binary.{read_var_int, write_var_int}
use blkchain.Uint256.{Uint256}
use blkchain.TxIn.{OutPoint}
use blkchain.TxOut.{TxOut}
use blkchain.CoreDb.Amount.{decompress_amount}
use blkchain.CoreDb.Script.{get_special_size, decompress_script}

pub record Utxo : Type 0 where
  pub out_point : OutPoint
  pub height : ℕ
  pub coinbase : Bool
  pub tx_out : TxOut

-- `VarInt32.BinRead`: the conversion to 32 bits drops the upper ones.
unfoldable pub read_var_int32 : Reader ℕ
read_var_int32 = do i ← read_var_int; done (i % 2 ^ 32)

-- `DbOutPoint`: the index is a variable-length integer.
unfoldable pub read_db_out_point : Reader OutPoint
read_db_out_point = do
  hash ← read_full 32
  n ← read_var_int
  done (record { hash = hash; n = n % 2 ^ 32 })

unfoldable pub write_db_out_point : OutPoint → Result Bytes
write_db_out_point o = elim (write_var_int o.n) [ ok bs ↦ ok (o.hash ++ bs) | err e ↦ err e ]

abbrev pub special_scripts : ℕ
special_scripts = 6

-- `parse` is `btcec.ParsePubKey` followed by `SerializeUncompressed`.
module _ (parse : Bytes → Option Bytes) where
  unfoldable pub read_script : ℕ → Reader Bytes
  read_script vs =
      if ltb vs special_scripts
      then (do buf ← read_full (get_special_size vs); done (decompress_script parse vs buf))
      else read_full (vs - special_scripts)

  unfoldable pub bin_read : Utxo → Reader Utxo
  bin_read u = do
    code ← read_var_int32
    vv ← read_var_int
    vs ← read_var_int32
    script ← read_script vs
    done (record u {
      height = code / 2;
      coinbase = not (bit_and code 1 == 0);
      tx_out = record { value = decompress_amount vv; script_pub_key = script };
    })

  -- `GetUTXO` on a key and a value of the iterator: the key's first byte is its prefix.
  unfoldable pub get_utxo : Utxo → Bytes → Bytes → Result Utxo
  get_utxo u key value = elim (read_db_out_point (drop 1 key)) [
    | err e ↦ err e
    | ok (o, _) ↦ elim (bin_read (record u { out_point = o }) value) [
      | err e ↦ err e
      | ok (v, _) ↦ ok v
    ]
  ]

-- The key of an output in the database: 'C' and the outpoint.
unfoldable pub utxo_key : Uint256 → ℕ → Result Bytes
utxo_key hash n = elim (write_db_out_point (record { hash = hash; n = n })) [
  | ok bs ↦ ok (b'C' ∷ bs)
  | err e ↦ err e
]

-- `IsUTXO`, over the `Has` of the database.
unfoldable pub is_utxo : (Bytes → Result Bool) → Uint256 → ℕ → Result Bool
is_utxo has hash n = elim (utxo_key hash n) [ ok key ↦ has key | err e ↦ err e ]

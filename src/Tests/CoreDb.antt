-- ===== src/Tests/CoreDb.antt =====
-- coredb/utxo.go and `GetUTXO` of coredb/leveldb.go at concrete inputs.
use blkchain.Prelude.{
  ◌≡◌, refl, true, false, Option, none, some, [], ◌∷◌, ◌++◌, length, replicate, ◌==◌, if◌then◌else◌,
  arith,
}
use blkchain.Io.{ok, err, Bytes, IsU64, read_full, eof, unexpected_eof}
use blkchain.Binary.{read_var_int_loop, read_var_int, fill_groups, write_var_int}
use blkchain.Uint256.{copy}
use blkchain.CoreDb.Amount.{
  times_ten, expand, decompress_amount, compress_amount, decompress_amount-compress_amount,
}
use blkchain.CoreDb.Script.{
  get_special_size, copy_at, pay_to_key_hash, pay_to_script_hash, pay_to_key, pay_to_full_key,
  decompress_script,
}
use blkchain.CoreDb.Script.Forms.{standard, decompress_script-standard}
use blkchain.CoreDb.Utxo.{
  Utxo, read_var_int32, read_db_out_point, write_db_out_point, read_script, bin_read, get_utxo,
  utxo_key,
}
use blkchain.CoreDb.Utxo.RoundTrip.{
  short_form, whole, coin_bytes, script_of, out_point_bytes, key_bytes,
  read_db_out_point-write_db_out_point, utxo_key-injective, bin_read-coin_bytes,
}
use blkchain.CoreDb.Utxo.Lookup.{get_utxo-coin_bytes}
use blkchain.Tests.Data.{out_point, out_point-IsOutPoint, tx_out}

program : Unit {0}
unfolding read_full read_var_int_loop read_var_int fill_groups write_var_int copy times_ten expand
    decompress_amount get_special_size copy_at pay_to_key_hash pay_to_script_hash pay_to_key
    pay_to_full_key decompress_script read_var_int32 read_db_out_point write_db_out_point
    read_script bin_read get_utxo utxo_key
program = tt

-- A parser that takes a key only when it starts with 2, and answers with 65 bytes.
abbrev parse : Bytes → Option Bytes
parse [] = none
parse (b ∷ key) = if b == 2 then some (4 ∷ replicate 64 9) else none

parse_wide : (key full : Bytes) → parse key ≡ some full → length full ≡ 65
parse_wide [] full e = absurd cc
parse_wide (b ∷ key) full e = ground arith

abbrev old : Utxo
old = record { out_point = out_point; height = 0; coinbase = false; tx_out = tx_out }

amounts :
    (decompress_amount 0 ≡ 0)
    × (decompress_amount 9 ≡ 100_000_000)
    × (decompress_amount 50 ≡ 5_000_000_000)
    × (decompress_amount 21_000_000 ≡ 2_100_000_000_000_000)
unfolding program
amounts = (refl, refl, refl, refl)

short_coin :
    (bin_read parse old (0 ∷ []) ≡ err eof) × (read_script parse 0 (1 ∷ []) ≡ err unexpected_eof)
unfolding program
short_coin = (refl, refl)

decompress_amount-compress_amount_example :
    IsU64 (compress_amount 5_000_000_000)
    × (decompress_amount (compress_amount 5_000_000_000) ≡ 5_000_000_000)
decompress_amount-compress_amount_example =
    decompress_amount-compress_amount 5_000_000_000 (omega arith)

decompress_script-standard_example :
    decompress_script parse 4 (replicate 32 1) ≡ standard parse 4 (replicate 32 1)
unfolding get_special_size
decompress_script-standard_example =
    decompress_script-standard parse parse_wide 4 (replicate 32 1) (omega arith) refl

read_db_out_point-write_db_out_point_example :
    (bs : Bytes) × (write_db_out_point out_point ≡ ok bs)
    × (read_db_out_point (bs ++ 1 ∷ []) ≡ ok (out_point, 1 ∷ []))
read_db_out_point-write_db_out_point_example =
    read_db_out_point-write_db_out_point out_point (1 ∷ []) out_point-IsOutPoint

utxo_key-injective_example : out_point ≡ out_point
utxo_key-injective_example =
    utxo_key-injective out_point out_point out_point-IsOutPoint out_point-IsOutPoint refl

bin_read-coin_bytes_example :
    bin_read parse old
      (coin_bytes 120_891 true 5_000_000_000 (short_form 0 (replicate 20 6)) ++ 1 ∷ [])
    ≡ ok (
      record old {
        height = 120_891;
        coinbase = true;
        tx_out = record {
          value = 5_000_000_000;
          script_pub_key = script_of parse (short_form 0 (replicate 20 6));
        };
      },
      1 ∷ [],
    )
unfolding get_special_size
bin_read-coin_bytes_example =
    bin_read-coin_bytes parse parse_wide old 120_891 true 5_000_000_000
      (short_form 0 (replicate 20 6)) (1 ∷ []) (omega arith) (omega arith) (omega arith, refl)

get_utxo-coin_bytes_example :
    get_utxo parse old (b'C' ∷ out_point_bytes out_point) (coin_bytes 7 false 1 (whole (1 ∷ [])))
    ≡ ok (record {
      out_point = out_point;
      height = 7;
      coinbase = false;
      tx_out = record { value = 1; script_pub_key = script_of parse (whole (1 ∷ [])) };
    })
get_utxo-coin_bytes_example =
    get_utxo-coin_bytes parse parse_wide old out_point (b'C' ∷ out_point_bytes out_point) 7 false 1
      (whole (1 ∷ [])) out_point-IsOutPoint (key_bytes out_point out_point-IsOutPoint) (omega arith)
      (omega arith) (omega arith)

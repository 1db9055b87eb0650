-- ===== src/CoreDb/Utxo/Lookup.antt =====
-- `GetUTXO` of coredb/leveldb.go on an entry of the database.
use blkchain.Prelude.{
  ℕ, ◌<◌, ◌≤◌, ◌^◌, ◌≡◌, refl, ap, sym, ◌∙◌, Bool, Option, some, [], ◌∷◌, length, append-nil,
}
use blkchain.Io.{Result, ok, Bytes}
use blkchain.TxIn.{OutPoint}
use blkchain.TxIn.RoundTrip.{IsOutPoint}
use blkchain.CoreDb.Amount.{max_money}
use blkchain.CoreDb.Utxo.{Utxo, read_db_out_point, bin_read, get_utxo, utxo_key}
use blkchain.CoreDb.Utxo.RoundTrip.{
  Stored, IsStored, out_point_bytes, key_bytes, read_db_out_point-bytes, coin_bytes, script_of,
  bin_read-coin_bytes,
}

same_bytes : {bs key : Bytes} → ◌≡◌ {A = Result Bytes} (ok bs) (ok key) → key ≡ bs
same_bytes e = cc

module _ (parse : Bytes → Option Bytes)
    (wide : (key full : Bytes) → parse key ≡ some full → length full ≡ 65) where
  -- From the key of an output and a coin that is encoded as Bitcoin Core does, within the same
  -- bounds as for a coin alone, the reader of the chain state gives the outpoint, the height, the
  -- coinbase mark, the amount and the script, when the key parser answers with 65 bytes.
  pub get_utxo-coin_bytes :
      (u : Utxo) (o : OutPoint) (key : Bytes) (height : ℕ) (coinbase : Bool) (value : ℕ)
      (stored : Stored)
      → IsOutPoint o
      → utxo_key o.hash o.n ≡ ok key
      → height < 2 ^ 31
      → value ≤ max_money
      → IsStored stored
      → get_utxo parse u key (coin_bytes height coinbase value stored)
        ≡ ok (record {
          out_point = o;
          height = height;
          coinbase = coinbase;
          tx_out = record { value = value; script_pub_key = script_of parse stored };
        })
  unfolding get_utxo
  get_utxo-coin_bytes u o key height coinbase value stored ho hk hh hv hs =
      let at_key : key ≡ b'C' ∷ out_point_bytes o = same_bytes (sym (key_bytes o ho) ∙ hk) in
      let out = out_point_bytes o in
      let coin = coin_bytes height coinbase value stored in
      let read_out : read_db_out_point out ≡ ok (o, []) =
        ap read_db_out_point (sym (append-nil out)) ∙ read_db_out_point-bytes o [] ho in
      let read_coin =
        ap (bin_read parse (record u { out_point = o })) (sym (append-nil coin))
        ∙ bin_read-coin_bytes parse wide (record u { out_point = o }) height coinbase value stored
            [] hh hv hs in
      rw (at_key, get_utxo) (rw (read_out, get_utxo) (rw (read_coin, get_utxo) refl))

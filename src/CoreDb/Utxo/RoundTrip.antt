-- ===== src/CoreDb/Utxo/RoundTrip.antt =====
-- The encoding that Bitcoin Core gives an unspent output, and what is read of it.
use blkchain.Prelude.{
  ℕ, ◌+◌, ◌-◌, ◌*◌, ◌^◌, ◌≤◌, ◌<◌, ◌≡◌, refl, ap, sym, ◌∙◌, Bool, true, false, Option, some, [],
  ◌∷◌, ◌++◌, length, append_assoc, if◌then◌else◌, arith,
}
use blkchain.Prelude.Bits.{bit_and-one}
use blkchain.Io.{Result, ok, Bytes, IsU32, IsU64}
use blkchain.Io.LittleEndian
use blkchain.Binary.VarInt
use blkchain.TxIn.{OutPoint}
use blkchain.TxIn.RoundTrip.{IsOutPoint}
use blkchain.CoreDb.Amount.{
  decompress_amount, compress_amount, max_money, decompress_amount-compress_amount,
}
use blkchain.CoreDb.Script.{get_special_size}
use blkchain.CoreDb.Script.Forms.{standard, decompress_script-standard}
use blkchain.CoreDb.Utxo.{
  Utxo, read_var_int32, read_db_out_point, write_db_out_point, read_script, bin_read, utxo_key,
}

pub read_var_int32-put :
    (n : ℕ) (rest : Bytes) → IsU32 n → read_var_int32 (VarInt.put n ++ rest) ≡ ok (n, rest)
unfolding read_var_int32
read_var_int32-put n rest h = ground (arith, VarInt.read_var_int-put n rest (omega arith))

abbrev pub out_point_bytes : OutPoint → Bytes
out_point_bytes o = o.hash ++ VarInt.put o.n

pub write_db_out_point-bytes :
    (o : OutPoint) → IsOutPoint o → write_db_out_point o ≡ ok (out_point_bytes o)
unfolding write_db_out_point
write_db_out_point-bytes o h =
    rw (VarInt.write_var_int-put o.n (omega (arith, h.n)), write_db_out_point) refl

pub read_db_out_point-bytes :
    (o : OutPoint) (rest : Bytes)
    → IsOutPoint o
    → read_db_out_point (out_point_bytes o ++ rest) ≡ ok (o, rest)
unfolding read_db_out_point
read_db_out_point-bytes o rest h = rw (append_assoc o.hash (VarInt.put o.n) rest) (
    ground (
      arith,
      LittleEndian.read_full-append 32 o.hash (VarInt.put o.n ++ rest) h.hash.wide,
      VarInt.read_var_int-put o.n rest (omega (arith, h.n)),
    ))

-- A database outpoint with a 32-byte hash and a 32-bit index is written without fail and read
-- back, whatever follows it.
pub read_db_out_point-write_db_out_point :
    (o : OutPoint) (rest : Bytes)
    → IsOutPoint o
    → (bs : Bytes) × (write_db_out_point o ≡ ok bs)
      × (read_db_out_point (bs ++ rest) ≡ ok (o, rest))
read_db_out_point-write_db_out_point o rest h =
    (out_point_bytes o, write_db_out_point-bytes o h, read_db_out_point-bytes o rest h)

pub key_bytes : (o : OutPoint) → IsOutPoint o → utxo_key o.hash o.n ≡ ok (b'C' ∷ out_point_bytes o)
unfolding utxo_key
key_bytes o h = ground (arith, write_db_out_point-bytes o h)

same_key : (bs cs : Bytes) → ◌≡◌ {A = Result Bytes} (ok (b'C' ∷ bs)) (ok (b'C' ∷ cs)) → bs ≡ cs
same_key bs cs e = cc

same_read :
    (o other : OutPoint)
    → ◌≡◌ {A = Result (OutPoint × Bytes)} (ok (o, [])) (ok (other, []))
    → o ≡ other
same_read o other e = cc

-- Two outputs with a 32-byte hash and a 32-bit index that are looked up under the same key are the
-- same.
pub utxo_key-injective :
    (o other : OutPoint)
    → IsOutPoint o
    → IsOutPoint other
    → utxo_key o.hash o.n ≡ utxo_key other.hash other.n
    → o ≡ other
utxo_key-injective o other h k e =
    let same : out_point_bytes o ≡ out_point_bytes other =
      same_key _ _ (sym (key_bytes o h) ∙ e ∙ key_bytes other k) in
    same_read o other (
      sym (read_db_out_point-bytes o [] h)
      ∙ ap (λ (bs : Bytes). read_db_out_point (bs ++ [])) same
      ∙ read_db_out_point-bytes other [] k)

-- The script in a coin of Bitcoin Core: one of the six short forms, or any script behind its length.
pub data Stored : Type 0 where
  short_form : ℕ → Bytes → Stored
  whole : Bytes → Stored

pub stored_bytes : Stored → Bytes
stored_bytes (short_form size input) = VarInt.put size ++ input
stored_bytes (whole script) = VarInt.put (length script + 6) ++ script

abbrev pub IsStored : Stored → Type 0
IsStored (short_form size input) = (size < 6) × (length input ≡ get_special_size size)
IsStored (whole script) = length script + 6 < 2 ^ 32

-- A coin as Bitcoin Core writes it.
pub coin_bytes : ℕ → Bool → ℕ → Stored → Bytes
coin_bytes height coinbase value stored =
    VarInt.put (height * 2 + (if coinbase then 1 else 0))
    ++ (VarInt.put (compress_amount value) ++ stored_bytes stored)

-- What is read of a stored script: the standard script of a short form, or the script itself.
pub script_of : (Bytes → Option Bytes) → Stored → Bytes
script_of parse (short_form size input) = standard parse size input
script_of parse (whole script) = script

module _ (parse : Bytes → Option Bytes)
    (wide : (key full : Bytes) → parse key ≡ some full → length full ≡ 65) where
  -- The number in front, and the reading of the script behind it.
  stored_size : Stored → ℕ
  stored_size (short_form size input) = size
  stored_size (whole script) = length script + 6

  stored_rest : Stored → Bytes
  stored_rest (short_form size input) = input
  stored_rest (whole script) = script

  read_stored :
      (s : Stored) (rest : Bytes)
      → IsStored s
      → read_script parse (stored_size s) (stored_rest s ++ rest) ≡ ok (script_of parse s, rest)
  unfolding read_script stored_size stored_rest script_of
  read_stored (short_form size input) rest h = ground (
    arith,
    LittleEndian.read_full-append (get_special_size size) input rest h.1,
    decompress_script-standard parse wide size input,
  )
  read_stored (whole script) rest h =
      ground
        (arith, LittleEndian.read_full-append (length script + 6 - 6) script rest (omega arith))

  stored_split : (s : Stored) → stored_bytes s ≡ VarInt.put (stored_size s) ++ stored_rest s
  unfolding stored_bytes stored_size stored_rest
  stored_split (short_form size input) = refl
  stored_split (whole script) = refl

  stored_size-lt : (s : Stored) → IsStored s → IsU32 (stored_size s)
  unfolding stored_size
  stored_size-lt (short_form size input) h = omega (arith, h.0)
  stored_size-lt (whole script) h = h

  parts :
      (coinbase : Bool) (u : Utxo) (height value : ℕ) (stored : Stored) (rest : Bytes)
      → height < 2 ^ 31
      → IsU64 (compress_amount value)
      → decompress_amount (compress_amount value) ≡ value
      → IsStored stored
      → bin_read parse u (
          VarInt.put (height * 2 + (if coinbase then 1 else 0))
          ++ (VarInt.put (compress_amount value)
              ++ (VarInt.put (stored_size stored) ++ (stored_rest stored ++ rest))))
        ≡ ok (
          record u {
            height = height;
            coinbase = coinbase;
            tx_out = record { value = value; script_pub_key = script_of parse stored };
          },
          rest,
        )
  unfolding bin_read
  parts true u height value stored rest hh fits restored hs =
      let script = VarInt.put (stored_size stored) ++ (stored_rest stored ++ rest) in
      ground (
        arith,
        read_var_int32-put (height * 2 + 1) (VarInt.put (compress_amount value) ++ script)
            (omega arith),
        VarInt.read_var_int-put (compress_amount value) script fits,
        read_var_int32-put (stored_size stored) (stored_rest stored ++ rest)
            (stored_size-lt stored hs),
        read_stored stored rest hs,
        bit_and-one (height * 2 + 1),
        restored,
      )
  parts false u height value stored rest hh fits restored hs =
      let script = VarInt.put (stored_size stored) ++ (stored_rest stored ++ rest) in
      ground (
        arith,
        read_var_int32-put (height * 2 + 0) (VarInt.put (compress_amount value) ++ script)
            (omega arith),
        VarInt.read_var_int-put (compress_amount value) script fits,
        read_var_int32-put (stored_size stored) (stored_rest stored ++ rest)
            (stored_size-lt stored hs),
        read_stored stored rest hs,
        bit_and-one (height * 2 + 0),
        restored,
      )

  -- A coin that is encoded as Bitcoin Core does, with a height below 2^31, at most 21 million
  -- coins and a script in one of the six short forms or of a length below 2^32 - 6, is read with
  -- its height, its coinbase mark, its amount and the script that it stands for, when the key
  -- parser answers with 65 bytes; the outpoint is left as it was.
  pub bin_read-coin_bytes :
      (u : Utxo) (height : ℕ) (coinbase : Bool) (value : ℕ) (stored : Stored) (rest : Bytes)
      → height < 2 ^ 31
      → value ≤ max_money
      → IsStored stored
      → bin_read parse u (coin_bytes height coinbase value stored ++ rest)
        ≡ ok (
          record u {
            height = height;
            coinbase = coinbase;
            tx_out = record { value = value; script_pub_key = script_of parse stored };
          },
          rest,
        )
  unfolding bin_read coin_bytes
  bin_read-coin_bytes u height coinbase value stored rest hh hv hs =
      let code = height * 2 + (if coinbase then 1 else 0) in
      let amount = VarInt.put (compress_amount value) in
      let (fits, restored) = decompress_amount-compress_amount value hv in
      rw
        (
          append_assoc (VarInt.put code) (amount ++ stored_bytes stored) rest,
          append_assoc amount (stored_bytes stored) rest,
          stored_split stored,
          append_assoc (VarInt.put (stored_size stored)) (stored_rest stored) rest,
        )
        (parts coinbase u height value stored rest hh fits restored hs)

-- ===== src/Tests/Data.antt =====
-- A coinbase, a payment with a witness, and a header, which several modules of tests read.
use blkchain.Prelude.{
  ℕ, zero, suc, ◌<◌, ◌≢◌, refl, true, false, List, [], ◌∷◌, replicate, All, arith,
}
use blkchain.Io.{IsByte}
use blkchain.Uint256.{Uint256, IsHash}
use blkchain.TxIn.{TxIn, OutPoint}
use blkchain.TxIn.RoundTrip.{IsOutPoint}
use blkchain.TxIn.RoundTrip as In
use blkchain.TxOut.{TxOut}
use blkchain.TxOut.RoundTrip as Out
use blkchain.Tx.{Tx}
use blkchain.Tx.RoundTrip as T
use blkchain.BlockHeader.{BlockHeader}
use blkchain.BlockHeader.RoundTrip as H

-- 32 equal bytes.
abbrev pub hash_of : ℕ → Uint256
hash_of b = replicate 32 b

all_bytes : (n b : ℕ) → b < 256 → All IsByte (replicate n b)
all_bytes zero b h = tt
all_bytes (suc n) b h = (h, all_bytes n b h)

pub hash_of-IsHash : (b : ℕ) → b < 256 → IsHash (hash_of b)
hash_of-IsHash b h = record { wide = refl; bytes = all_bytes 32 b h }

abbrev pub out_point : OutPoint
out_point = record { hash = hash_of 7; n = 3 }

pub out_point-IsOutPoint : IsOutPoint out_point
out_point-IsOutPoint = record { hash = hash_of-IsHash 7 (omega arith); n = omega arith }

abbrev pub tx_in : TxIn
tx_in = record {
  prev_out = out_point;
  script_sig = 0x51 ∷ [];
  sequence = 9;
  witness = (1 ∷ 2 ∷ []) ∷ [];
}

abbrev pub bare_in : TxIn
bare_in = record tx_in { witness = [] }

pub tx_in-IsValid : In.IsValid tx_in
tx_in-IsValid = record {
  prev_out = out_point-IsOutPoint;
  script_sig = omega arith;
  sequence = omega arith;
  witness = record { count = omega arith; items = (omega arith, tt) };
}

pub bare_in-IsValid : In.IsValid bare_in
bare_in-IsValid = record {
  prev_out = out_point-IsOutPoint;
  script_sig = omega arith;
  sequence = omega arith;
  witness = record { count = omega arith; items = tt };
}

abbrev pub tx_out : TxOut
tx_out = record { value = 5000; script_pub_key = 0x6a ∷ [] }

tx_out-IsValid : Out.IsValid tx_out
tx_out-IsValid = record { value = omega arith; script = omega arith }

abbrev pub tx : Tx
tx = record {
  version = 2;
  tx_ins = tx_in ∷ bare_in ∷ [];
  tx_outs = tx_out ∷ [];
  lock_time = 0;
  seg_wit = true;
}

pub some_in : {t : TxIn} {ts : List TxIn} → t ∷ ts ≢ []
some_in e = cc

pub tx-IsValid : T.IsValid tx
tx-IsValid = record {
  version = omega arith;
  tx_ins = record { count = omega arith; ins = (tx_in-IsValid, (bare_in-IsValid, tt)) };
  some_in = some_in;
  tx_outs = record { count = omega arith; outs = (tx_out-IsValid, tt) };
  lock_time = omega arith;
  plain = λ e. absurd cc;
}

abbrev pub plain_tx : Tx
plain_tx = record tx { tx_ins = bare_in ∷ []; seg_wit = false }

pub plain_tx-IsValid : T.IsValid plain_tx
plain_tx-IsValid = record {
  version = omega arith;
  tx_ins = record { count = omega arith; ins = (bare_in-IsValid, tt) };
  some_in = some_in;
  tx_outs = record { count = omega arith; outs = (tx_out-IsValid, tt) };
  lock_time = omega arith;
  plain = λ e. (refl, tt);
}

abbrev pub header : BlockHeader
header = record {
  version = 1;
  prev_hash = hash_of 0;
  hash_merkle_root = hash_of 4;
  time = 1_231_006_505;
  bits = 0x1d00ffff;
  nonce = 2_083_236_893;
}

pub header-IsValid : H.IsValid header
header-IsValid = record {
  version = omega arith;
  prev_hash = hash_of-IsHash 0 (omega arith);
  hash_merkle_root = hash_of-IsHash 4 (omega arith);
  time = omega arith;
  bits = omega arith;
  nonce = omega arith;
}

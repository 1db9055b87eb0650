-- ===== src/TxInList/RoundTrip.antt =====
-- A list of inputs that was written is read back, without the witnesses.
use blkchain.Prelude.{◌≡◌, refl, [], ◌∷◌, ◌++◌, length, map, All, arith}
use blkchain.Io.{ok, Bytes, IsLen}
use blkchain.Binary.Strings
use blkchain.TxIn
use blkchain.TxIn.{TxIn}
use blkchain.TxIn.RoundTrip as In
use blkchain.TxInList.{
  TxInList, zero_tx_in, read_tx_in, bin_read, bin_write, add_base_sizes, base_size,
}

-- An input as its own binary form shows it.
abbrev pub strip : TxIn → TxIn
strip t = record t { witness = [] }

pub record IsValid (ts : TxInList) : Type 0 where
  pub count : IsLen (length ts)
  pub ins : All In.IsValid ts

read_tx_in_step :
    (t : TxIn) (ts : TxInList) (rest : Bytes)
    → In.IsValid t
    → read_tx_in ts (TxIn.bin_write t ++ rest) ≡ ok (ts ++ strip t ∷ [], rest)
unfolding read_tx_in
read_tx_in_step t ts rest h = ground (arith, In.bin_read-bin_write t zero_tx_in rest h)

pub bin_read-bin_write :
    (more ts : TxInList) (rest : Bytes)
    → IsValid more
    → bin_read ts (bin_write more ++ rest) ≡ ok (ts ++ map strip more, rest)
unfolding bin_read bin_write
bin_read-bin_write more ts rest h =
    Strings.read_list-write_list TxIn.bin_write read_tx_in strip In.IsValid read_tx_in_step more ts
      rest h.ins h.count

pub length-bin_write : (ts : TxInList) → All In.IsValid ts → length (bin_write ts) ≡ base_size ts
unfolding bin_write base_size add_base_sizes
length-bin_write =
    Strings.length-write_list TxIn.bin_write TxIn.base_size In.IsValid
      (λ t h. In.length-bin_write t h.prev_out) add_base_sizes (λ n. refl) (λ n t ts. refl)

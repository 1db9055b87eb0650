-- ===== src/TxOutList/RoundTrip.antt =====
-- A list of outputs that was written is read back.
use blkchain.Prelude.{◌≡◌, refl, ap, ◌∙◌, [], ◌∷◌, ◌++◌, length, All, arith}
use blkchain.Io.{ok, Bytes, IsLen}
use blkchain.Binary.Strings
use blkchain.TxOut
use blkchain.TxOut.{TxOut}
use blkchain.TxOut.RoundTrip as Out
use blkchain.TxOutList.{TxOutList, zero_tx_out, read_tx_out, bin_read, bin_write, add_sizes, size}

pub record IsValid (ts : TxOutList) : Type 0 where
  pub count : IsLen (length ts)
  pub outs : All Out.IsValid ts

read_tx_out_step :
    (t : TxOut) (ts : TxOutList) (rest : Bytes)
    → Out.IsValid t
    → read_tx_out ts (TxOut.bin_write t ++ rest) ≡ ok (ts ++ t ∷ [], rest)
unfolding read_tx_out
read_tx_out_step t ts rest h = ground (arith, Out.bin_read-bin_write t zero_tx_out rest h)

pub bin_read-bin_write :
    (more ts : TxOutList) (rest : Bytes)
    → IsValid more
    → bin_read ts (bin_write more ++ rest) ≡ ok (ts ++ more, rest)
unfolding bin_read bin_write
bin_read-bin_write more ts rest h =
    Strings.read_list-write_list TxOut.bin_write read_tx_out (λ t. t) Out.IsValid read_tx_out_step
      more ts rest h.outs h.count
    ∙ ap (λ (l : TxOutList). ok (ts ++ l, rest)) (Strings.map_self more)

pub length-bin_write : (ts : TxOutList) → All Out.IsValid ts → length (bin_write ts) ≡ size ts
unfolding bin_write size add_sizes
length-bin_write =
    Strings.length-write_list TxOut.bin_write TxOut.size Out.IsValid (λ t h. Out.length-bin_write t)
      add_sizes (λ n. refl) (λ n t ts. refl)

-- ===== src/TxList/RoundTrip.antt =====
-- A list of transactions as the source reads it. There is no writer in the source: the bytes are
-- those of `writeList`.
use blkchain.Prelude.{ℕ, ◌+◌, ◌*◌, ◌≡◌, refl, ap, ◌∙◌, [], ◌∷◌, ◌++◌, length, All, arith}
use blkchain.Io.{ok, Bytes, IsLen}
use blkchain.Binary.{write_list, compact_size_size}
use blkchain.Binary.Strings
use blkchain.Tx
use blkchain.Tx.{Tx, zero_tx}
use blkchain.Tx.RoundTrip as One
use blkchain.Tx.Size
use blkchain.TxList.{TxList, read_tx, bin_read, add_all, base_size, size, weight}

pub record IsValid (tl : TxList) : Type 0 where
  pub count : IsLen (length tl)
  pub txs : All One.IsValid tl

pub bytes : TxList → Bytes
bytes tl = write_list Tx.bin_write tl

read_tx_step :
    (t : Tx) (tl : TxList) (rest : Bytes)
    → One.IsValid t
    → read_tx tl (Tx.bin_write t ++ rest) ≡ ok (tl ++ t ∷ [], rest)
unfolding read_tx
read_tx_step t tl rest h = ground (arith, One.bin_read-bin_write t rest h)

-- A list of transactions that are read back one by one is read back from its count and their
-- bytes, and stands behind those that were there.
pub bin_read-bytes :
    (more tl : TxList) (rest : Bytes)
    → IsValid more
    → bin_read tl (bytes more ++ rest) ≡ ok (tl ++ more, rest)
unfolding bin_read bytes
bin_read-bytes more tl rest h =
    Strings.read_list-write_list Tx.bin_write read_tx (λ t. t) One.IsValid read_tx_step more tl rest
      h.txs h.count
    ∙ ap (λ (l : TxList). ok (tl ++ l, rest)) (Strings.map_self more)

-- The bytes that the sizes of the transactions leave out.
abbrev pub left_out : TxList → ℕ
left_out [] = 0
left_out (t ∷ tl) = Size.left_out t + left_out tl

add_all-split :
    (f g h : Tx → ℕ) (tl : TxList) (n m : ℕ)
    → ((t : Tx) → h t ≡ f t * 3 + g t)
    → add_all h (n * 3 + m) tl ≡ add_all f n tl * 3 + add_all g m tl
unfolding add_all
add_all-split f g h [] n m e = omega arith
add_all-split f g h (t ∷ tl) n m e =
    let next : n * 3 + m + h t ≡ (n + f t) * 3 + (m + g t) = omega (arith, e t) in
    rw next (add_all-split f g h tl (n + f t) (m + g t) e)

add_all-add : (f : Tx → ℕ) (tl : TxList) (n k : ℕ) → add_all f (n + k) tl ≡ add_all f n tl + k
unfolding add_all
add_all-add f [] n k = refl
add_all-add f (t ∷ tl) n k =
    let next : n + k + f t ≡ n + f t + k = omega arith in rw next (add_all-add f tl (n + f t) k)

-- The weight of a list of transactions and three times the size of its count are three times its
-- size without witnesses and its size with them.
pub weight-sizes :
    (tl : TxList) → weight tl + 3 * compact_size_size (length tl) ≡ 3 * base_size tl + size tl
unfolding weight base_size size Tx.weight
weight-sizes tl =
    let n = compact_size_size (length tl) in
    let e : n + n * 3 ≡ n * 3 + n = omega arith in
    omega (
      arith,
      ap (λ (k : ℕ). add_all Tx.weight k tl) e,
      add_all-add Tx.weight tl n (n * 3),
      add_all-split Tx.base_size Tx.size Tx.weight tl n n (λ t. refl),
    )

-- ===== src/Block/Reading.antt =====
-- Reading a block: zero bytes in front are skipped, and the magic number decides.
use blkchain.Prelude.{
  ℕ, zero, suc, ◌/◌, ◌%◌, ◌≡◌, ◌≢◌, ◌⊎◌, refl, [], ◌∷◌, ◌++◌, replicate, append_assoc, arith,
}
use blkchain.Io.{ok, err, Bytes, IsU32, bad_magic, eof}
use blkchain.Io.LittleEndian
use blkchain.Binary.{skip_zeros, read_magic}
use blkchain.BlockHeader
use blkchain.BlockHeader.{BlockHeader}
use blkchain.BlockHeader.RoundTrip as H
use blkchain.TxList.{TxList}
use blkchain.TxList.RoundTrip as T
use blkchain.Block.{Block, check_magic, bin_read}

-- A magic number whose first byte in a file is not zero.
abbrev pub IsMagic : ℕ → Type 0
IsMagic m = IsU32 m × (m % 256 ≢ 0)

skip_zeros-replicate :
    (n b : ℕ) (rest : Bytes) → b ≢ 0 → skip_zeros (replicate n 0 ++ b ∷ rest) ≡ ok (b, rest)
unfolding skip_zeros
skip_zeros-replicate zero b rest h = ground arith
skip_zeros-replicate (suc n) b rest h = skip_zeros-replicate n b rest h

skip_zeros-only : (n : ℕ) → skip_zeros (replicate n 0) ≡ err eof
unfolding skip_zeros
skip_zeros-only zero = refl
skip_zeros-only (suc n) = skip_zeros-only n

read_magic-put :
    (n m : ℕ) (rest : Bytes)
    → IsMagic m
    → read_magic (replicate n 0 ++ (LittleEndian.put 4 m ++ rest)) ≡ ok (m, rest)
unfolding read_magic
read_magic-put n m rest h = ground (
  arith,
  skip_zeros-replicate n (m % 256) (LittleEndian.put 3 (m / 256) ++ rest) h.1,
  LittleEndian.read_full-append 3 (LittleEndian.put 3 (m / 256)) rest
      (LittleEndian.length-put 3 (m / 256)),
  LittleEndian.get-put 4 m (omega arith),
  first,
)
  where
    first : LittleEndian.put 4 m ≡ (m % 256) ∷ LittleEndian.put 3 (m / 256)
    first = unfold LittleEndian.put in refl

-- A block in a file: the magic number, a size, the header and the transactions.
pub file_bytes : ℕ → ℕ → BlockHeader → TxList → Bytes
file_bytes magic size bh txs =
    LittleEndian.put 4 magic
    ++ (LittleEndian.put 4 size ++ (BlockHeader.bin_write bh ++ T.bytes txs))

-- A block whose parts fit, written behind any number of zero bytes with a magic number whose first
-- byte is not zero and with any size, is read into a block that has no transactions yet and
-- expects that magic number or none: its header and its transactions are those written, and the
-- bytes behind it are left.
pub bin_read-file_bytes :
    (b : Block) (n magic size : ℕ) (bh : BlockHeader) (txs : TxList) (rest : Bytes)
    → IsMagic magic
    → IsU32 size
    → H.IsValid bh
    → T.IsValid txs
    → (b.magic ≡ 0) ⊎ (b.magic ≡ magic)
    → b.txs ≡ []
    → bin_read b (replicate n 0 ++ (file_bytes magic size bh txs ++ rest))
      ≡ ok (record b { block_header = bh; txs = txs }, rest)
unfolding bin_read check_magic file_bytes
bin_read-file_bytes b n magic size bh txs rest hm hs hh ht e start =
    let header = BlockHeader.bin_write bh in
    let list = T.bytes txs in
    rw
      (
        append_assoc (LittleEndian.put 4 magic) (LittleEndian.put 4 size ++ (header ++ list)) rest,
        append_assoc (LittleEndian.put 4 size) (header ++ list) rest,
        append_assoc header list rest,
      )
      (ground (
        arith,
        read_magic-put n magic (LittleEndian.put 4 size ++ (header ++ (list ++ rest))) hm,
        LittleEndian.read_u32 size (header ++ (list ++ rest)) hs,
        H.bin_read-bin_write bh (list ++ rest) hh,
        T.bin_read-bytes txs [] rest ht,
        start,
      ))

-- Behind any number of zero bytes, a magic number other than the one that the block expects is an
-- error that names it.
pub bin_read-bad_magic :
    (b : Block) (n magic : ℕ) (rest : Bytes)
    → IsMagic magic
    → b.magic ≢ 0
    → b.magic ≢ magic
    → bin_read b (replicate n 0 ++ (LittleEndian.put 4 magic ++ rest)) ≡ err (bad_magic magic)
unfolding bin_read check_magic
bin_read-bad_magic b n magic rest hm some other = ground (arith, read_magic-put n magic rest hm)

-- From zero bytes alone a block reads the end of the input.
pub bin_read-zeros : (b : Block) (n : ℕ) → bin_read b (replicate n 0) ≡ err eof
unfolding bin_read read_magic
bin_read-zeros b n = ground (arith, skip_zeros-only n)

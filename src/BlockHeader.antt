-- ===== src/BlockHeader.antt =====
-- block_header.go: the header of a block, 80 bytes of fixed fields.
pub mod RoundTrip
use blkchain.Prelude.{ℕ, ◌+◌, ◌++◌, take, drop}
use blkchain.Io.{Bytes, Reader, ◌>>=◌, done, read_full}
use blkchain.Io.LittleEndian
use blkchain.Uint256.{Uint256, sha_sha256}

pub record BlockHeader : Type 0 where
  pub version : ℕ
  pub prev_hash : Uint256
  pub hash_merkle_root : Uint256
  pub time : ℕ
  pub bits : ℕ
  pub nonce : ℕ

-- `binary.Read` of the struct: one read of all its bytes, and its fields in order.
unfoldable pub decode : Bytes → BlockHeader
decode bs = record {
  version = LittleEndian.get (take 4 bs);
  prev_hash = take 32 (drop 4 bs);
  hash_merkle_root = take 32 (drop 32 (drop 4 bs));
  time = LittleEndian.get (take 4 (drop 32 (drop 32 (drop 4 bs))));
  bits = LittleEndian.get (take 4 (drop 4 (drop 32 (drop 32 (drop 4 bs)))));
  nonce = LittleEndian.get (drop 4 (drop 4 (drop 32 (drop 32 (drop 4 bs)))));
}

unfoldable pub bin_read : Reader BlockHeader
bin_read = do bs ← read_full 80; done (decode bs)

unfoldable pub bin_write : BlockHeader → Bytes
bin_write bh =
    LittleEndian.put 4 bh.version
    ++ (bh.prev_hash
        ++ (bh.hash_merkle_root
            ++ (LittleEndian.put 4 bh.time
                ++ (LittleEndian.put 4 bh.bits ++ LittleEndian.put 4 bh.nonce))))

unfoldable pub hash : (Bytes → Bytes) → BlockHeader → Uint256
hash sha256 bh = sha_sha256 sha256 (bin_write bh)

unfoldable pub size : BlockHeader → ℕ
size bh = 4 + 32 + 32 + 4 + 4 + 4

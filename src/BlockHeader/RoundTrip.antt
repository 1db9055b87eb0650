-- ===== src/BlockHeader/RoundTrip.antt =====
-- A header that was written is read back, and takes as many bytes as its size says.
use blkchain.Prelude.{◌≡◌, ◌++◌, length, length-append, take_front, drop_front, arith}
use blkchain.Io.{ok, Bytes, IsU32}
use blkchain.Io.LittleEndian
use blkchain.Uint256.{IsHash}
use blkchain.BlockHeader.{BlockHeader, decode, bin_read, bin_write, size}

pub record IsValid (bh : BlockHeader) : Type 0 where
  pub version : IsU32 bh.version
  pub prev_hash : IsHash bh.prev_hash
  pub hash_merkle_root : IsHash bh.hash_merkle_root
  pub time : IsU32 bh.time
  pub bits : IsU32 bh.bits
  pub nonce : IsU32 bh.nonce

pub length-bin_write : (bh : BlockHeader) → IsValid bh → length (bin_write bh) ≡ size bh
unfolding bin_write size
length-bin_write bh h =
    let n = LittleEndian.put 4 bh.nonce in
    let b = LittleEndian.put 4 bh.bits in
    let t = LittleEndian.put 4 bh.time in
    omega (
      arith,
      length-append (LittleEndian.put 4 bh.version)
          (bh.prev_hash ++ (bh.hash_merkle_root ++ (t ++ (b ++ n)))),
      length-append bh.prev_hash (bh.hash_merkle_root ++ (t ++ (b ++ n))),
      length-append bh.hash_merkle_root (t ++ (b ++ n)),
      length-append t (b ++ n),
      length-append b n,
      LittleEndian.length-put 4 bh.version,
      LittleEndian.length-put 4 bh.time,
      LittleEndian.length-put 4 bh.bits,
      LittleEndian.length-put 4 bh.nonce,
      h.prev_hash.wide,
      h.hash_merkle_root.wide,
    )

-- The 80 bytes that are hashed of a block header decode to the header, when its hashes have 32
-- bytes and its numbers 32 bits.
pub decode-bin_write : (bh : BlockHeader) → IsValid bh → decode (bin_write bh) ≡ bh
unfolding decode bin_write
decode-bin_write bh h =
    let n = LittleEndian.put 4 bh.nonce in
    let b = LittleEndian.put 4 bh.bits in
    let t = LittleEndian.put 4 bh.time in
    let v = LittleEndian.put 4 bh.version in
    let r3 = t ++ (b ++ n) in
    let r2 = bh.hash_merkle_root ++ r3 in
    let r1 = bh.prev_hash ++ r2 in
    ground (
      arith,
      take_front 4 v r1 (LittleEndian.length-put 4 bh.version),
      drop_front 4 v r1 (LittleEndian.length-put 4 bh.version),
      take_front 32 bh.prev_hash r2 h.prev_hash.wide,
      drop_front 32 bh.prev_hash r2 h.prev_hash.wide,
      take_front 32 bh.hash_merkle_root r3 h.hash_merkle_root.wide,
      drop_front 32 bh.hash_merkle_root r3 h.hash_merkle_root.wide,
      take_front 4 t (b ++ n) (LittleEndian.length-put 4 bh.time),
      drop_front 4 t (b ++ n) (LittleEndian.length-put 4 bh.time),
      take_front 4 b n (LittleEndian.length-put 4 bh.bits),
      drop_front 4 b n (LittleEndian.length-put 4 bh.bits),
      LittleEndian.get-put 4 bh.version (omega arith),
      LittleEndian.get-put 4 bh.time (omega arith),
      LittleEndian.get-put 4 bh.bits (omega arith),
      LittleEndian.get-put 4 bh.nonce (omega arith),
    )

pub bin_read-bin_write :
    (bh : BlockHeader) (rest : Bytes) → IsValid bh → bin_read (bin_write bh ++ rest) ≡ ok (bh, rest)
unfolding bin_read
bin_read-bin_write bh rest h = ground (
  arith,
  LittleEndian.read_full-append 80 (bin_write bh) rest (unfold size in length-bin_write bh h),
  decode-bin_write bh h,
)

-- ===== src/Block.antt =====
-- block.go: a block, as it stands in the files of Bitcoin Core.
pub mod Reading
use blkchain.Prelude.{ℕ, ◌+◌, ◌*◌, ◌++◌, Bool, ◌&&◌, not, ltb, ◌==◌, if◌then◌else◌}
use blkchain.Io.{Bytes, Reader, ◌>>=◌, ◌>>◌, done, fail, bad_magic}
use blkchain.Io.LittleEndian
use blkchain.Binary.{read_magic}
use blkchain.BlockHeader
use blkchain.BlockHeader.{BlockHeader}
use blkchain.TxList
use blkchain.TxList.{TxList}

abbrev pub main_net_magic : ℕ
main_net_magic = 0xd9b4bef9

abbrev pub test_net_magic : ℕ
test_net_magic = 0x0709110b

pub record Block : Type 0 where
  pub magic : ℕ
  pub block_header : BlockHeader
  pub txs : TxList

unfoldable pub base_size : Block → ℕ
base_size b = BlockHeader.size b.block_header + TxList.base_size b.txs

unfoldable pub size : Block → ℕ
size b = BlockHeader.size b.block_header + TxList.size b.txs

unfoldable pub weight : Block → ℕ
weight b = base_size b * 3 + size b

unfoldable pub virtual_size : Block → ℕ
virtual_size b = BlockHeader.size b.block_header + TxList.virtual_size b.txs

-- `b.Magic > 0 && b.Magic != m`.
unfoldable pub check_magic : ℕ → ℕ → Reader (Unit {0})
check_magic magic m = if ltb 0 magic && not (magic == m) then fail (bad_magic m) else done tt

-- The size that is read is not looked at.
unfoldable pub bin_read : Block → Reader Block
bin_read b = do
  m ← read_magic
  check_magic b.magic m
  size ← LittleEndian.read 4
  bh ← BlockHeader.bin_read
  txs ← TxList.bin_read b.txs
  done (record b { block_header = bh; txs = txs })

-- ===== src/Tests/Block.antt =====
-- block.go and block_header.go at concrete inputs.
use blkchain.Prelude.{◌+◌, ◌*◌, ◌≡◌, inr, refl, [], ◌∷◌, ◌++◌, replicate, arith}
use blkchain.Io.{ok, err, bad_magic}
use blkchain.Io.LittleEndian
use blkchain.Binary.{compact_size_size}
use blkchain.BlockHeader
use blkchain.BlockHeader.RoundTrip.{decode-bin_write}
use blkchain.TxList
use blkchain.TxList.RoundTrip.{IsValid, bytes, bin_read-bytes, weight-sizes}
use blkchain.Block.{Block, main_net_magic, test_net_magic, bin_read}
use blkchain.Block.Reading.{IsMagic, file_bytes, bin_read-file_bytes, bin_read-bad_magic}
use blkchain.Tests.Data.{tx, tx-IsValid, plain_tx, plain_tx-IsValid, header, header-IsValid}

-- The block that reading starts with.
abbrev zero_block : Block
zero_block = record { magic = main_net_magic; block_header = header; txs = [] }

main_net_magic-IsMagic : IsMagic main_net_magic
main_net_magic-IsMagic = (omega arith, omega arith)

test_net_magic-IsMagic : IsMagic test_net_magic
test_net_magic-IsMagic = (omega arith, omega arith)

txs-IsValid : IsValid (plain_tx ∷ tx ∷ [])
txs-IsValid = record { count = omega arith; txs = (plain_tx-IsValid, (tx-IsValid, tt)) }

decode-bin_write_example : BlockHeader.decode (BlockHeader.bin_write header) ≡ header
decode-bin_write_example = decode-bin_write header header-IsValid

bin_read-bytes_example :
    TxList.bin_read [] (bytes (plain_tx ∷ tx ∷ []) ++ 1 ∷ []) ≡ ok (plain_tx ∷ tx ∷ [], 1 ∷ [])
bin_read-bytes_example = bin_read-bytes (plain_tx ∷ tx ∷ []) [] (1 ∷ []) txs-IsValid

weight-sizes_example :
    TxList.weight (plain_tx ∷ tx ∷ []) + 3 * compact_size_size 2
    ≡ 3 * TxList.base_size (plain_tx ∷ tx ∷ []) + TxList.size (plain_tx ∷ tx ∷ [])
weight-sizes_example = weight-sizes (plain_tx ∷ tx ∷ [])

bin_read-file_bytes_example :
    bin_read zero_block
      (replicate 2 0 ++ (file_bytes main_net_magic 500 header (plain_tx ∷ tx ∷ []) ++ 0 ∷ []))
    ≡ ok (record zero_block { block_header = header; txs = plain_tx ∷ tx ∷ [] }, 0 ∷ [])
bin_read-file_bytes_example =
    bin_read-file_bytes zero_block 2 main_net_magic 500 header (plain_tx ∷ tx ∷ []) (0 ∷ [])
      main_net_magic-IsMagic (omega arith) header-IsValid txs-IsValid (inr refl) refl

bin_read-bad_magic_example :
    bin_read zero_block (replicate 2 0 ++ (LittleEndian.put 4 test_net_magic ++ []))
    ≡ err (bad_magic test_net_magic)
bin_read-bad_magic_example =
    bin_read-bad_magic zero_block 2 test_net_magic [] test_net_magic-IsMagic (omega arith)
      (omega arith)

-- ===== src/Lib.antt =====
-- The blocks of Bitcoin as the Go package blkchain reads, writes and imports them.
--
-- Bytes are natural numbers below 256, and every machine word is a natural number with its wrap-
-- around written out. A reader (Io.antt) is a function from the bytes that are left to a value and
-- the rest, or an error: this is `io.Reader` over the bytes of a file, with `io.ReadFull` as the
-- only way to take some. A writer to a buffer is the list of its bytes, and its calls do not fail.
-- A `BinRead` method takes the old value of its receiver. Panics that the code can run into are
-- errors too: `make` of a negative length, and an index out of range.
--
-- The parts, from the bottom up:
--
--   Prelude, Io          shared names; tests, lists and bits; results, readers, little-endian words
--   Binary               binary.go: compact sizes, strings, lists, variable-length integers, magic numbers
--   Uint256              uint256.go, uint32.go: hashes, their text, values from SQL
--   Witness              witness.go
--   TxIn, TxInList       tx_in.go
--   TxOut, TxOutList     tx_out.go
--   Tx, TxList           tx.go: reading, both written forms, sizes, hash
--   BlockHeader, Block   block_header.go, block.go
--   HeightMap, Orphans   eliminateOrphans of coredb/leveldb.go and btcnode/btcnode.go
--   KeyMap, TxIdCache    db/txidcache.go: counted ids, the ring of recent hashes
--   CoreDb               coredb/utxo.go: Amount, Script, Utxo, and the chain state of coredb/leveldb.go
--   Index                the block index of coredb/leveldb.go, and the loop of cmd/import/import.go
--   FileBundle           filebundle.go: the block files as one input
--   BtcNode              btcnode/btcnode.go: transactions and blocks from a node's messages, and in
--                        Headers the heights of the headers that it sends
--   Db                   db/types.go and the writers of db/postgres.go: Table (begin and commit),
--                        Writers (what each does on a message), Worker (what is sent for a block) and
--                        System (all of them over their channels)
--   Tests                runs, and the theorems at concrete inputs
--
-- A definition has the name of its Go function in small letters (readCompactSize is
-- read_compact_size), and stands in the module of its receiver's type; where a Go function is
-- split, the parts are the loops and branches of its body, in the order in which it runs them.
--
-- Loops are structural recursion: those that read go through the bytes that are left or count a
-- number of rounds down, and the loop of WriteVarInt counts the ten bytes of its buffer, which are
-- enough for every 64-bit number. The loops over heights count down from the highest height, as
-- the source does. The import loop and the loop that reads from the bundle of files have rounds as
-- fuel, and their theorems say how many are enough; so has the recursion that gives heights to the
-- headers of a node. The goroutines of db/postgres.go are a step function on a state with the
-- channels and the tables; a turn says which of them is next, and a run is a sequence of turns.
--
-- What is not under the repository is a parameter: SHA-256 (`sha256`), the key parser of btcec
-- (`parse`, none for a refused key; that an uncompressed key has 65 bytes is a hypothesis), the
-- lookup of LevelDB (`has`) and the values that its iterator gives, the loading of a block from
-- the file that a header names (`load`), the database (`works` tells which calls of it succeed, by
-- table and number; the heights that it would tell come with a turn of the worker), the interrupts
-- (`interrupted`), the fields of a node's messages (`wire`), the opening of a file (`open_file`),
-- the first key in the iteration over a Go map (`first`), and the hashes of a header in the
-- elimination of orphans (`hash`, `prev_hash`). Of Bitcoin Core's compression of amounts and
-- scripts, which is not in the repository, Amount.antt and Script/Forms.antt have a version to
-- compare the readers with.
--
-- Not modelled: the network connection of btcnode, the callers of WriteBlock that wait for an
-- answer (their blocks are the input of the goroutines, and the answers to them are collected),
-- the text of the SQL of db with its indexes, triggers and constraints, the warm-up of the cache
-- of ids, the flags and signals of cmd/import, and logging. A Go map is an association list, so
-- that the order of its iteration is that of the list.

pub mod Prelude
pub mod Io
pub mod Binary
pub mod Uint256
pub mod Witness
pub mod TxIn
pub mod TxInList
pub mod TxOut
pub mod TxOutList
pub mod Tx
pub mod BlockHeader
pub mod TxList
pub mod Block
pub mod HeightMap
pub mod Orphans
pub mod KeyMap
pub mod TxIdCache
pub mod CoreDb
pub mod Index
pub mod BtcNode
pub mod FileBundle
pub mod Db
pub mod Tests

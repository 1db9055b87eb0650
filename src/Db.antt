-- ===== src/Db.antt =====
-- db/types.go and the rows of db/postgres.go: what goes over the channels between the block worker
-- and the writers, and what the writers copy into the tables.
pub mod Table
pub mod Writers
pub mod Worker
pub mod System
use blkchain.Prelude.{ℕ, ◌%◌, ◌^◌, Bool, Option}
use blkchain.Io.{Bytes}
use blkchain.Uint256.{Uint256}
use blkchain.Block.{Block}
use blkchain.Tx.{Tx}
use blkchain.TxIn.{TxIn}
use blkchain.TxOut.{TxOut}

-- The height is none where it is negative, and is then looked up. The sizes of the Go record are
-- nowhere set or read.
pub record BlockRec : Type 0 where
  pub block : Block
  pub id : ℕ
  pub height : Option ℕ
  pub hash : Uint256
  pub orphan : Bool

-- `sync` tells whether the channel is there.
pub record BlockRecSync : Type 0 where
  pub rec : BlockRec
  pub sync : Bool

pub record TxRec : Type 0 where
  pub id : ℕ
  pub block_id : ℕ
  pub n : ℕ
  pub tx : Tx
  pub hash : Uint256
  pub dupe : Bool

-- The cache of ids that the Go record points to is shared by all.
pub record TxInRec : Type 0 where
  pub tx_id : ℕ
  pub n : ℕ
  pub tx_in : TxIn

pub record TxOutRec : Type 0 where
  pub tx_id : ℕ
  pub n : ℕ
  pub tx_out : TxOut
  pub hash : Uint256

-- A record, or the signal to commit: nil, or a record without content. The signal tells whether it
-- carries a channel for the answer.
pub data Msg (A : Type 0) : Type 0 where
  row : A → Msg A
  commit_signal : Bool → Msg A

pub record BlockRow : Type 0 where
  pub id : ℕ
  pub height : Option ℕ
  pub hash : Bytes
  pub version : ℕ
  pub prevhash : Bytes
  pub merkleroot : Bytes
  pub time : ℕ
  pub bits : ℕ
  pub nonce : ℕ
  pub orphan : Bool
  pub size : ℕ
  pub base_size : ℕ
  pub weight : ℕ
  pub virt_size : ℕ

pub record TxRow : Type 0 where
  pub id : ℕ
  pub txid : Bytes
  pub version : ℕ
  pub locktime : ℕ
  pub size : ℕ
  pub base_size : ℕ
  pub weight : ℕ
  pub virt_size : ℕ

pub record BlockTxRow : Type 0 where
  pub block_id : ℕ
  pub n : ℕ
  pub tx_id : ℕ

pub record TxInRow : Type 0 where
  pub tx_id : ℕ
  pub n : ℕ
  pub prevout_tx_id : Option ℕ
  pub prevout_n : ℕ
  pub scriptsig : Bytes
  pub sequence : ℕ
  pub witness : Option Bytes

pub record TxOutRow : Type 0 where
  pub tx_id : ℕ
  pub n : ℕ
  pub value : ℕ
  pub scriptpubkey : Bytes
  pub spent : Bool

pub record PrevoutMiss : Type 0 where
  pub tx_id : ℕ
  pub n : ℕ
  pub prev_out_hash : Uint256

-- `int32(n)`, as its bits.
abbrev pub int32 : ℕ → ℕ
int32 n = n % 2 ^ 32

-- ===== src/Tests.antt =====
-- Runs of the definitions on concrete inputs, and the theorems at concrete inputs.
mod Data
mod Binary
mod Uint256
mod Tx
mod Block
mod CoreDb
mod Orphans
mod TxIdCache
mod FileBundle
mod BtcNode
mod Index
mod Db

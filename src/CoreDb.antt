-- ===== src/CoreDb.antt =====
-- coredb/: what the program reads of the databases of Bitcoin Core.
pub mod Amount
pub mod Script
pub mod Utxo

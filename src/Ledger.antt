-- ===== src/Ledger.antt =====
-- src/ledger: the ledger that the node keeps in shards of its file system.
pub mod Records
pub mod Chain
pub mod Shards

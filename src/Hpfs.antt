-- ===== src/Hpfs.antt =====
-- src/hpfs: how a node gets its file system to the state that the others agree on.
pub mod Items
pub mod Sync
pub mod Responses

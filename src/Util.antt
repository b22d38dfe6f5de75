-- ===== src/Util.antt =====
-- src/util: the containers and value types that the other components are built on.
pub mod TtlSet
pub mod RolloverHashset
pub mod SequenceHash
pub mod MerkleHashTree
pub mod BufferStore
pub mod Integers
pub mod Text

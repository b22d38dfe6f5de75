-- ===== src/Consensus.antt =====
-- src/consensus.cpp and consensus.hpp: the consensus rounds. `Types` is the state; the other
-- modules are the steps of a round. What the consensus thread reads of other components (the
-- clock, the configuration, the hashes of the ledger and of the contract's file system) are
-- arguments; the mutexes only guard single moves of data and are left out.
pub mod Types
pub mod Votes
pub mod Timing
pub mod Candidates
pub mod Closing
pub mod VoteStatus
pub mod Proposing
pub mod Inputs
pub mod Round
pub mod Populate
pub mod Execution
pub mod Dispatch
pub mod Commit
pub mod Nonunl

-- ===== src/Tests.antt =====
-- The theorems at concrete inputs, and runs of the code.
mod UtilTests
mod NodeTests
mod ConsensusTests
mod RoundTests
mod PeerTests
mod MemberTests
mod SyncTests
mod UserTests
mod LedgerTests
mod CommitTests

-- ===== src/P2p.antt =====
-- src/p2p: the connections to other nodes, the list of known peers, and the messages they bring.
pub mod Types
pub mod Connections
pub mod KnownPeers
pub mod Messages

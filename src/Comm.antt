-- ===== src/Comm.antt =====
-- src/comm: the sessions of users and peers.
pub mod Session

-- ===== src/Usr.antt =====
-- src/usr: the users that are connected to the node, and their inputs.
pub mod NonceMap
pub mod Submission
pub mod Inputs
pub mod Users

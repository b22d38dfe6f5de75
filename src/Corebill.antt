-- ===== src/Corebill.antt =====
-- src/corebill: bans of hosts that misbehave.
pub mod Tracker

-- ===== src/Guest.antt =====
-- The guest gateway (guest.go).
pub mod Replay
pub mod Throttle
pub mod Session
pub mod Hub

-- ===== src/Heartbeat.antt =====
-- src/heartbeat: the compatibility heartbeat.
pub mod Spec
pub mod Session

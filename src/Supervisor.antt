-- ===== src/Supervisor.antt =====
-- src/supervisor.rs: the reducer that composes the wired watchdog, the wireless takeover, the event
-- ring and the published snapshot.
pub mod Types
pub mod Notification
pub mod State
pub mod Wired
pub mod Radio
pub mod Reducer

-- ===== src/Ipc.antt =====
-- src/ipc: the client's side of the named pipe.
pub mod Commands
pub mod Session

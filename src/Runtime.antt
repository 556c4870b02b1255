-- ===== src/Runtime.antt =====
-- src/runtime.rs: the parts that the service is assembled from.
pub mod Dialer
pub mod Prober
pub mod Shell
pub mod Loop
pub mod Worker

-- ===== src/Service.antt =====
-- src/service.rs: the Windows service, its registration and its installation.
pub mod Control
pub mod Install
pub mod Request
pub mod Uninstall

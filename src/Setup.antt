-- ===== src/Setup.antt =====
-- src/setup/: the installer.
pub mod FileBackup
pub mod Transaction
pub mod Work

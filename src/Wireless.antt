-- ===== src/Wireless.antt =====
-- src/wireless/: the takeover of the campus WiFi.
pub mod Address
pub mod Brain
pub mod Portal
pub mod Egress
pub mod Routes

-- ===== src/Tests.antt =====
-- Concrete inputs on which the theorems hold their hypotheses.
mod Protocol
mod Watchdog
mod Wireless
mod Supervisor
mod Heartbeat
mod Runtime
mod Client
mod Setup
mod Payload
mod Files
mod Service
mod Crypto
mod Http
mod Ras

-- ===== src/Traffic.antt =====
-- src/sim_monitor/traffic: the audit of the device's network traffic.
pub mod Flow
pub mod Line
pub mod Ledger
pub mod State
pub mod Collector

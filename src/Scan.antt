-- ===== src/Scan.antt =====
-- The package src/sim_monitor/scan.
pub mod Manager

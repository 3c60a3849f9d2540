-- ===== src/Monitor.antt =====
-- The package src/sim_monitor/monitor: when the heartbeat runs and what it sends.
pub mod Schedule
pub mod Placeholders

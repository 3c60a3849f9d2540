-- ===== src/Config.antt =====
-- The package src/sim_monitor/config: what a user may configure, and which profile a SIM selects.
pub mod Schema
pub mod Matcher

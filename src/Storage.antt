-- ===== src/Storage.antt =====
-- src/sim_monitor/storage: the tables of the database.
pub mod TrafficFlows

-- ===== src/Core.antt =====
-- The package src/sim_monitor/core: the daemon and what it is made of.
pub mod Status
pub mod Supervisor
pub mod Exec
pub mod States
pub mod Commands
pub mod Snapshot
pub mod Reply
pub mod Uptime
pub mod Daemon

-- ===== src/Core/Daemon.antt =====
-- src/sim_monitor/core/daemon.py.
pub mod Env
pub mod Machine
pub mod Reset
pub mod Fallback
pub mod Ports
pub mod Attach
pub mod Connect
pub mod Online
pub mod Recovery
pub mod Sms
pub mod Requests
pub mod Tick
pub mod Quiet
pub mod QuietSms
pub mod Live
pub mod Held
pub mod Letting
pub mod Obeying
pub mod Holding
pub mod Aside
pub mod Passive
pub mod Testing
pub mod Limits
pub mod Resets
pub mod Fixture
mod Tests

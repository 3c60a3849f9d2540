-- ===== src/Core/Commands.antt =====
-- src/sim_monitor/core/commands.py: what the web interface asks of the daemon.
use sim_connectivity_monitor.Prelude.{ℕ, Bool, Option, List, Text}

pub data Command : Type 0 where
  reconnect reset_modem release_force abort_fallback_test run_monitor_now : Command
  pause_monitor resume_monitor clear_sms refresh_sms mark_sms_read : Command
  reload_monitor_config reload_profiles scan_serial_ports : Command
  force_profile : (name : Text) → Command
  start_fallback_test : (duration_seconds : Option ℕ) → Command
  arm_fallback_test : (armed : Bool) → (duration_seconds : Option ℕ) → Command
  run_diagnostics : (commands : List Text) → Command
  send_sms : (number : Text) → (body : Text) → Command
  delete_sms : (row_id : ℕ) → Command
  set_sim_name : (name : Text) → Command
  probe_at_port : (device : Text) → Command
  set_at_port : (device : Text) → Command
  set_rat : (rat : Text) → Command

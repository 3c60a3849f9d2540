-- ===== src/Core/Daemon/Tick.antt =====
-- src/sim_monitor/core/daemon.py: the commands, and one tick of the loop.
use sim_connectivity_monitor.Prelude.{
  ℕ, Bool, true, false, not, ◌&&◌, Option, none, some, List, ◌∷◌, Text, if◌then◌else◌, any,
  is_empty, is_some, strip, text_eq,
}
use sim_connectivity_monitor.Config.Schema.{Profile, MonitorConfig}
use sim_connectivity_monitor.Core.Reply.{RegexSearch}
use sim_connectivity_monitor.Core.Commands.{
  Command, reconnect, reset_modem, release_force, abort_fallback_test, run_monitor_now,
  pause_monitor, resume_monitor, clear_sms, refresh_sms, mark_sms_read, reload_monitor_config,
  reload_profiles, scan_serial_ports, force_profile, start_fallback_test, arm_fallback_test,
  run_diagnostics, send_sms, delete_sms, set_sim_name, probe_at_port, set_at_port, set_rat,
}
use sim_connectivity_monitor.Core.States.{
  State, no_modem, modem_found, sim_ready, configuring, connecting, connected, degraded,
  fallback_test, state_eq,
}
use sim_connectivity_monitor.Core.Exec.{
  Exec, on_tried, ◌>>=◌, ◌>>◌, done, gets, modify, when, for_each, attempt_modem, attempt_all,
}
use sim_connectivity_monitor.Core.Daemon.Env.{Env}
use sim_connectivity_monitor.Core.Daemon.Machine.{
  Machine, info, warning, error, call, emit, update, go, safe_disconnect,
}
use sim_connectivity_monitor.Core.Daemon.Reset
use sim_connectivity_monitor.Core.Daemon.Reset.{reevaluate_profile, full_reset_modem}
use sim_connectivity_monitor.Core.Daemon.Fallback
use sim_connectivity_monitor.Core.Daemon.Fallback.{end_fallback_test}
use sim_connectivity_monitor.Core.Daemon.Ports
use sim_connectivity_monitor.Core.Daemon.Attach.{
  state_no_modem, state_modem_found, state_sim_ready, state_configuring,
}
use sim_connectivity_monitor.Core.Daemon.Connect.{state_connecting}
use sim_connectivity_monitor.Core.Daemon.Online.{state_connected}
use sim_connectivity_monitor.Core.Daemon.Recovery.{state_degraded, state_fallback_test}
use sim_connectivity_monitor.Core.Daemon.Sms
use sim_connectivity_monitor.Core.Daemon.Requests

-- `_FALLBACK_TEST_BLOCKED`.
abbrev pub is_blocked : Command → Bool
is_blocked reset_modem = true
is_blocked (run_diagnostics _) = true
is_blocked (send_sms _ _) = true
is_blocked (set_rat _) = true
is_blocked (probe_at_port _) = true
is_blocked (set_at_port _) = true
is_blocked _ = false

-- `state in (CONNECTED, CONNECTING, DEGRADED)`.
abbrev pub is_attached : State → Bool
is_attached connected = true
is_attached connecting = true
is_attached degraded = true
is_attached _ = false

-- `effective_monitor_config`.
unfoldable pub effective_monitor_config :
    Option Profile → Option MonitorConfig → Option MonitorConfig
effective_monitor_config none global = global
effective_monitor_config (some p) global =
    if p.monitor.enabled && not (is_empty p.monitor.destinations) then some p.monitor else global

module _ {W : Type 0} (env : Env W) (search_regex : RegexSearch) where
  open env use {
    mark_inbound_read, count_unread_sms, put_sim_name, load_monitor_config, put_rat, watchdog,
  }

  unfoldable pub do_reconnect : Exec (Machine W) Unit
  do_reconnect = do
    emit info "command"
    allowed ← gets (λ d. is_some d.active_profile && is_attached d.state)
    when allowed (do safe_disconnect env; go env configuring (λ s. s))

  unfoldable pub do_force_profile : Text → Exec (Machine W) Unit
  do_force_profile name = do
    known ← gets (λ d. any (λ p. text_eq p.name name) d.profiles)
    if known
        then (do
          modify (λ d. record d { forced_profile = some name })
          update (λ s. record s { forced_profile = some name })
          emit info "profile"
          reevaluate_profile env)
        else emit error "profile"

  unfoldable pub do_release_force : Exec (Machine W) Unit
  do_release_force = do
    modify (λ d. record d { forced_profile = none })
    update (λ s. record s { forced_profile = none })
    emit info "profile"
    reevaluate_profile env

  unfoldable pub do_abort : Exec (Machine W) Unit
  do_abort = do
    testing ← gets (λ d. state_eq d.state fallback_test)
    when testing (emit info "fallback" >> end_fallback_test env)

  abbrev pub name_sim : Text → Option Text → Exec (Machine W) Unit
  name_sim name (some (c ∷ iccid)) = do
    call (put_sim_name (c ∷ iccid) (strip name))
    update (λ s. record s { sim_name = if is_empty (strip name) then none else some (strip name) })
    emit info "sim"
  name_sim name _ = emit warning "sim"

  unfoldable pub do_set_sim_name : Text → Exec (Machine W) Unit
  do_set_sim_name name = do iccid ← gets (λ d. d.store.iccid); name_sim name iccid

  unfoldable pub load_global_monitor : Exec (Machine W) Unit
  load_global_monitor = do
    config ← call load_monitor_config
    modify (λ d. record d { global_monitor = config })

  unfoldable pub mark_read : Exec (Machine W) Unit
  mark_read = do
    call mark_inbound_read
    unread ← call count_unread_sms
    update (λ s. record s { sms_unread = unread })

  -- A connection is set up anew, with the first variant.
  unfoldable pub retune : Exec (Machine W) Unit
  retune = do
    allowed ← gets (λ d. is_some d.active_profile && is_attached d.state)
    when allowed (do
      safe_disconnect env
      modify (λ d. record d { variant_index = 0 })
      go env configuring (λ s. s))

  abbrev pub force_rat : Text → Option ℕ → Exec (Machine W) Unit
  force_rat rat none = emit error "rat"
  force_rat rat (some driver) = do
    r ← attempt_modem (call (put_rat driver rat))
    on_tried r (λ _. do emit info "rat"; retune) (λ _. emit error "rat")

  unfoldable pub do_set_rat : Text → Exec (Machine W) Unit
  do_set_rat rat = do driver ← gets (λ d. d.driver); force_rat rat driver

  -- The `match` of `_handle_command`.
  unfoldable pub dispatch : Command → Exec (Machine W) Unit
  dispatch reconnect = do_reconnect
  dispatch reset_modem = emit info "command" >> full_reset_modem env
  dispatch (force_profile name) = do_force_profile name
  dispatch release_force = do_release_force
  dispatch (start_fallback_test duration) = Fallback.start_fallback_test env duration
  dispatch abort_fallback_test = do_abort
  dispatch (arm_fallback_test armed duration) = Fallback.arm_fallback_test env armed duration
  dispatch run_monitor_now = modify (λ d. record d { monitor_trigger = true })
  dispatch (run_diagnostics requested) = Requests.run_diagnostics env search_regex requested
  dispatch pause_monitor = update (λ s. record s { monitor_paused = true }) >> emit info "monitor"
  dispatch resume_monitor = update (λ s. record s { monitor_paused = false }) >> emit info "monitor"
  dispatch (send_sms number body) = Sms.send_sms env search_regex number body
  dispatch (delete_sms row_id) = Requests.delete_sms env search_regex row_id
  dispatch clear_sms = Requests.clear_sms env search_regex
  dispatch refresh_sms = modify (λ d. record d { sms_pending = true })
  dispatch mark_sms_read = mark_read
  dispatch (set_sim_name name) = do_set_sim_name name
  dispatch reload_monitor_config = load_global_monitor >> emit info "monitor"
  dispatch reload_profiles = Reset.reload_profiles env
  dispatch scan_serial_ports = Ports.scan_serial_ports env
  dispatch (probe_at_port device) = Ports.probe_at_port env device
  dispatch (set_at_port device) = Ports.set_at_port env device
  dispatch (set_rat rat) = do_set_rat rat

  unfoldable pub handle_command : Command → Exec (Machine W) Unit
  handle_command command = do
    testing ← gets (λ d. state_eq d.state fallback_test)
    if testing && is_blocked command then emit warning "command" else dispatch command

  -- `getattr(self, f"_state_{self.state.value.lower()}")`.
  unfoldable pub handler : State → Exec (Machine W) Unit
  handler no_modem = state_no_modem env
  handler modem_found = state_modem_found env
  handler sim_ready = state_sim_ready env
  handler configuring = state_configuring env
  handler connecting = state_connecting env
  handler connected = state_connected env
  handler degraded = state_degraded env
  handler fallback_test = state_fallback_test env

  -- The `try` block of `tick`, on the commands that were in the queue.
  unfoldable pub tick_body : List Command → Exec (Machine W) Unit
  tick_body commands = do
    Sms.poll_urcs env search_regex
    for_each commands handle_command
    state ← gets (λ d. d.state)
    handler state
    Sms.maybe_fetch_sms env search_regex

  -- Whatever is raised is logged, and the loop goes on.
  unfoldable pub tick : List Command → Exec (Machine W) Unit
  tick commands = do call watchdog; attempt_all (tick_body commands); done

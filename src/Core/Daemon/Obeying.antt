-- ===== src/Core/Daemon/Obeying.antt =====
-- src/sim_monitor/core/daemon.py: the commands, which keep that the daemon looks for a modem or holds a
-- driver.
use sim_connectivity_monitor.Core.Daemon.Held.{
  Frame-Held, Frame-Idle, Idle, Held, held-live, Ends, Ends-Keeps, Leads-drop_modem,
}
use sim_connectivity_monitor.Core.Exec.Keeps.{
  Keeps, Keeps-done, Keeps-gets, Keeps-bind, Keeps-known, Keeps-skipped,
}
use sim_connectivity_monitor.Core.Exec.Leads.{Result, Leads, Result-both}
use sim_connectivity_monitor.Core.Daemon.Live.{
  Frame-Live, Live, live_rules, Live-go, Live-reevaluate_profile, Live-start_fallback_test,
  Live-end_fallback_test,
}
use sim_connectivity_monitor.Core.Daemon.QuietSms.{
  Quiet-send_sms, Quiet-delete_sms, Quiet-clear_sms, Quiet-run_diagnostics,
}
use sim_connectivity_monitor.Core.Daemon.Quiet.{
  Quiet-emit, quiet_rules, Quiet-safe_disconnect, Quiet-reset_driver, Quiet-arm_fallback_test,
  Quiet-scan_serial_ports, Quiet-probe_at_port,
}
use sim_connectivity_monitor.Prelude.{
  ℕ, ◌≡◌, refl, ap, inl, inr, false, Option, none, some, [], ◌∷◌, Text,
}
use sim_connectivity_monitor.Core.Reply.{RegexSearch}
use sim_connectivity_monitor.Core.Commands.{
  Command, reconnect, reset_modem, release_force, abort_fallback_test, run_monitor_now,
  pause_monitor, resume_monitor, clear_sms, refresh_sms, mark_sms_read, reload_monitor_config,
  reload_profiles, scan_serial_ports, force_profile, start_fallback_test, arm_fallback_test,
  run_diagnostics, send_sms, delete_sms, set_sim_name, probe_at_port, set_at_port, set_rat,
}
use sim_connectivity_monitor.Core.States.{State, no_modem, fallback_test, state_eq}
use sim_connectivity_monitor.Core.Exec.{Outcome, ok, modem_error, backend_error, crash, Exec}
use sim_connectivity_monitor.Core.Daemon.Env.{Env}
use sim_connectivity_monitor.Core.Daemon.Machine.{Machine}
use sim_connectivity_monitor.Core.Daemon.Reset
use sim_connectivity_monitor.Core.Daemon.Fallback
use sim_connectivity_monitor.Core.Daemon.Ports
use sim_connectivity_monitor.Core.Daemon.Tick
use sim_connectivity_monitor.Core.Daemon.Passive.{
  Passive, Passive-reevaluate_profile, Passive-do_reconnect, Passive-retune,
  Passive-start_fallback_test,
}

instance Passive-Idle : {W : Type 0} → Passive (Idle {W = W})
unfolding Idle
Passive-Idle = record {
  reevaluates = λ d h. ap Reset.can_reevaluate h;
  starts = λ d h. ap Fallback.can_start_test h;
  attached = λ d h. ap Tick.is_attached h;
}

module _ {W : Type 0} where
  pub of-Held : {A : Type 0} (r : Outcome A) (d : Machine W) → Held d → Result (λ _. Held) Held r d
  unfolding Result
  of-Held (ok a) d h = h
  of-Held (modem_error e) d h = h
  of-Held (backend_error e) d h = h
  of-Held crash d h = h

  -- Code that may let go of a driver, and that leaves a daemon without one alone.
  Held-split : (m : Exec (Machine W) Unit) → Ends m → Keeps Idle m → Keeps Held m
  unfolding Held
  Held-split m k l = record {
    at = λ d h. elim h [
      | inl i ↦ inl (l.at d i)
      | inr v ↦ Result-both Held (m d).0 (m d).1 (k.at d v)
    ];
  }

  pub Ends-held : (m : Exec (Machine W) Unit) → Keeps Held m → Ends m
  Ends-held m k = record { at = λ d h. of-Held (m d).0 (m d).1 (k.at d (held-live d h)) }

  pub holds-driver : (n : ℕ) (d : Machine W) → Held d → Live (record d { driver = some n })
  unfolding Live
  holds-driver n d h = refl

  Held-live : (m : Exec (Machine W) Unit) → Keeps Live m → Keeps Idle m → Keeps Held m
  Held-live m k l = Held-split m (Ends-Keeps m k) l

  pub Held-Leads : (m : Exec (Machine W) Unit) → Leads Held (λ _. Held) Held m → Keeps Held m
  Held-Leads m k = record { at = λ d h. Result-both Held (m d).0 (m d).1 (k.at d h) }

module _ {W : Type 0} (env : Env W) (search_regex : RegexSearch) where
  Held-do_reconnect : Keeps Held (Tick.do_reconnect env search_regex)
  unfolding Tick.do_reconnect
  Held-do_reconnect =
      Held-live _ (search (live_rules, Live-go, Quiet-safe_disconnect) depth 60)
        (Passive-do_reconnect env search_regex)

  Held-reevaluate_profile : Keeps Held (Reset.reevaluate_profile env)
  Held-reevaluate_profile =
      Held-live _ (Live-reevaluate_profile env) (Passive-reevaluate_profile env search_regex)

  Held-do_force_profile : (name : Text) → Keeps Held (Tick.do_force_profile env search_regex name)
  unfolding Tick.do_force_profile
  Held-do_force_profile name = search (quiet_rules, Held-reevaluate_profile) depth 60

  Held-do_release_force : Keeps Held (Tick.do_release_force env search_regex)
  unfolding Tick.do_release_force
  Held-do_release_force = search (quiet_rules, Held-reevaluate_profile) depth 60

  Held-full_reset_modem : Keeps Held (Reset.full_reset_modem env)
  unfolding Reset.full_reset_modem
  Held-full_reset_modem = Keeps-bind _ _ (Keeps-gets (λ d. d.driver)) (λ driver.
      Keeps-bind _ _ (Quiet-reset_driver env driver) (λ _.
        Keeps-bind _ _ (Quiet-safe_disconnect env)
          (λ _. Held-Leads _ (Leads-drop_modem env Held Held))))

  Held-start_fallback_test : (p : Option ℕ) → Keeps Held (Fallback.start_fallback_test env p)
  Held-start_fallback_test p =
      Held-live _ (Live-start_fallback_test env p) (Passive-start_fallback_test env search_regex p)

  testing-no_modem : (s : State) → s ≡ no_modem → state_eq s fallback_test ≡ false
  testing-no_modem s h = ap (λ t. state_eq t fallback_test) h

  Idle-do_abort : Keeps Idle (Tick.do_abort env search_regex)
  unfolding Tick.do_abort Idle
  Idle-do_abort =
      Keeps-known _ _ (λ b. b ≡ false) (λ d h. testing-no_modem d.state h)
        (λ b h. Keeps-skipped b _ h)

  Held-do_abort : Keeps Held (Tick.do_abort env search_regex)
  unfolding Tick.do_abort
  Held-do_abort = Held-live _ (search (live_rules, Live-end_fallback_test) depth 60) Idle-do_abort

  Held-reselect : (o : Option Text) → Keeps Held (Reset.reselect env o)
  Held-reselect none = Keeps-done
  Held-reselect (some []) = Keeps-done
  Held-reselect (some (c ∷ i)) = search (quiet_rules, Held-reevaluate_profile) depth 60

  Held-reload_profiles : Keeps Held (Reset.reload_profiles env)
  unfolding Reset.reload_profiles
  Held-reload_profiles = search (quiet_rules, Held-reselect) depth 60

  Held-drop_modem : Keeps Held (Reset.drop_modem env)
  Held-drop_modem = Held-Leads _ (Leads-drop_modem env Held Held)

  Held-set_at_port : (device : Text) → Keeps Held (Ports.set_at_port env device)
  unfolding Ports.set_at_port
  Held-set_at_port device = search (quiet_rules, Quiet-safe_disconnect, Held-drop_modem) depth 60

  Held-retune : Keeps Held (Tick.retune env search_regex)
  unfolding Tick.retune
  Held-retune =
      Held-live _ (search (live_rules, Live-go, Quiet-safe_disconnect) depth 60)
        (Passive-retune env search_regex)

  Held-force_rat : (rat : Text) (o : Option ℕ) → Keeps Held (Tick.force_rat env search_regex rat o)
  Held-force_rat rat none = Quiet-emit _ _
  Held-force_rat rat (some n) = search (quiet_rules, Held-retune) depth 60

  Held-do_set_rat : (rat : Text) → Keeps Held (Tick.do_set_rat env search_regex rat)
  unfolding Tick.do_set_rat
  Held-do_set_rat rat = search (quiet_rules, Held-force_rat) depth 60

  Held-name_sim :
      (name : Text) (o : Option Text) → Keeps Held (Tick.name_sim env search_regex name o)
  Held-name_sim name none = search quiet_rules depth 60
  Held-name_sim name (some []) = search quiet_rules depth 60
  Held-name_sim name (some (c ∷ cs)) = search quiet_rules depth 60

  Held-do_set_sim_name : (name : Text) → Keeps Held (Tick.do_set_sim_name env search_regex name)
  unfolding Tick.do_set_sim_name
  Held-do_set_sim_name name = search (quiet_rules, Held-name_sim) depth 60

  Held-mark_read : Keeps Held (Tick.mark_read env search_regex)
  unfolding Tick.mark_read
  Held-mark_read = search quiet_rules depth 60

  Held-load_global_monitor : Keeps Held (Tick.load_global_monitor env search_regex)
  unfolding Tick.load_global_monitor
  Held-load_global_monitor = search quiet_rules depth 60

  Held-dispatch : (c : Command) → Keeps Held (Tick.dispatch env search_regex c)
  unfolding Tick.dispatch
  Held-dispatch reconnect = Held-do_reconnect
  Held-dispatch reset_modem = search (quiet_rules, Held-full_reset_modem) depth 60
  Held-dispatch (force_profile name) = Held-do_force_profile name
  Held-dispatch release_force = Held-do_release_force
  Held-dispatch (start_fallback_test p) = Held-start_fallback_test p
  Held-dispatch abort_fallback_test = Held-do_abort
  Held-dispatch (arm_fallback_test b p) = Quiet-arm_fallback_test env b p
  Held-dispatch run_monitor_now = search quiet_rules depth 60
  Held-dispatch (run_diagnostics cs) = Quiet-run_diagnostics env search_regex cs
  Held-dispatch pause_monitor = search quiet_rules depth 60
  Held-dispatch resume_monitor = search quiet_rules depth 60
  Held-dispatch (send_sms number body) = Quiet-send_sms env search_regex number body
  Held-dispatch (delete_sms n) = Quiet-delete_sms env search_regex n
  Held-dispatch clear_sms = Quiet-clear_sms env search_regex
  Held-dispatch refresh_sms = search quiet_rules depth 60
  Held-dispatch mark_sms_read = Held-mark_read
  Held-dispatch (set_sim_name name) = Held-do_set_sim_name name
  Held-dispatch reload_monitor_config = search (quiet_rules, Held-load_global_monitor) depth 60
  Held-dispatch reload_profiles = Held-reload_profiles
  Held-dispatch scan_serial_ports = Quiet-scan_serial_ports env
  Held-dispatch (probe_at_port device) = Quiet-probe_at_port env device
  Held-dispatch (set_at_port device) = Held-set_at_port device
  Held-dispatch (set_rat rat) = Held-do_set_rat rat

  pub Held-handle_command : (c : Command) → Keeps Held (Tick.handle_command env search_regex c)
  unfolding Tick.handle_command
  Held-handle_command c = search (quiet_rules, Held-dispatch) depth 60

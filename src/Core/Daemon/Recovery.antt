-- ===== src/Core/Daemon/Recovery.antt =====
-- src/sim_monitor/core/daemon.py: the handler of DEGRADED, which climbs the ladder of
-- core/supervisor.py, and that of FALLBACK_TEST.
use sim_connectivity_monitor.Prelude.{
  ℕ, Bool, true, false, not, ◌&&◌, Option, none, some, [], ◌∷◌, ◌++◌, Text, codes, ltb, text_eq,
  if◌then◌else◌, pos,
}
use sim_connectivity_monitor.Config.Schema.{Profile, ipv4, no_auth}
use sim_connectivity_monitor.Core.Supervisor
use sim_connectivity_monitor.Core.Supervisor.{
  RecoveryAction, PlannedRecovery, parked, due, consume, reconnect, modem_disable_enable, at_reset,
  usb_power_cycle,
}
use sim_connectivity_monitor.Core.States.{configuring}
use sim_connectivity_monitor.Core.Exec.{
  Exec, on_tried, ◌>>=◌, ◌>>◌, done, gets, modify, demand, attempt_modem, attempt_either,
}
use sim_connectivity_monitor.Core.Daemon.Env.{Env}
use sim_connectivity_monitor.Core.Daemon.Machine.{
  Machine, info, warning, call, emit, update, go, fail,
}
use sim_connectivity_monitor.Core.Daemon.Reset.{drop_modem}
use sim_connectivity_monitor.Core.Daemon.Fallback.{end_fallback_test}

-- `BUILTIN_DEFAULT`.
abbrev pub builtin_default : Profile
builtin_default = record {
  name = codes "builtin-default";
  match_spec = record { iccid_patterns = codes "*" ∷ []; priority = pos 100000 };
  pdp_contexts =
      record {
        cid = 1;
        apn = codes "hologram";
        pdp_type = ipv4;
        auth = no_auth;
        username = [];
        password = [];
        bearer = true;
      }
      ∷ [];
  pdp_variants = [];
  at_init = [];
  monitor = record { enabled = false; destinations = [] };
  fallback_test = record { airplane_seconds = 900; settle_seconds = 5 };
}

abbrev pub action_value : RecoveryAction → Text
action_value reconnect = codes "reconnect"
action_value modem_disable_enable = codes "modem_disable_enable"
action_value at_reset = codes "at_reset"
action_value usb_power_cycle = codes "usb_power_cycle"

abbrev pub replaceable : Option Profile → Bool
replaceable none = false
replaceable (some p) = not (text_eq p.name (codes "builtin-default"))

module _ {W : Type 0} (env : Env W) where
  open env use {
    clock, clear_forbidden_plmn, full_reset, modem_disable_enable as cycle_modem,
    usb_power_cycle as cycle_usb,
  }

  -- Whether the exhausted profile is given up for the built-in one.
  unfoldable pub wants_default : Machine W → Bool
  unfolding parked text_eq
  wants_default d =
      d.config.fallback_to_default_profile
      && parked d.supervisor
      && not d.fallback_active
      && replaceable d.active_profile

  unfoldable pub use_default : Exec (Machine W) Unit
  use_default = do
    emit warning "profile"
    modify (λ d. record d {
      fallback_active = true;
      active_profile = some builtin_default;
      variant_index = 0;
      supervisor = Supervisor.reset d.supervisor;
    })
    update (λ s. record s { active_profile = some (codes "builtin-default") })
    go env configuring (λ s. s)

  abbrev pub reset_at : Option ℕ → Exec (Machine W) Unit
  reset_at none = done
  reset_at (some driver) = do
    r ← attempt_modem (call (clear_forbidden_plmn driver))
    on_tried r (λ _. emit info "recovery") (λ _. emit warning "recovery")
    call (full_reset driver)

  unfoldable pub recover : RecoveryAction → Exec (Machine W) Unit
  recover reconnect = go env configuring (λ s. s)
  recover modem_disable_enable = do call cycle_modem; go env configuring (λ s. s)
  recover at_reset = do driver ← gets (λ d. d.driver); reset_at driver; drop_modem env
  recover usb_power_cycle = do call cycle_usb; drop_modem env

  abbrev pub execute : Option PlannedRecovery → Exec (Machine W) Unit
  execute none = done
  execute (some planned) = do
    modify (λ d. record d { supervisor = consume d.supervisor })
    emit info "recovery"
    r ← attempt_either (recover planned.action)
    on_tried r (λ _. done)
        (λ e.
          fail env
            (codes "recovery action " ++ action_value planned.action ++ codes " failed: " ++ e))

  unfoldable pub climb : Exec (Machine W) Unit
  climb = do now ← call clock; planned ← gets (λ d. due d.supervisor now); execute planned

  unfoldable pub state_degraded : Exec (Machine W) Unit
  state_degraded = do switch ← gets wants_default; if switch then use_default else climb

  unfoldable pub state_fallback_test : Exec (Machine W) Unit
  state_fallback_test = do
    until ← gets (λ d. d.fallback_until)
    deadline ← demand until
    now ← call clock
    if ltb now deadline then done else (emit info "fallback" >> end_fallback_test env)

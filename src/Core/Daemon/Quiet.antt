-- ===== src/Core/Daemon/Quiet.antt =====
-- What of src/sim_monitor/core/daemon.py leaves the control of the daemon alone: its state, driver, active
-- profile and test deadline.
use Prim.Native.String.{String}
use sim_connectivity_monitor.Prelude.{
  ℕ, zero, suc, ◌≡◌, refl, Bool, true, false, Option, none, some, List, [], ◌∷◌, Text, arith,
  is_some, if◌then◌else◌, max,
}
use sim_connectivity_monitor.Config.Schema.{Profile, PdpContext}
use sim_connectivity_monitor.Core.Exec.{modify}
use sim_connectivity_monitor.Core.Exec.Keeps.{
  Keeps, Keeps-modify, Keeps-when, Keeps-bind, keeps_rules, Keeps-pure, Keeps-done,
  Keeps-attempt_modem, Keeps-tried, Keeps-if, Keeps-demand,
}
use sim_connectivity_monitor.Modem.Reconcile.{Action, define_context, delete_context}
use sim_connectivity_monitor.Core.Snapshot.{Snapshot}
use sim_connectivity_monitor.Core.Daemon.Env.{Env, Op, SimStatus, ConnectionState, Telemetry}
use sim_connectivity_monitor.Core.Daemon.Machine
use sim_connectivity_monitor.Core.Daemon.Machine.{
  Machine, Level, call, emit, update, the_driver, the_profile, enter,
}
use sim_connectivity_monitor.Core.Daemon.Reset
use sim_connectivity_monitor.Core.Daemon.Fallback
use sim_connectivity_monitor.Core.Daemon.Ports
use sim_connectivity_monitor.Core.Daemon.Attach
use sim_connectivity_monitor.Core.Daemon.Online

-- A property of a daemon that only its control decides.
pub record Frame {W : Type 0} (P : Machine W → Type 0) : Type 0 where
  pub same :
      (d e : Machine W)
      → e.state ≡ d.state
      → e.driver ≡ d.driver
      → e.active_profile ≡ d.active_profile
      → e.fallback_until ≡ d.fallback_until
      → P d
      → P e

module _ {W : Type 0} {P : Machine W → Type 0} ⦃frame : Frame P⦄ where
  pub Quiet-modify :
      (f : Machine W → Machine W)
      → ((d : Machine W) → (f d).state ≡ d.state)
      → ((d : Machine W) → (f d).driver ≡ d.driver)
      → ((d : Machine W) → (f d).active_profile ≡ d.active_profile)
      → ((d : Machine W) → (f d).fallback_until ≡ d.fallback_until)
      → Keeps P (modify f)
  Quiet-modify f s d a u = Keeps-modify f (λ m h. frame.same m (f m) (s m) (d m) (a m) (u m) h)

  pub Quiet-call : {A : Type 0} (op : Op W A) → Keeps P (call op)
  unfolding call
  Quiet-call op = record { at = λ d h. frame.same d _ refl refl refl refl h }

  pub Quiet-emit : (l : Level) (k : String) → Keeps P (emit {W = W} l k)
  unfolding emit
  Quiet-emit l k = Quiet-modify _ (λ _. refl) (λ _. refl) (λ _. refl) (λ _. refl)

  pub Quiet-update : (f : Snapshot → Snapshot) → Keeps P (update {W = W} f)
  unfolding update
  Quiet-update f = Quiet-modify _ (λ _. refl) (λ _. refl) (λ _. refl) (λ _. refl)

module _ {W : Type 0} {P : Machine W → Type 0} where
  pub Quiet-the_driver : Keeps P (the_driver {W = W})
  unfolding the_driver
  Quiet-the_driver = record { at = λ d h. (Keeps-demand {P = P} d.driver).at d h }

  pub Quiet-the_profile : Keeps P (the_profile {W = W})
  unfolding the_profile
  Quiet-the_profile = record { at = λ d h. (Keeps-demand {P = P} d.active_profile).at d h }

pub ruleset quiet_rules = (
  keeps_rules, Quiet-modify, Quiet-call, Quiet-emit, Quiet-update, Quiet-the_driver,
  Quiet-the_profile, refl,
)

module _ {W : Type 0} {P : Machine W → Type 0} ⦃frame : Frame P⦄ (env : Env W) where
  pub Quiet-record_connectivity : (b : Bool) → Keeps P (Machine.record_connectivity env b)
  unfolding Machine.record_connectivity
  Quiet-record_connectivity b = search (quiet_rules) depth 60

  pub Quiet-safe_disconnect : Keeps P (Machine.safe_disconnect env)
  unfolding Machine.safe_disconnect
  Quiet-safe_disconnect = search (quiet_rules) depth 60

  pub Quiet-reset_driver : (o : Option ℕ) → Keeps P (Reset.reset_driver env o)
  unfolding Reset.reset_driver
  Quiet-reset_driver none = search quiet_rules depth 60
  Quiet-reset_driver (some n) = search quiet_rules depth 60

  pub Quiet-arm_fallback_test :
      (b : Bool) (o : Option ℕ) → Keeps P (Fallback.arm_fallback_test env b o)
  unfolding Fallback.arm_fallback_test
  Quiet-arm_fallback_test b o = search (quiet_rules) depth 60

  pub Quiet-consume_fallback_arm : Keeps P (Fallback.consume_fallback_arm env)
  unfolding Fallback.consume_fallback_arm
  Quiet-consume_fallback_arm = search (quiet_rules) depth 60

  pub Quiet-reenable_radio : (n : ℕ) → Keeps P (Fallback.reenable_radio env n)
  unfolding Fallback.reenable_radio
  Quiet-reenable_radio zero = search quiet_rules depth 60
  Quiet-reenable_radio (suc n) = Keeps-bind the_driver _ Quiet-the_driver (λ k.
      Keeps-bind _ _ (Keeps-attempt_modem _ (Quiet-call _)) (λ r.
        Keeps-tried r _ _ (λ _. Keeps-pure true)
          (λ _. Keeps-bind _ _ (Quiet-emit _ _) (λ _. Keeps-bind _ _ (Quiet-call _) (λ _.
            Keeps-bind _ _ (Keeps-when _ _ (λ _. Quiet-call _)) (λ _. Quiet-reenable_radio n))))))

  pub Quiet-read_sim : (n : ℕ) (sim : SimStatus) → Keeps P (Fallback.read_sim env n sim)
  unfolding Fallback.read_sim
  Quiet-read_sim zero sim = search quiet_rules depth 60
  Quiet-read_sim (suc n) sim = search (quiet_rules, Quiet-read_sim n) depth 60

  Quiet-or_configured : (o : Option Text) → Keeps P (Ports.or_configured env o)
  Quiet-or_configured none = search quiet_rules depth 60
  Quiet-or_configured (some []) = search quiet_rules depth 60
  Quiet-or_configured (some (c ∷ cs)) = search quiet_rules depth 60

  pub Quiet-current_at_port : Keeps P (Ports.current_at_port env)
  unfolding Ports.current_at_port
  Quiet-current_at_port = search (quiet_rules, Quiet-or_configured) depth 60

  pub Quiet-scan_serial_ports : Keeps P (Ports.scan_serial_ports env)
  unfolding Ports.scan_serial_ports
  Quiet-scan_serial_ports = search (quiet_rules, Quiet-current_at_port) depth 60

  Quiet-ask_port : (b : Bool) (device : Text) → Keeps P (Ports.ask_port env b device)
  Quiet-ask_port true device = search quiet_rules depth 60
  Quiet-ask_port false device = search quiet_rules depth 60

  pub Quiet-probe_at_port : (device : Text) → Keeps P (Ports.probe_at_port env device)
  unfolding Ports.probe_at_port
  Quiet-probe_at_port device = search (quiet_rules, Quiet-current_at_port, Quiet-ask_port) depth 60

  pub Quiet-record_identity : (b : Bool) (e : Text) → Keeps P (Attach.record_identity env b e)
  unfolding Attach.record_identity
  Quiet-record_identity b e = search (quiet_rules) depth 60

  pub Quiet-refresh_sim_name : Keeps P (Attach.refresh_sim_name env)
  unfolding Attach.refresh_sim_name
  Quiet-refresh_sim_name = search (quiet_rules) depth 60

  Quiet-report_events : (b : Bool) (o : Option ℕ) → Keeps P (Attach.report_events env b o)
  Quiet-report_events false (some n) = search quiet_rules depth 60
  Quiet-report_events false none = search quiet_rules depth 60
  Quiet-report_events true o = search quiet_rules depth 60

  pub Quiet-enable_reporting : Keeps P (Attach.enable_reporting env)
  unfolding Attach.enable_reporting
  Quiet-enable_reporting = search (quiet_rules, Quiet-report_events) depth 60

  pub Quiet-without_sim : (n : ℕ) (sim : SimStatus) → Keeps P (Attach.without_sim env n sim)
  unfolding Attach.without_sim
  Quiet-without_sim n sim = search (quiet_rules) depth 60

  Quiet-perform : (n : ℕ) (a : Action) → Keeps P (Attach.perform env n a)
  Quiet-perform n (define_context c) = search quiet_rules depth 60
  Quiet-perform n (delete_context c) = search quiet_rules depth 60

  pub Quiet-configure :
      (n : ℕ) (p : Profile) (cs : List PdpContext) (b : PdpContext)
      → Keeps P (Attach.configure env n p cs b)
  unfolding Attach.configure
  Quiet-configure n p cs b = search (quiet_rules, Quiet-perform) depth 60

  Quiet-log_context : (o : Option ℕ) → Keeps P (Online.log_context env o)
  Quiet-log_context none = search quiet_rules depth 60
  Quiet-log_context (some n) = search quiet_rules depth 60

  pub Quiet-log_ota_context : Keeps P (Online.log_ota_context env)
  unfolding Online.log_ota_context
  Quiet-log_ota_context = search (quiet_rules, Quiet-log_context) depth 60

  pub Quiet-check_routing : (p : Profile) → Keeps P (Online.check_routing env p)
  unfolding Online.check_routing
  Quiet-check_routing p = search (quiet_rules) depth 60

  pub Quiet-read_cosmetic : (n : ℕ) → Keeps P (Online.read_cosmetic env n)
  unfolding Online.read_cosmetic
  Quiet-read_cosmetic n = search (quiet_rules) depth 60

  Quiet-sample : (t : Telemetry) → Keeps P (Online.sample env t)
  Quiet-sample [] = search quiet_rules depth 60
  Quiet-sample (x ∷ xs) = search quiet_rules depth 60

  Quiet-poll_telemetry : (o : Option ℕ) → Keeps P (Online.poll_driver env o)
  Quiet-poll_telemetry none = search quiet_rules depth 60
  Quiet-poll_telemetry (some n) = search (quiet_rules, Quiet-sample) depth 60

  pub Quiet-maybe_poll_telemetry : Keeps P (Online.maybe_poll_telemetry env)
  unfolding Online.maybe_poll_telemetry
  Quiet-maybe_poll_telemetry = search (quiet_rules, Quiet-poll_telemetry) depth 60

  pub Quiet-stay_connected :
      (n : ℕ) (p : Profile) (conn : ConnectionState) → Keeps P (Online.stay_connected env n p conn)
  unfolding Online.stay_connected
  Quiet-stay_connected n p conn =
      search (quiet_rules, Quiet-check_routing, Quiet-read_cosmetic, Quiet-maybe_poll_telemetry)
        depth 60

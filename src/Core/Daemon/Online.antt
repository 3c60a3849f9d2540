-- ===== src/Core/Daemon/Online.antt =====
-- src/sim_monitor/core/daemon.py: the handler of a connection that is up.
use sim_connectivity_monitor.Prelude.{
  ℕ, ◌+◌, Bool, true, false, not, ◌&&◌, ◌||◌, Option, none, some, [], ◌∷◌, ◌++◌, Text, codes, leb,
  if◌then◌else◌,
}
use sim_connectivity_monitor.Config.Schema.{Profile}
use sim_connectivity_monitor.Core.Supervisor.{on_connected}
use sim_connectivity_monitor.Core.States.{modem_found, sim_ready}
use sim_connectivity_monitor.Core.Snapshot.{Snapshot}
use sim_connectivity_monitor.Core.Exec.{
  Exec, on_tried, ◌>>=◌, ◌>>◌, pure, done, gets, modify, when, attempt_modem, attempt_backend,
}
use sim_connectivity_monitor.Modem.AtParser.Replies.{SignalQuality}
use sim_connectivity_monitor.Core.Daemon.Env.{Env, SimStatus, ConnectionState, Telemetry}
use sim_connectivity_monitor.Core.Daemon.Machine.{
  Machine, info, warning, error, call, emit, update, the_driver, the_profile, go, fail,
  safe_disconnect,
}
use sim_connectivity_monitor.Core.Daemon.Reset.{no_link}
use sim_connectivity_monitor.Core.Daemon.Attach.{same_text, record_identity, refresh_sim_name}

module _ {W : Type 0} (env : Env W) where
  open env use {
    clock, get_sim_status, get_operator, get_signal, get_telemetry, get_connection_state,
    verify_routing, assert_routing, add_telemetry,
  }

  -- `_log_ota_context`: what is read goes into a message, and an error is passed over.
  abbrev pub log_context : Option ℕ → Exec (Machine W) Unit
  log_context none = done
  log_context (some driver) = do
    attempt_modem (call (get_operator driver))
    attempt_modem (call (get_telemetry driver))
    emit info "ota"

  unfoldable pub log_ota_context : Exec (Machine W) Unit
  log_ota_context = do driver ← gets (λ d. d.driver); log_context driver

  unfoldable pub sim_removed : Exec (Machine W) Unit
  sim_removed = do
    emit warning "sim"
    safe_disconnect env
    modify (λ d. record d { active_profile = none; sim_refresh_pending = false })
    go env modem_found (λ s. record (no_link s) {
      sim_present = false;
      iccid = none;
      imsi = none;
      sim_name = none;
      active_profile = none;
    })

  -- Another identity, or a SIM refresh: re-attach from the choice of the profile on.
  unfoldable pub identity_swap : SimStatus → Exec (Machine W) Unit
  identity_swap sim = do
    emit warning "ota"
    log_ota_context
    modify (λ d. record d { sim_refresh_pending = false })
    safe_disconnect env
    modify (λ d. record d { active_profile = none })
    update (λ s. record s { iccid = sim.iccid; imsi = sim.imsi })
    refresh_sim_name env
    record_identity env true (codes "ota-swap")
    go env sim_ready
        (λ s. record (no_link s) { iccid = sim.iccid; imsi = sim.imsi; active_profile = none })

  -- The `try` block that repairs the route; it gives whether the route is right now.
  abbrev pub repair : Profile → Exec (Machine W) Bool
  repair profile = do call (assert_routing (some profile)); call (verify_routing profile)

  abbrev pub warn_once : Bool → Exec (Machine W) Unit
  warn_once routing_ok = do
    warned ← gets (λ d. d.routing_warned)
    when (not routing_ok && not warned)
        (do modify (λ d. record d { routing_warned = true }); emit warning "routing")

  abbrev pub reassert : Profile → Exec (Machine W) Bool
  reassert profile = do
    later ← call clock
    modify (λ d. record d { next_routing_assert = later + 30 })
    r ← attempt_backend (repair profile)
    routing_ok ← on_tried r (λ b. pure b) (λ _. do emit error "routing"; pure false)
    warn_once routing_ok
    pure routing_ok

  abbrev pub not_ok : Profile → Exec (Machine W) Bool
  not_ok profile = do
    now ← call clock
    next ← gets (λ d. d.next_routing_assert)
    if leb next now then reassert profile else pure false

  -- Whether cellular is the default route; the repair is tried every 30 s at most.
  unfoldable pub check_routing : Profile → Exec (Machine W) Bool
  check_routing profile = do
    verified ← call (verify_routing profile)
    routing_ok ← if verified then pure true else not_ok profile
    when routing_ok (modify (λ d. record d { routing_warned = false }))
    pure routing_ok

  abbrev pub Cosmetic : Type 0
  Cosmetic = Option Text × Option SignalQuality

  -- Operator and signal; what was read before an error is kept.
  abbrev pub read_signal : ℕ → Option Text → Exec (Machine W) Cosmetic
  read_signal driver operator = do
    r ← attempt_modem (call (get_signal driver))
    on_tried r (λ signal. pure (operator, signal)) (λ _. pure (operator, none))

  unfoldable pub read_cosmetic : ℕ → Exec (Machine W) Cosmetic
  read_cosmetic driver = do
    r ← attempt_modem (call (get_operator driver))
    on_tried r (λ operator. read_signal driver operator) (λ _. pure (none, none))

  abbrev pub sample : Telemetry → Exec (Machine W) Unit
  sample [] = done
  sample (x ∷ xs) = do update (λ s. record s { telemetry = x ∷ xs }); call (add_telemetry (x ∷ xs))

  abbrev pub poll_driver : Option ℕ → Exec (Machine W) Unit
  poll_driver none = done
  poll_driver (some driver) = do
    now ← call clock
    next ← gets (λ d. d.next_telemetry)
    when (leb next now) (do
      later ← call clock
      modify (λ d. record d { next_telemetry = later + d.config.telemetry_interval_seconds })
      r ← attempt_modem (call (get_telemetry driver))
      on_tried r (λ t. sample t) (λ _. done))

  unfoldable pub maybe_poll_telemetry : Exec (Machine W) Unit
  maybe_poll_telemetry = do driver ← gets (λ d. d.driver); poll_driver driver

  -- The link is there: keep the route, and publish what is known of it.
  unfoldable pub stay_connected : ℕ → Profile → ConnectionState → Exec (Machine W) Unit
  stay_connected driver profile conn = do
    routing_ok ← check_routing profile
    cosmetic ← read_cosmetic driver
    now ← call clock
    modify (λ d. record d { supervisor = on_connected d.supervisor now })
    update (λ s. record s {
      routing_ok = some routing_ok;
      operator = cosmetic.0;
      signal_rssi = elim (cosmetic.1) [ none ↦ none | some q ↦ q.rssi_dbm ];
      signal_percent = elim (cosmetic.1) [ none ↦ none | some q ↦ q.percent ];
      interface = conn.interface;
      ip_address = conn.ip_address;
      gateway = conn.gateway;
    })
    maybe_poll_telemetry

  abbrev pub check_link : ℕ → Profile → Exec (Machine W) Unit
  check_link driver profile = do
    conn ← call get_connection_state
    if conn.active then stay_connected driver profile conn else fail env (codes "connection lost")

  -- `sim.iccid != snapshot.iccid or sim.imsi != snapshot.imsi`.
  abbrev pub identity_changed : SimStatus → Snapshot → Bool
  identity_changed sim s = not (same_text sim.iccid s.iccid) || not (same_text sim.imsi s.imsi)

  abbrev pub check_sim : ℕ → Profile → SimStatus → Exec (Machine W) Unit
  check_sim driver profile sim = do
    s ← gets (λ d. d.store)
    pending ← gets (λ d. d.sim_refresh_pending)
    if not sim.present
        then sim_removed
        else if identity_changed sim s || pending
        then identity_swap sim
        else check_link driver profile

  unfoldable pub state_connected : Exec (Machine W) Unit
  state_connected = do
    driver ← the_driver
    profile ← the_profile
    r ← attempt_modem (call (get_sim_status driver))
    on_tried r (λ sim. check_sim driver profile sim)
        (λ e. fail env (codes "modem stopped responding: " ++ e))

-- ===== src/Core/Daemon/Attach.antt =====
-- src/sim_monitor/core/daemon.py: the handlers from no modem to a configured one.
use sim_connectivity_monitor.Prelude.{
  ℕ, ◌+◌, Bool, true, false, not, ◌&&◌, Option, none, some, List, ◌∷◌, Text, codes, ◌++◌, leb, ltb,
  if◌then◌else◌, text_eq, length, get_elem?, is_empty,
}
use sim_connectivity_monitor.Config.Schema.{PdpContext, Profile, context_sets, bearer_of}
use sim_connectivity_monitor.Modem.Reconcile.{Action, define_context, delete_context, reconcile}
use sim_connectivity_monitor.Core.States.{modem_found, sim_ready, configuring, connecting}
use sim_connectivity_monitor.Core.Snapshot.{Snapshot}
use sim_connectivity_monitor.Core.Exec.{
  Exec, on_tried, on_option, ◌>>=◌, ◌>>◌, pure, done, gets, modify, demand, when, for_each,
  attempt_modem, attempt_either,
}
use sim_connectivity_monitor.Core.Daemon.Env.{Env, ModemIdentity, SimStatus}
use sim_connectivity_monitor.Core.Daemon.Machine.{
  Machine, info, warning, error, call, emit, update, the_driver, the_profile, go, fail,
}
use sim_connectivity_monitor.Core.Daemon.Reset.{drop_modem, select_profile}
use sim_connectivity_monitor.Core.Daemon.Fallback.{start_fallback_test, consume_fallback_arm}
use sim_connectivity_monitor.Core.Daemon.Ports.{scan_serial_ports}

abbrev pub Identity : Type 0
Identity = Option Text × Option Text × Option Text

abbrev pub same_text : Option Text → Option Text → Bool
same_text none none = true
same_text (some a) (some b) = text_eq a b
same_text _ _ = false

abbrev pub same_identity : Option Identity → Identity → Bool
same_identity none k = false
same_identity (some (a, b, c)) (x, y, z) = same_text a x && same_text b y && same_text c z

module _ {W : Type 0} (env : Env W) where
  open env use {
    clock, detect, enable_event_reporting, get_identity, get_firmware, get_sim_status,
    supported_rats, reprobe_sim, get_pdp_contexts, define_pdp_context, delete_pdp_context,
    run_init_commands, configure_connection, add_identity, get_sim_name,
  }

  -- `_record_identity`; the flag is `reason != "registration-change"`.
  unfoldable pub record_identity : Bool → Text → Exec (Machine W) Unit
  record_identity unless_same reason = do
    key ← gets (λ d. (d.store.iccid, d.store.imsi, d.store.imei))
    last ← gets (λ d. d.last_identity)
    when (not (unless_same && same_identity last key))
        (do modify (λ d. record d { last_identity = some key }); call (add_identity reason))

  unfoldable pub refresh_sim_name : Exec (Machine W) Unit
  refresh_sim_name = do
    iccid ← gets (λ d. d.store.iccid)
    name ← call (get_sim_name iccid)
    update (λ s. record s { sim_name = name })

  abbrev pub report_events : Bool → Option ℕ → Exec (Machine W) Unit
  report_events false (some driver) = do
    r ← attempt_modem (call (enable_event_reporting driver))
    on_tried r (λ _. modify (λ d. record d { events_enabled = true })) (λ _. emit warning "modem")
  report_events _ _ = done

  unfoldable pub enable_reporting : Exec (Machine W) Unit
  enable_reporting = do
    enabled ← gets (λ d. d.events_enabled)
    driver ← gets (λ d. d.driver)
    report_events enabled driver

  abbrev pub attach : Option ℕ → Exec (Machine W) Unit
  attach none = done
  attach (some driver) = do
    modify (λ d. record d { driver = some driver })
    emit info "modem"
    enable_reporting
    go env modem_found (λ s. s)

  unfoldable pub state_no_modem : Exec (Machine W) Unit
  state_no_modem = do
    now ← call clock
    next ← gets (λ d. d.next_port_scan)
    when (leb next now) (do
      later ← call clock
      modify (λ d. record d { next_port_scan = later + 10 })
      scan_serial_ports env)
    r ← attempt_modem (call detect)
    on_tried r (λ found. attach found) (λ e. update (λ s. record s { last_error = some e }))

  abbrev pub identify : ℕ → Exec (Machine W) (ModemIdentity × SimStatus)
  identify driver = do
    identity ← call (get_identity driver)
    sim ← call (get_sim_status driver)
    pure (identity, sim)

  abbrev pub or_none : Exec (Machine W) Text → Exec (Machine W) (Option Text)
  or_none m = do r ← attempt_modem m; on_tried r (λ a. pure (some a)) (λ _. pure none)

  -- No SIM: a pending refresh probes at once, and otherwise the modem is nudged now and then.
  unfoldable pub without_sim : ℕ → SimStatus → Exec (Machine W) Unit
  without_sim driver sim = do
    update
        (λ s. record s { sim_present = false; iccid = none; imsi = none; last_error = sim.detail })
    pending ← gets (λ d. d.sim_refresh_pending)
    when pending (modify (λ d. record d { sim_refresh_pending = false; next_sim_reprobe = 0 }))
    now ← call clock
    next ← gets (λ d. d.next_sim_reprobe)
    when (leb next now) (do
      later ← call clock
      modify (λ d. record d { next_sim_reprobe = later + 60 })
      r ← attempt_modem (call (reprobe_sim driver))
      on_tried r (λ _. emit info "sim") (λ _. emit warning "sim"))

  unfoldable pub with_sim : SimStatus → Exec (Machine W) Unit
  with_sim sim = do
    modify (λ d. record d { next_sim_reprobe = 0 })
    update (λ s. record s { sim_present = true; iccid = sim.iccid; imsi = sim.imsi })
    refresh_sim_name
    record_identity true (codes "sim-ready")
    modify (λ d. record d { sms_pending = true })
    emit info "sim"
    go env sim_ready (λ s. s)

  abbrev pub describe : ℕ → ModemIdentity → Option Text → Snapshot → Snapshot
  describe driver identity firmware s = record s {
    vendor = some identity.vendor;
    model = some identity.model;
    imei = some identity.imei;
    firmware = firmware;
    rat_supported = supported_rats driver;
  }

  abbrev pub identified : ℕ → ModemIdentity × SimStatus → Exec (Machine W) Unit
  identified driver found = do
    firmware ← or_none (call (get_firmware driver))
    update (describe driver found.0 firmware)
    if found.1.present then with_sim found.1 else without_sim driver found.1

  unfoldable pub state_modem_found : Exec (Machine W) Unit
  state_modem_found = do
    driver ← the_driver
    r ← attempt_modem (identify driver)
    on_tried r (identified driver) (λ _. emit error "modem" >> drop_modem env)

  -- The profile that a SIM gets; another one than before starts at its first variant.
  unfoldable pub adopt : Profile → Exec (Machine W) Unit
  adopt profile = do
    active ← gets (λ d. d.active_profile)
    when (not (same_text (elim active [ none ↦ none | some p ↦ some p.name ]) (some profile.name)))
        (do
          emit info "profile"
          modify (λ d. record d { variant_index = 0; fallback_active = false }))
    modify (λ d. record d { active_profile = some profile })
    go env configuring (λ s. record s { active_profile = some profile.name; last_error = none })

  abbrev pub choose_profile : Text → Exec (Machine W) Unit
  choose_profile iccid = do
    selected ← gets (λ d. select_profile d.forced_profile iccid d.profiles)
    on_option selected
        (update (λ s. record s {
          last_error = some (codes "no profile matches ICCID " ++ iccid);
          active_profile = none;
        }))
        adopt

  abbrev pub fire_armed : Exec (Machine W) Unit
  fire_armed = do
    emit info "fallback"
    seconds ← consume_fallback_arm env
    start_fallback_test env seconds

  abbrev pub attach_sim : Option Text → Exec (Machine W) Unit
  attach_sim (some (c ∷ iccid)) = do
    armed ← gets (λ d. d.fallback_armed)
    if armed then fire_armed else choose_profile (c ∷ iccid)
  attach_sim _ = go env modem_found (λ s. s)

  unfoldable pub state_sim_ready : Exec (Machine W) Unit
  state_sim_ready = do iccid ← gets (λ d. d.store.iccid); attach_sim iccid

  abbrev pub perform : ℕ → Action → Exec (Machine W) Unit
  perform driver (delete_context cid) = do call (delete_pdp_context driver cid); emit info "pdp"
  perform driver (define_context context) = do
    call (define_pdp_context driver context)
    emit info "pdp"

  -- The `try` block of `_state_configuring`.
  unfoldable pub configure : ℕ → Profile → List PdpContext → PdpContext → Exec (Machine W) Unit
  configure driver profile contexts bearer = do
    when (not (is_empty profile.at_init)) (call (run_init_commands driver profile.at_init))
    actual ← call (get_pdp_contexts driver)
    for_each (reconcile actual contexts) (perform driver)
    call (configure_connection profile bearer)

  abbrev pub await_registration : PdpContext → Exec (Machine W) Unit
  await_registration bearer = do
    update (λ s. record s { apn = some bearer.apn })
    now ← call clock
    modify (λ d. record d {
      connect_deadline = some (now + d.config.registration_timeout_seconds);
      activation_logged = false;
    })
    go env connecting (λ s. s)

  unfoldable pub state_configuring : Exec (Machine W) Unit
  state_configuring = do
    driver ← the_driver
    profile ← the_profile
    modify (λ d. record d {
      variant_index =
          if ltb d.variant_index (length (context_sets profile)) then d.variant_index else 0;
    })
    index ← gets (λ d. d.variant_index)
    chosen ← demand (get_elem? (context_sets profile) index)
    bearer ← demand (bearer_of chosen.1)
    when (ltb 1 (length (context_sets profile))) (emit info "pdp")
    r ← attempt_either (configure driver profile chosen.1 bearer)
    on_tried r (λ _. await_registration bearer)
        (λ e. fail env (codes "configuration failed: " ++ e))

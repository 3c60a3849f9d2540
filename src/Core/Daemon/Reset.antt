-- ===== src/Core/Daemon/Reset.antt =====
-- src/sim_monitor/core/daemon.py: forgetting the modem, resetting it, and choosing a profile.
use sim_connectivity_monitor.Prelude.{
  ℕ, Bool, true, false, not, Option, none, some, List, [], ◌∷◌, Text, find, text_eq, length,
  replicate,
}
use sim_connectivity_monitor.Config.Schema.{Profile}
use sim_connectivity_monitor.Config.Matcher.{match_profile}
use sim_connectivity_monitor.Core.States.{
  State, no_modem, sim_ready, configuring, connecting, connected, degraded,
}
use sim_connectivity_monitor.Core.Snapshot.{Snapshot}
use sim_connectivity_monitor.Core.Exec.{
  Exec, on_tried, ◌>>=◌, ◌>>◌, done, gets, modify, when, for_each, attempt_modem,
}
use sim_connectivity_monitor.Core.Daemon.Env.{Env}
use sim_connectivity_monitor.Core.Daemon.Machine.{
  Machine, info, warning, error, call, emit, update, go, safe_disconnect,
}

abbrev pub no_link : Snapshot → Snapshot
no_link s = record s { interface = none; ip_address = none }

abbrev pub forget : Snapshot → Snapshot
forget s = record s {
  sim_present = false;
  iccid = none;
  imsi = none;
  sim_name = none;
  interface = none;
  ip_address = none;
  gateway = none;
  public_ip = none;
  active_profile = none;
  vendor = none;
  model = none;
  imei = none;
  rat_supported = [];
}

-- States in which a new profile choice starts over, `_reevaluate_profile`.
abbrev pub can_reevaluate : State → Bool
can_reevaluate sim_ready = true
can_reevaluate configuring = true
can_reevaluate connecting = true
can_reevaluate connected = true
can_reevaluate degraded = true
can_reevaluate _ = false

module _ {W : Type 0} (env : Env W) where
  open env use {full_reset}

  unfoldable pub drop_modem : Exec (Machine W) Unit
  drop_modem = do
    modify (λ d. record d {
      driver = none;
      active_profile = none;
      events_enabled = false;
      sim_refresh_pending = false;
      registration = none;
      last_identity = none;
      variant_index = 0;
      fallback_active = false;
    })
    go env no_modem forget

  unfoldable pub reset_driver : Option ℕ → Exec (Machine W) Unit
  reset_driver none = done
  reset_driver (some driver) = do
    r ← attempt_modem (call (full_reset driver))
    on_tried r (λ _. done) (λ _. emit error "modem")

  unfoldable pub full_reset_modem : Exec (Machine W) Unit
  full_reset_modem = do
    driver ← gets (λ d. d.driver)
    reset_driver driver
    safe_disconnect env
    drop_modem

  unfoldable pub reevaluate_profile : Exec (Machine W) Unit
  reevaluate_profile = do
    state ← gets (λ d. d.state)
    when (can_reevaluate state) (do safe_disconnect env; go env sim_ready (λ s. s))

-- `_select_profile`: a forced profile, or the best match.
unfoldable pub select_profile : Option Text → Text → List Profile → Option Profile
unfolding text_eq match_profile
select_profile (some (c ∷ name)) iccid profiles = find (λ p. text_eq p.name (c ∷ name)) profiles
select_profile _ iccid profiles = elim (match_profile iccid profiles) [
  | none ↦ none
  | some r ↦ some r.profile
]

-- Whether the selected profile is not the active one.
abbrev pub selection_changed : Option Profile → Option Profile → Bool
selection_changed none active = true
selection_changed (some p) none = true
selection_changed (some p) (some q) = not (text_eq p.name q.name)

module _ {W : Type 0} (env : Env W) where
  open env use {load_profiles}

  -- An ICCID that is empty is none.
  abbrev pub reselect : Option Text → Exec (Machine W) Unit
  reselect (some (c ∷ iccid)) = do
    selected ← gets (λ d. select_profile d.forced_profile (c ∷ iccid) d.profiles)
    active ← gets (λ d. d.active_profile)
    when (selection_changed selected active) (reevaluate_profile env)
  reselect _ = done

  unfoldable pub reload_profiles : Exec (Machine W) Unit
  reload_profiles = do
    loaded ← call load_profiles
    for_each (replicate loaded.1 tt) (λ _. emit warning "profile")
    modify (λ d. record d { profiles = loaded.0 })
    update (λ s. record s { profile_count = length loaded.0 })
    emit info "profile"
    iccid ← gets (λ d. d.store.iccid)
    reselect iccid

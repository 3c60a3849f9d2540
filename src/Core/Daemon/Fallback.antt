-- ===== src/Core/Daemon/Fallback.antt =====
-- src/sim_monitor/core/daemon.py: the fallback test (airplane mode for a while, then a new look at
-- the SIM) and its one-shot arming.
use sim_connectivity_monitor.Prelude.{
  ℕ, zero, suc, ◌+◌, max, Bool, true, false, not, Option, none, some, Text, codes, if◌then◌else◌,
  ◌==◌,
}
use sim_connectivity_monitor.Config.Schema.{Profile}
use sim_connectivity_monitor.Core.States.{
  State, modem_found, sim_ready, configuring, connecting, connected, degraded, fallback_test,
}
use sim_connectivity_monitor.Core.Snapshot.{no_fallback}
use sim_connectivity_monitor.Core.Exec.{
  Exec, on_tried, ◌>>=◌, ◌>>◌, pure, done, gets, modify, when, attempt_modem, attempt_all,
}
use sim_connectivity_monitor.Core.Daemon.Env.{Env, SimStatus}
use sim_connectivity_monitor.Core.Daemon.Machine.{
  Machine, info, warning, error, call, emit, update, the_driver, go, fail, safe_disconnect,
}
use sim_connectivity_monitor.Core.Daemon.Reset.{no_link}

-- `_FALLBACK_TEST_FROM`.
abbrev pub can_start_test : State → Bool
can_start_test sim_ready = true
can_start_test configuring = true
can_start_test connecting = true
can_start_test connected = true
can_start_test degraded = true
can_start_test _ = false

-- `duration or …`: a duration of 0 counts as none.
abbrev pub airplane_seconds : Option ℕ → Option Profile → ℕ
airplane_seconds (some (suc n)) profile = suc n
airplane_seconds _ none = 900
airplane_seconds _ (some p) = p.fallback_test.airplane_seconds

-- `FallbackTestConfig().settle_seconds` is 5.
abbrev pub settle_seconds : Option Profile → ℕ
settle_seconds none = 5
settle_seconds (some p) = p.fallback_test.settle_seconds

abbrev pub no_sim : Option Text → SimStatus
no_sim detail = record { present = false; iccid = none; imsi = none; detail = detail }

-- What is stored of an arming: nothing, "default", or a number of seconds.
abbrev pub stored_arm : Bool → Option ℕ → Option (Option ℕ)
stored_arm false duration = none
stored_arm true (some (suc n)) = some (some (suc n))
stored_arm true _ = some none

module _ {W : Type 0} (env : Env W) where
  open env use {clock, wall_clock, watchdog, sleep, set_airplane, get_sim_status, put_fallback_arm}

  unfoldable pub arm_fallback_test : Bool → Option ℕ → Exec (Machine W) Unit
  arm_fallback_test armed duration = do
    modify (λ d. record d {
      fallback_armed = armed;
      fallback_arm_seconds = if armed then duration else none;
    })
    r ← attempt_all (call (put_fallback_arm (stored_arm armed duration)))
    on_tried r (λ _. done) (λ _. emit warning "fallback")
    emit info "fallback"
    update (λ s. record s { fallback_armed = armed })

  unfoldable pub consume_fallback_arm : Exec (Machine W) (Option ℕ)
  consume_fallback_arm = do
    seconds ← gets (λ d. d.fallback_arm_seconds)
    modify (λ d. record d { fallback_armed = false; fallback_arm_seconds = none })
    attempt_all (call (put_fallback_arm none))
    update (λ s. record s { fallback_armed = false })
    pure seconds

  -- The test itself, once airplane mode is on.
  unfoldable pub begin_test : ℕ → Option Text → Exec (Machine W) Unit
  begin_test seconds iccid = do
    safe_disconnect env
    now ← call clock
    modify (λ d. record d { fallback_until = some (now + seconds) })
    emit info "fallback"
    wall ← call wall_clock
    go env fallback_test (λ s. record (no_link s) {
      fallback = record { active = true; until = some (wall + seconds); iccid_before = iccid };
    })

  abbrev pub start_with : Option ℕ → Bool → Option ℕ → Exec (Machine W) Unit
  start_with (some driver) true duration = do
    profile ← gets (λ d. d.active_profile)
    iccid ← gets (λ d. d.store.iccid)
    r ← attempt_modem (call (set_airplane driver true))
    on_tried r (λ _. begin_test (airplane_seconds duration profile) iccid)
        (λ _. emit error "fallback")
  start_with (some driver) false duration = emit error "fallback"
  start_with none allowed duration = emit error "fallback"

  unfoldable pub start_fallback_test : Option ℕ → Exec (Machine W) Unit
  start_fallback_test duration = do
    driver ← gets (λ d. d.driver)
    state ← gets (λ d. d.state)
    start_with driver (can_start_test state) duration

  -- `_reenable_radio` with the attempts that are left; between two attempts it sleeps.
  unfoldable pub reenable_radio : ℕ → Exec (Machine W) Bool
  reenable_radio zero = do emit error "fallback"; pure false
  reenable_radio (suc left) = do
    driver ← the_driver
    r ← attempt_modem (call (set_airplane driver false))
    on_tried r (λ _. pure true)
        (λ _. do
          emit warning "fallback"
          call watchdog
          when (not (left == 0)) (call (sleep 1))
          reenable_radio left)

  -- `_read_sim_after_radio_on` with the polls that are left; `last` is what the last one read.
  unfoldable pub read_sim : ℕ → SimStatus → Exec (Machine W) SimStatus
  read_sim zero last = pure last
  read_sim (suc left) last = do
    call (sleep 1)
    call watchdog
    driver ← the_driver
    r ← attempt_modem (call (get_sim_status driver))
    on_tried r (λ sim. if sim.present then pure sim else read_sim left sim)
        (λ e. read_sim left (no_sim (some e)))

  abbrev pub after_test : SimStatus → Exec (Machine W) Unit
  after_test sim = do
    emit (if sim.present then info else warning) "fallback"
    modify (λ d. record d { active_profile = none })
    go env (if sim.present then sim_ready else modem_found) (λ s. record s {
      sim_present = sim.present;
      iccid = sim.iccid;
      imsi = sim.imsi;
      active_profile = none;
      fallback = no_fallback;
    })

  -- The two ends of the test, after the radio is on again and after it is not.
  unfoldable pub finish : ℕ → Exec (Machine W) Unit
  finish polls = do sim ← read_sim polls (no_sim none); after_test sim

  unfoldable pub give_up : Exec (Machine W) Unit
  give_up = do
    update (λ s. record s { fallback = no_fallback })
    fail env (codes "failed to exit airplane mode; radio may still be off")

  unfoldable pub end_fallback_test : Exec (Machine W) Unit
  end_fallback_test = do
    the_driver
    modify (λ d. record d { fallback_until = none })
    settle ← gets (λ d. settle_seconds d.active_profile)
    on ← reenable_radio 3
    if on then finish (max 1 settle) else give_up

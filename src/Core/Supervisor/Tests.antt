-- ===== src/Core/Supervisor/Tests.antt =====
-- Runs of the supervisor, and its theorems at concrete inputs.
use sim_connectivity_monitor.Prelude.{
  ◌≤◌, ◌<◌, ◌≡◌, refl, ◌⊎◌, some, true, false, [], ◌∷◌, get_elem?,
}
use sim_connectivity_monitor.Core.Supervisor.{
  reconnect, ladder, Supervisor, init, parked, on_failure, usb_power_cycle,
}
use sim_connectivity_monitor.Core.Supervisor.Ladder.{
  failed_at, connected_at, consumed, calls, IsSound, calls-IsSound, fail_times, failures_escalate,
}

abbrev fourth : Supervisor
fourth = record init { failures = 3 }

last_rung : (on_failure fourth 100).1.action ≡ usb_power_cycle
unfolding on_failure
last_rung = refl

last_rung_wait : (on_failure fourth 100).1.not_before ≡ 180
unfolding on_failure
last_rung_wait = refl

init-IsSound : IsSound init
init-IsSound = record {
  plan_is_latest = λ p e. cc;
  plan_has_failure = λ p e. cc;
  plan_action = λ p e. cc;
}

calls-IsSound_example :
    IsSound (calls init (failed_at 5 ∷ consumed ∷ connected_at 9 ∷ failed_at 20 ∷ []))
calls-IsSound_example =
    calls-IsSound init (failed_at 5 ∷ consumed ∷ connected_at 9 ∷ failed_at 20 ∷ []) init-IsSound

failures_escalate_example :
    let r = on_failure (fail_times init (10 ∷ 30 ∷ [])) 90 in
    ((2 < 4) × (get_elem? ladder 2 ≡ some r.1.action) × (parked r.0 ≡ false))
    ⊎ ((4 ≤ 2) × (r.1.action ≡ reconnect) × (parked r.0 ≡ true))
failures_escalate_example = failures_escalate init (10 ∷ 30 ∷ []) 90 refl

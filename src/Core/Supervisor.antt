-- ===== src/Core/Supervisor.antt =====
-- src/sim_monitor/core/supervisor.py. A method returns the new object beside its result.
-- Times and waits are whole numbers of one unit of the monotonic clock.
mod Ladder
mod Tests
use sim_connectivity_monitor.Prelude.{
  ℕ, zero, suc, ◌+◌, ◌-◌, ◌*◌, ◌^◌, min, Bool, Option, none, some, List, [], ◌∷◌, length, get_elem?,
  ltb, leb, ◌==◌, ◌&&◌, not, if◌then◌else◌,
}

pub data RecoveryAction : Type 0 where
  reconnect modem_disable_enable at_reset usb_power_cycle : RecoveryAction

abbrev pub ladder : List RecoveryAction
ladder = reconnect ∷ modem_disable_enable ∷ at_reset ∷ usb_power_cycle ∷ []

pub record PlannedRecovery : Type 0 where
  pub action : RecoveryAction
  pub attempt : ℕ
  pub not_before : ℕ

pub record Supervisor : Type 0 where
  pub backoff_base : ℕ
  pub backoff_max : ℕ
  pub parked_interval : ℕ
  pub stable_seconds : ℕ
  pub failures : ℕ
  pub planned : Option PlannedRecovery
  pub connected_since : Option ℕ

-- `Supervisor()` with the defaults of the constructor.
abbrev pub init : Supervisor
init = record {
  backoff_base = 10;
  backoff_max = 300;
  parked_interval = 300;
  stable_seconds = 600;
  failures = 0;
  planned = none;
  connected_since = none;
}

unfoldable pub parked : Supervisor → Bool
parked s = ltb (length ladder) s.failures

-- `LADDER[i]`; the callers stay inside the list.
abbrev pub rung : ℕ → RecoveryAction
rung i = elim (get_elem? ladder i) [ none ↦ reconnect | some a ↦ a ]

-- The action and the wait that `on_failure` chooses for the n-th failure.
unfoldable pub choose : Supervisor → ℕ → RecoveryAction × ℕ
choose s n =
    if leb n (length ladder)
    then (rung (n - 1), min (s.backoff_base * 2 ^ (n - 1)) s.backoff_max)
    else (reconnect, s.parked_interval)

unfoldable pub on_failure : Supervisor → ℕ → Supervisor × PlannedRecovery
unfolding choose
on_failure s now =
    let n = s.failures + 1 in
    let (action, wait) = choose s n in
    let plan : PlannedRecovery = record { action = action; attempt = n; not_before = now + wait } in
    (record s { failures = n; connected_since = none; planned = some plan }, plan)

unfoldable pub due : Supervisor → ℕ → Option PlannedRecovery
due s now = elim s.planned [ none ↦ none | some p ↦ if leb p.not_before now then some p else none ]

unfoldable pub consume : Supervisor → Supervisor
consume s = record s { planned = none }

unfoldable pub reset : Supervisor → Supervisor
reset s = record s { failures = 0; planned = none; connected_since = none }

-- `now - since >= stable_seconds`, with `since` on the other side.
unfoldable pub on_connected : Supervisor → ℕ → Supervisor
unfolding reset
on_connected s now = elim s.connected_since [
  | none ↦ record s { connected_since = some now }
  | some since ↦ if not (s.failures == 0) && leb (since + s.stable_seconds) now then reset s else s
]

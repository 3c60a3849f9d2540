-- ===== src/Core/Supervisor/Ladder.antt =====
-- The escalation ladder and the backoff of src/sim_monitor/core/supervisor.py.
use native.Mathlib.Nat.{pow-suc}
use sim_connectivity_monitor.Prelude.{
  ℕ, zero, suc, ◌+◌, ◌*◌, ◌^◌, ◌≤◌, ◌<◌, min, max, ◌≡◌, refl, ◌⊎◌, inl, inr, true, false, none,
  some, List, [], ◌∷◌, arith, length, get_elem?,
}
use sim_connectivity_monitor.Core.Supervisor.{
  reconnect, ladder, PlannedRecovery, Supervisor, choose, parked, on_failure, due, consume, reset,
  on_connected,
}

-- What the daemon does to its supervisor.
pub data Call : Type 0 where
  failed_at : ℕ → Call
  connected_at : ℕ → Call
  consumed resetted : Call

unfoldable pub call : Supervisor → Call → Supervisor
call s (failed_at now) = (on_failure s now).0
call s (connected_at now) = on_connected s now
call s consumed = consume s
call s resetted = reset s

unfoldable pub calls : Supervisor → List Call → Supervisor
calls s [] = s
calls s (c ∷ cs) = calls (call s c) cs

-- The plan, if there is one, is that of the latest failure; a connection that counts as stable
-- rules a plan of a later failure out.
pub record IsSound (s : Supervisor) : Type 0 where
  pub plan_is_latest : (p : PlannedRecovery) → s.planned ≡ some p → p.attempt ≡ s.failures
  pub plan_has_failure : (p : PlannedRecovery) → s.planned ≡ some p → 0 < s.failures
  pub plan_action : (p : PlannedRecovery) → s.planned ≡ some p → p.action ≡ (choose s p.attempt).0

call-IsSound : (s : Supervisor) (c : Call) → IsSound s → IsSound (call s c)
unfolding call on_failure choose consume reset on_connected
call-IsSound s (failed_at now) h = record {
  plan_is_latest = λ p e. ground arith;
  plan_has_failure = λ p e. ground arith;
  plan_action = λ p e. ground arith;
}
call-IsSound s (connected_at now) h = record {
  plan_is_latest = λ p e. ground (arith, h.plan_is_latest p);
  plan_has_failure = λ p e. ground (arith, h.plan_has_failure p);
  plan_action = λ p e. ground (arith, h.plan_action p);
}
call-IsSound s consumed h = record {
  plan_is_latest = λ p e. cc;
  plan_has_failure = λ p e. cc;
  plan_action = λ p e. cc;
}
call-IsSound s resetted h = record {
  plan_is_latest = λ p e. cc;
  plan_has_failure = λ p e. cc;
  plan_action = λ p e. cc;
}

-- Over every sequence of calls, a supervisor that starts sound stays so: a planned action carries
-- the number of the latest failure, there was a failure, and the action is the rung of the ladder
-- that this number selects.
pub calls-IsSound : (s : Supervisor) (cs : List Call) → IsSound s → IsSound (calls s cs)
unfolding calls
calls-IsSound s [] h = h
calls-IsSound s (c ∷ cs) h = calls-IsSound (call s c) cs (call-IsSound s c h)

pow_step : (b n : ℕ) → b * 2 ^ n ≤ b * 2 ^ (suc n)
pow_step b n = rw pow-suc (grind arith)

-- A failure is planned for no earlier than now and no later than the larger of the two waits
-- after now; the plan becomes the supervisor's and counts one failure more; and it is due from
-- its time on, and not before.
on_failure-due :
    (s : Supervisor) (now t : ℕ)
    → (now ≤ (on_failure s now).1.not_before)
      × ((on_failure s now).1.not_before ≤ now + max s.backoff_max s.parked_interval)
      × ((on_failure s now).1.attempt ≡ s.failures + 1)
      × ((on_failure s now).0.failures ≡ s.failures + 1)
      × ((due (on_failure s now).0 t ≡ some (on_failure s now).1)
          ⊎ ((due (on_failure s now).0 t ≡ none) × (t < (on_failure s now).1.not_before)))
unfolding on_failure choose due
on_failure-due s now t = (ground arith, ground arith, ground arith, ground arith, ground arith)

-- The n-th failure in a row, counted from 1, chooses the n-th rung; past the last rung the
-- supervisor is parked and chooses a reconnection after the parked interval.
choose_escalates :
    (s : Supervisor) (n : ℕ)
    → ((n < 4)
        × (get_elem? ladder n ≡ some (choose s (n + 1)).0)
        × ((choose s (n + 1)).1 ≡ min (s.backoff_base * 2 ^ n) s.backoff_max))
      ⊎ ((4 ≤ n) × (choose s (n + 1) ≡ (reconnect, s.parked_interval)))
unfolding choose
choose_escalates s zero = inl (omega arith, refl, refl)
choose_escalates s (suc zero) = inl (omega arith, refl, refl)
choose_escalates s (suc (suc zero)) = inl (omega arith, refl, refl)
choose_escalates s (suc (suc (suc zero))) = inl (omega arith, refl, refl)
choose_escalates s (suc (suc (suc (suc n)))) = inr (omega arith, ground arith)

-- On the ladder a later rung never waits less than the one before.
choose_backoff_grows :
    (s : Supervisor) (n : ℕ) → n < 3 → (choose s (n + 1)).1 ≤ (choose s (n + 2)).1
unfolding choose
choose_backoff_grows s zero h = omega arith
choose_backoff_grows s (suc zero) h = omega arith
choose_backoff_grows s (suc (suc zero)) h = omega arith
choose_backoff_grows s (suc (suc (suc n))) h = absurd (omega arith)

-- While there are failures, a connection that is known since some time clears the ladder exactly
-- when it has lasted the stable interval; before that nothing changes.
on_connected_resets :
    (s : Supervisor) (now since : ℕ)
    → 0 < s.failures
    → s.connected_since ≡ some since
    → ((since + s.stable_seconds ≤ now) × (on_connected s now ≡ reset s))
      ⊎ ((now < since + s.stable_seconds) × (on_connected s now ≡ s))
unfolding on_connected
on_connected_resets s now since h e = ground arith

-- Failing again and again without a stable connection ends parked, and stays there.
pub fail_times : Supervisor → List ℕ → Supervisor
fail_times s [] = s
fail_times s (t ∷ ts) = fail_times (on_failure s t).0 ts

pub fail_times-failures :
    (s : Supervisor) (ts : List ℕ) → (fail_times s ts).failures ≡ s.failures + length ts
unfolding fail_times on_failure
fail_times-failures s [] = omega arith
fail_times-failures s (t ∷ ts) = omega (arith, fail_times-failures (on_failure s t).0 ts)

-- After any failures in a row on a fresh ladder, one failure more chooses the rung that their number
-- selects, and with four or more before it the supervisor is parked on the gentlest action.
pub failures_escalate :
    (s : Supervisor) (ts : List ℕ) (now : ℕ)
    → s.failures ≡ 0
    → let r = on_failure (fail_times s ts) now in
      ((length ts < 4) × (get_elem? ladder (length ts) ≡ some r.1.action) × (parked r.0 ≡ false))
      ⊎ ((4 ≤ length ts) × (r.1.action ≡ reconnect) × (parked r.0 ≡ true))
unfolding on_failure parked
failures_escalate s ts now h =
    ground (arith, fail_times-failures s ts, choose_escalates (fail_times s ts) (length ts))

-- ===== src/Core/Daemon/Passive.antt =====
-- src/sim_monitor/core/daemon.py: in some states the daemon passes over a reconnection, a new selection
-- of the profile and the start of a fallback test.
use sim_connectivity_monitor.Prelude.{
  ℕ, ◌≡◌, refl, sym, Bool, true, false, ◌&&◌, Option, none, some, is_some,
}
use mathlib.Core.Bool.{false≢true}
use sim_connectivity_monitor.Core.Reply.{RegexSearch}
use sim_connectivity_monitor.Core.Exec.Keeps.{
  Keeps, Keeps-gets, Keeps-bind, Keeps-known, Keeps-skipped,
}
use sim_connectivity_monitor.Core.Daemon.Env.{Env}
use sim_connectivity_monitor.Core.Daemon.Machine.{Machine}
use sim_connectivity_monitor.Core.Daemon.Quiet.{Frame, Quiet-emit}
use sim_connectivity_monitor.Core.Daemon.Reset
use sim_connectivity_monitor.Core.Daemon.Fallback
use sim_connectivity_monitor.Core.Daemon.Tick

-- A property of daemons in states in which the guards of these operations are false.
pub record Passive {W : Type 0} (P : Machine W → Type 0) : Type 0 where
  pub reevaluates : (d : Machine W) → P d → Reset.can_reevaluate d.state ≡ false
  pub starts : (d : Machine W) → P d → Fallback.can_start_test d.state ≡ false
  pub attached : (d : Machine W) → P d → Tick.is_attached d.state ≡ false

and_false : (b c : Bool) → c ≡ false → (b && c) ≡ false
and_false true c h = h
and_false false c h = refl

module _ {W : Type 0} {P : Machine W → Type 0} ⦃frame : Frame P⦄ ⦃passive : Passive P⦄ (env : Env W)
    (search_regex : RegexSearch) where
  pub Passive-reevaluate_profile : Keeps P (Reset.reevaluate_profile env)
  unfolding Reset.reevaluate_profile
  Passive-reevaluate_profile =
      Keeps-known (λ d. d.state) _ (λ s. Reset.can_reevaluate s ≡ false) passive.reevaluates
        (λ s h. Keeps-skipped _ _ h)

  pub Passive-do_reconnect : Keeps P (Tick.do_reconnect env search_regex)
  unfolding Tick.do_reconnect
  Passive-do_reconnect = Keeps-bind _ _ (Quiet-emit _ _) (λ _.
      Keeps-known _ _ (λ b. b ≡ false)
        (λ d h. and_false (is_some d.active_profile) _ (passive.attached d h))
        (λ b h. Keeps-skipped b _ h))

  pub Passive-retune : Keeps P (Tick.retune env search_regex)
  unfolding Tick.retune
  Passive-retune =
      Keeps-known _ _ (λ b. b ≡ false)
        (λ d h. and_false (is_some d.active_profile) _ (passive.attached d h))
        (λ b h. Keeps-skipped b _ h)

  Passive-start_with :
      (o : Option ℕ) (b : Bool) (p : Option ℕ) → b ≡ false → Keeps P (Fallback.start_with env o b p)
  Passive-start_with none b p h = Quiet-emit _ _
  Passive-start_with (some n) false p h = Quiet-emit _ _
  Passive-start_with (some n) true p h = elim (false≢true (sym h)) [ ]

  pub Passive-start_fallback_test : (p : Option ℕ) → Keeps P (Fallback.start_fallback_test env p)
  unfolding Fallback.start_fallback_test
  Passive-start_fallback_test p = Keeps-bind _ _ (Keeps-gets (λ d. d.driver)) (λ driver.
      Keeps-known (λ d. d.state) _ (λ s. Fallback.can_start_test s ≡ false) passive.starts
        (λ s h. Passive-start_with driver _ p h))

-- ===== src/Core/Daemon/Aside.antt =====
-- src/sim_monitor/core/daemon.py: what runs beside the connection and does not disturb it, and what the
-- daemon waits for.
use sim_connectivity_monitor.Prelude.{
  ℕ, ◌<◌, ◌≡◌, refl, sym, ◌∙◌, ap, Option, none, some, List, [], Text, lt→ltb,
}
use mathlib.Core.Path.{subst}
use sim_connectivity_monitor.Core.Reply.{RegexSearch}
use sim_connectivity_monitor.Config.Schema.{Profile}
use sim_connectivity_monitor.Core.States.{State, configuring}
use sim_connectivity_monitor.Core.Exec.{ok, crash, Exec, demand, for_each, ◌>>=◌}
use sim_connectivity_monitor.Core.Exec.Keeps.{Keeps, Keeps-bind, Keeps-known, Keeps-done}
use sim_connectivity_monitor.Core.Daemon.Env.{Env}
use sim_connectivity_monitor.Core.Daemon.Machine.{Machine, call, the_driver, the_profile}
use sim_connectivity_monitor.Core.Daemon.Attach
use sim_connectivity_monitor.Core.Daemon.Recovery
use sim_connectivity_monitor.Core.Daemon.Tick
use sim_connectivity_monitor.Core.Daemon.Sms
use sim_connectivity_monitor.Core.Daemon.Requests
use sim_connectivity_monitor.Core.Daemon.Quiet.{Frame, quiet_rules, Quiet-the_driver}
use sim_connectivity_monitor.Core.Daemon.QuietSms.{
  Quiet-poll_urcs, Quiet-maybe_fetch_sms, Quiet-send_sms, Quiet-run_diagnostics,
}

-- The same state, driver, profile and test deadline.
unfoldable pub SameControl : {W : Type 0} → Machine W → Machine W → Type 0
SameControl d e =
    (e.state ≡ d.state)
    × (e.driver ≡ d.driver)
    × (e.active_profile ≡ d.active_profile)
    × (e.fallback_until ≡ d.fallback_until)

-- Configuring without a profile.
unfoldable pub IsStuck : {W : Type 0} → Machine W → Type 0
IsStuck d = (d.state ≡ configuring) × (d.active_profile ≡ none)

module _ {W : Type 0} where
  Frame-SameControl : (d : Machine W) → Frame (SameControl d)
  unfolding SameControl
  Frame-SameControl d = record { same = λ e f s v a u (h, i, j, k). (s ∙ h, v ∙ i, a ∙ j, u ∙ k) }

  instance Frame-IsStuck : Frame (IsStuck {W = W})
  unfolding IsStuck
  Frame-IsStuck = record { same = λ e f s v a u (h, i). (s ∙ h, a ∙ i) }

  SameControl-refl : (d : Machine W) → SameControl d d
  unfolding SameControl
  SameControl-refl d = (refl, refl, refl, refl)

  -- Events from the modem, the fetch of text messages with its automatic replies, a text message
  -- that is sent and a diagnostics run leave the state, the driver, the active profile and the
  -- deadline of a test as they are, whatever the modem and the database answer.
  pub messages-SameControl :
      (env : Env W) (search_regex : RegexSearch) (d : Machine W) (number body : Text)
      (commands : List Text)
      → SameControl d (Sms.poll_urcs env search_regex d).1
        × SameControl d (Sms.maybe_fetch_sms env search_regex d).1
        × SameControl d (Sms.send_sms env search_regex number body d).1
        × SameControl d (Requests.run_diagnostics env search_regex commands d).1
  messages-SameControl env search_regex d number body commands = (
    (Quiet-poll_urcs ⦃frame = Frame-SameControl d⦄ env search_regex).at d (SameControl-refl d),
    (Quiet-maybe_fetch_sms ⦃frame = Frame-SameControl d⦄ env search_regex).at d
        (SameControl-refl d),
    (Quiet-send_sms ⦃frame = Frame-SameControl d⦄ env search_regex number body).at d
        (SameControl-refl d),
    (Quiet-run_diagnostics ⦃frame = Frame-SameControl d⦄ env search_regex commands).at d
        (SameControl-refl d),
  )

  demanded :
      {A B : Type 0} (o : Option A) (f : A → Exec (Machine W) B) (d : Machine W)
      → o ≡ none
      → (demand o >>= f) d ≡ (crash, d)
  unfolding demand ◌>>=◌
  demanded o f d h = ap (λ p. (demand p >>= f) d) h

  the_profile-stuck :
      {B : Type 0} (f : Profile → Exec (Machine W) B) (d : Machine W)
      → d.active_profile ≡ none
      → (the_profile >>= f) d ≡ (crash, d)
  unfolding the_profile ◌>>=◌
  the_profile-stuck f d h = demanded d.active_profile f d h

  Keeps-stuck : {A : Type 0} (f : Profile → Exec (Machine W) A) → Keeps IsStuck (the_profile >>= f)
  unfolding IsStuck
  Keeps-stuck f = record {
    at = λ d h. subst (λ r. IsStuck r.1) (sym (the_profile-stuck f d h.1)) h;
  }

  module _ (env : Env W) (search_regex : RegexSearch) where
    stuck-configuring : Keeps IsStuck (Attach.state_configuring env)
    unfolding Attach.state_configuring
    stuck-configuring = Keeps-bind the_driver _ Quiet-the_driver (λ driver. Keeps-stuck _)

    stuck-handler : (s : State) → s ≡ configuring → Keeps IsStuck (Tick.handler env search_regex s)
    unfolding Tick.handler
    stuck-handler s h =
        subst (λ t. Keeps IsStuck (Tick.handler env search_regex t)) (sym h) stuck-configuring

    stuck-body : Keeps IsStuck (Tick.tick_body env search_regex [])
    unfolding Tick.tick_body IsStuck for_each
    stuck-body = Keeps-bind _ _ (Quiet-poll_urcs env search_regex) (λ _.
        Keeps-bind _ _ Keeps-done (λ _.
          Keeps-known (λ d. d.state) _ (λ s. s ≡ configuring) (λ d h. h.0)
            (λ s h.
              Keeps-bind _ _ (stuck-handler s h) (λ _. Quiet-maybe_fetch_sms env search_regex))))

    stuck-tick : Keeps IsStuck (Tick.tick env search_regex [])
    unfolding Tick.tick
    stuck-tick = search (quiet_rules, stuck-body) depth 60

  -- A daemon in CONFIGURING without an active profile stays so in every tick without a command,
  -- whatever is outside: the handler's `assert` raises, and nothing leaves the state.
  pub tick-IsStuck :
      (env : Env W) (search_regex : RegexSearch) (d : Machine W)
      → IsStuck d
      → IsStuck (Tick.tick env search_regex [] d).1
  tick-IsStuck env search_regex d h = (stuck-tick env search_regex).at d h

  -- During a test that is not over, the handler reads the clock, and that is all.
  fallback_test-waits :
      (env : Env W) (d : Machine W) (deadline now : ℕ) (w : W)
      → d.fallback_until ≡ some deadline
      → env.clock d.world ≡ (ok now, w)
      → now < deadline
      → Recovery.state_fallback_test env d ≡ (ok tt, record d { world = w })
  unfolding Recovery.state_fallback_test ◌>>=◌ call
  fallback_test-waits env d deadline now w h k l = rw (h, k, lt→ltb now deadline l)

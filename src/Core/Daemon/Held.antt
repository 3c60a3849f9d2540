-- ===== src/Core/Daemon/Held.antt =====
-- src/sim_monitor/core/daemon.py: either the daemon looks for a modem, or it holds the driver of one.
use sim_connectivity_monitor.Core.Snapshot.{Snapshot}
use sim_connectivity_monitor.Core.Exec.Keeps.{Keeps}
use sim_connectivity_monitor.Core.Exec.Leads.{
  Leads, Leads-Keeps, Leads-modify, Leads-bind, Leads-gets, Leads-done, Leads-when,
  Leads-attempt_all,
}
use sim_connectivity_monitor.Core.Daemon.Live.{Frame-Live, Live, live_rules, Live-go}
use sim_connectivity_monitor.Core.Daemon.Quiet.{Frame, quiet_rules}
use sim_connectivity_monitor.Prelude.{
  ℕ, ◌≡◌, refl, ◌∙◌, ap, ◌⊎◌, inl, inr, Bool, true, false, Option, none, some, is_some,
  if◌then◌else◌,
}
use sim_connectivity_monitor.Core.Supervisor.{
  RecoveryAction, reconnect, modem_disable_enable, at_reset, usb_power_cycle,
}
use sim_connectivity_monitor.Core.States.{
  State, no_modem, modem_found, sim_ready, configuring, connecting, connected, degraded,
  fallback_test, state_eq,
}
use sim_connectivity_monitor.Core.Exec.{Exec, ◌>>=◌}
use sim_connectivity_monitor.Core.Daemon.Env.{Env}
use sim_connectivity_monitor.Core.Daemon.Machine
use sim_connectivity_monitor.Core.Daemon.Machine.{Machine, call, emit, update, the_driver, enter}
use sim_connectivity_monitor.Core.Daemon.Reset
use sim_connectivity_monitor.Core.Daemon.Recovery

-- The daemon looks for a modem.
unfoldable pub Idle : {W : Type 0} → Machine W → Type 0
Idle d = d.state ≡ no_modem

-- It does, or it holds a driver.
unfoldable pub Held : {W : Type 0} → Machine W → Type 0
unfolding Idle Live
Held d = Idle d ⊎ Live d

state_eq-no_modem : (s : State) → state_eq no_modem s ≡ true → s ≡ no_modem
state_eq-no_modem no_modem h = refl
state_eq-no_modem modem_found h = cc
state_eq-no_modem sim_ready h = cc
state_eq-no_modem configuring h = cc
state_eq-no_modem connecting h = cc
state_eq-no_modem connected h = cc
state_eq-no_modem degraded h = cc
state_eq-no_modem fallback_test h = cc

module _ {W : Type 0} where
  instance pub Frame-Idle : Frame (Idle {W = W})
  unfolding Idle
  Frame-Idle = record { same = λ d e s v a u h. s ∙ h }

  instance pub Frame-Held : Frame (Held {W = W})
  unfolding Held Idle Live
  Frame-Held = record {
    same = λ d e s v a u h. elim h [ inl i ↦ inl (s ∙ i) | inr l ↦ inr (ap is_some v ∙ l) ];
  }

  pub held-idle : (d : Machine W) → Idle d → Held d
  unfolding Held
  held-idle d h = inl h

  pub held-live : (d : Machine W) → Live d → Held d
  unfolding Held
  held-live d h = inr h

  -- Ways to end from a state where a driver is held.
  abbrev pub Ends : {A : Type 0} → Exec (Machine W) A → Type 0
  Ends m = Leads Live (λ _. Held) Held m

  abbrev pub Mends : Exec (Machine W) Unit → Type 0
  Mends m = Leads Live (λ _. Held) Live m

  -- Code that tells whether the driver is still held.
  abbrev pub Tells : Exec (Machine W) Bool → Type 0
  Tells m = Leads Live (λ b d. if b then Live d else Held d) Held m

  pub Ends-Keeps : {A : Type 0} (m : Exec (Machine W) A) → Keeps Live m → Ends m
  Ends-Keeps m k = Leads-Keeps m k (λ a. held-live) held-live

  Mends-Keeps : (m : Exec (Machine W) Unit) → Keeps Live m → Mends m
  Mends-Keeps m k = Leads-Keeps m k (λ a. held-live) (λ d h. h)

  -- Code that keeps the driver, and then code that may let go of it.
  pub Ends-after :
      {A B : Type 0} (m : Exec (Machine W) A) (f : A → Exec (Machine W) B)
      → Keeps Live m
      → ((a : A) → Ends (f a))
      → Ends (m >>= f)
  Ends-after m f k l = Leads-bind m f (Leads-Keeps m k (λ a d h. h) held-live) l

  Mends-after :
      {A : Type 0} (m : Exec (Machine W) A) (f : A → Exec (Machine W) Unit)
      → Keeps Live m
      → ((a : A) → Mends (f a))
      → Mends (m >>= f)
  Mends-after m f k l = Leads-bind m f (Leads-Keeps m k (λ a d h. h) (λ d h. h)) l

  if-idle :
      (b : Bool) (d e : Machine W)
      → state_eq no_modem d.state ≡ b
      → e.state ≡ no_modem
      → (if b then d else e).state ≡ no_modem
  if-idle true d e h k = state_eq-no_modem d.state h
  if-idle false d e h k = k

  -- Whatever the state was, the log and the snapshot.
  Leads-enter : (P bad : Machine W → Type 0) → Leads P (λ _. Idle) bad (enter {W = W} no_modem)
  unfolding enter Idle
  Leads-enter P bad = Leads-modify _ (λ d _. if-idle (state_eq no_modem d.state) d _ refl refl)

module _ {W : Type 0} (env : Env W) where
  Leads-record_connectivity :
      (bad : Machine W → Type 0) (b : Bool)
      → Leads Idle (λ _. Held) bad (Machine.record_connectivity env b)
  unfolding Machine.record_connectivity Idle
  Leads-record_connectivity bad b =
      Leads-bind _ _ (Leads-gets {good = λ _. Idle} (λ d. d.conn_up) (λ d h. h)) (λ last.
        Leads-when _ _
          (Leads-bind _ _ (Leads-modify {good = λ _. Idle} _ (λ d h. h)) (λ _.
            Leads-bind _ _ (Leads-attempt_all {P = Idle} _ (search quiet_rules depth 60))
              (λ _. Leads-done held-idle)))
          held-idle)

  Leads-go :
      (P bad : Machine W → Type 0) (f : Snapshot → Snapshot)
      → Leads P (λ _. Held) bad (Machine.go env no_modem f)
  unfolding Machine.go update Idle
  Leads-go P bad f = Leads-bind _ _ (Leads-enter P bad) (λ _.
      Leads-bind _ _ (Leads-modify {P = Idle} {good = λ _. Idle} _ (λ d h. h))
        (λ _. Leads-record_connectivity bad false))

  -- `_drop_modem` cannot raise, and leaves the daemon looking for a modem.
  pub Leads-drop_modem :
      (P bad : Machine W → Type 0) → Leads P (λ _. Held) bad (Reset.drop_modem env)
  unfolding Reset.drop_modem
  Leads-drop_modem P bad =
      Leads-bind _ _ (Leads-modify {good = λ _ _. Unit} _ (λ _ _. tt))
        (λ _. Leads-go (λ _. Unit) bad _)

  Live-reset_at : (o : Option ℕ) → Keeps Live (Recovery.reset_at env o)
  Live-reset_at none = search live_rules depth 60
  Live-reset_at (some n) = search live_rules depth 60

  pub Mends-recover : (a : RecoveryAction) → Mends (Recovery.recover env a)
  unfolding Recovery.recover
  Mends-recover reconnect = Mends-Keeps _ (search (live_rules, Live-go) depth 60)
  Mends-recover modem_disable_enable = Mends-Keeps _ (search (live_rules, Live-go) depth 60)
  Mends-recover at_reset =
      Mends-after _ _ (search live_rules depth 60)
        (λ driver. Mends-after _ _ (Live-reset_at driver) (λ _. Leads-drop_modem Live Live))
  Mends-recover usb_power_cycle =
      Mends-after _ _ (search live_rules depth 60) (λ _. Leads-drop_modem Live Live)

-- ===== src/Core/Daemon/Letting.antt =====
-- src/sim_monitor/core/daemon.py: the handlers and commands that may let go of the modem driver.
use sim_connectivity_monitor.Core.Daemon.Held.{
  Frame-Held, Frame-Idle, Held, held-live, Ends, Tells, Ends-Keeps, Ends-after, Leads-drop_modem,
  Mends-recover,
}
use sim_connectivity_monitor.Core.Exec.Keeps.{
  Keeps, Keeps-done, Keeps-gets, Keeps-attempt_modem, Keeps-attempt_backend,
}
use sim_connectivity_monitor.Core.Exec.Leads.{
  Leads, Leads-Keeps, Leads-pure, Leads-bind, Leads-gets, Leads-done, Leads-if, Leads-tried,
  ByTried, Leads-attempt_either,
}
use sim_connectivity_monitor.Core.Daemon.Live.{
  Frame-Live, Live, Live-modify, live_rules, Live-fail, Live-identified,
  Live-advance_variant_or_fail, Live-link_up, Live-keep_waiting, Live-use_default,
}
use sim_connectivity_monitor.Core.Daemon.Quiet.{
  Quiet-call, Quiet-emit, Quiet-the_driver, Quiet-safe_disconnect, Quiet-reset_driver,
}
use sim_connectivity_monitor.Prelude.{
  ℕ, refl, Bool, true, false, not, ◌&&◌, Option, none, some, Text, if◌then◌else◌, ltb,
}
use sim_connectivity_monitor.Core.Supervisor.{PlannedRecovery}
use sim_connectivity_monitor.Core.Exec.{
  Exec, Tried, got, caught, on_tried, pure, modify, when, ◌>>◌, done,
}
use sim_connectivity_monitor.Core.Daemon.Env.{Env, ConnectionState}
use sim_connectivity_monitor.Core.Daemon.Machine
use sim_connectivity_monitor.Core.Daemon.Machine.{Machine, call, emit, update, the_driver}
use sim_connectivity_monitor.Core.Daemon.Reset
use sim_connectivity_monitor.Core.Daemon.Attach
use sim_connectivity_monitor.Core.Daemon.Connect
use sim_connectivity_monitor.Core.Daemon.Recovery

module _ {W : Type 0} (env : Env W) where
  pub Ends-full_reset_modem : Ends (Reset.full_reset_modem env)
  unfolding Reset.full_reset_modem
  Ends-full_reset_modem = Ends-after _ _ (Keeps-gets (λ d. d.driver)) (λ driver.
      Ends-after _ _ (Quiet-reset_driver env driver)
        (λ _. Ends-after _ _ (Quiet-safe_disconnect env) (λ _. Leads-drop_modem env Live Held)))

  pub Ends-state_modem_found : Ends (Attach.state_modem_found env)
  unfolding Attach.state_modem_found
  Ends-state_modem_found = Ends-after the_driver _ Quiet-the_driver (λ driver.
      Ends-after _ _ (Keeps-attempt_modem _ (search live_rules depth 60)) (λ r.
        Leads-tried r _ _ (λ found. Ends-Keeps _ (Live-identified env driver found))
          (λ _. Ends-after _ _ (Quiet-emit _ _) (λ _. Leads-drop_modem env Live Held))))

  Tells-true : (m : Exec (Machine W) Unit) → Keeps Live m → Tells (m >> pure true)
  Tells-true m k =
      Leads-bind m _ (Leads-Keeps m k (λ _ _ h. h) held-live) (λ _. Leads-pure true (λ _ h. h))

  Tells-native_link : Tells (Connect.native_link env)
  Tells-native_link =
      Tells-true (modify (λ d. record d { ppp_reset_attempts = 0 })) (search live_rules depth 60)

  Tells-accept_ppp : (n : ℕ) → Tells (Connect.accept_ppp env n)
  Tells-accept_ppp n =
      Tells-true (when _ (emit Machine.warning "connection")) (search live_rules depth 60)

  Tells-escape_ppp : Tells (Connect.escape_ppp env)
  Tells-escape_ppp =
      Leads-bind (modify _) _
        (Leads-Keeps {good = λ _. Live} _ (Live-modify _ (λ _. refl)) (λ _ _ h. h) held-live)
        (λ _.
          Leads-bind (emit _ _) _
            (Leads-Keeps {good = λ _. Live} _ (Quiet-emit _ _) (λ _ _ h. h) held-live)
            (λ _.
              Leads-bind (Reset.full_reset_modem env) _ Ends-full_reset_modem
                (λ _. Leads-pure false (λ _ h. h))))

  Tells-handle_ppp_link : (o : Option Text) → Tells (Connect.handle_ppp_link env o)
  unfolding Connect.handle_ppp_link
  Tells-handle_ppp_link o =
      Leads-bind _ _ (Leads-gets {good = λ _. Live} (λ d. d.ppp_reset_attempts) (λ _ h. h))
        (λ attempts.
          Leads-bind _ _ (Leads-gets {good = λ _. Live} (λ d. d.config) (λ _ h. h)) (λ config.
            Leads-if (not (Machine.is_ppp_interface o)) _ _ Tells-native_link (
              Leads-if (config.reset_on_ppp_interface && ltb attempts config.ppp_reset_max_attempts)
                _ _ Tells-escape_ppp (Tells-accept_ppp attempts))))

  Leads-proceed :
      (conn : ConnectionState) (usable : Bool)
      → Leads
          (λ d. if usable then Live d else Held d)
          (λ _. Held)
          Held
          (Connect.proceed env conn usable)
  Leads-proceed conn true = Ends-Keeps _ (Live-link_up env conn)
  Leads-proceed conn false = Leads-done (λ _ h. h)

  Ends-follow : (conn : ConnectionState) → Ends (Connect.follow env conn)
  Ends-follow conn =
      Leads-if _ _ _ (Leads-bind _ _ (Tells-handle_ppp_link conn.interface) (Leads-proceed conn))
        (Ends-Keeps _ (Live-keep_waiting env conn))

  Ends-kick : Ends (Connect.kick env)
  Ends-kick = Ends-after _ _ (Keeps-attempt_backend _ (Quiet-call _)) (λ r.
      Leads-tried r _ _ (λ _. Ends-after _ _ (Quiet-call _) Ends-follow)
        (λ e. Ends-Keeps _ (Live-advance_variant_or_fail env _)))

  pub Ends-state_connecting : Ends (Connect.state_connecting env)
  unfolding Connect.state_connecting
  Ends-state_connecting =
      Ends-after _ _ (Quiet-call _) (λ conn. Leads-if _ _ _ Ends-kick (Ends-follow conn))

  Ends-mended :
      (r : Tried Unit) (reason : Text → Text)
      → Leads
          (ByTried (λ _. Held) Live r)
          (λ _. Held)
          Held
          (on_tried r (λ _. done) (λ e. Machine.fail env (reason e)))
  unfolding ByTried on_tried
  Ends-mended (got _) reason = Leads-done (λ _ h. h)
  Ends-mended (caught e) reason = Ends-Keeps _ (Live-fail env (reason e))

  Ends-execute : (o : Option PlannedRecovery) → Ends (Recovery.execute env o)
  Ends-execute none = Ends-Keeps _ Keeps-done
  Ends-execute (some planned) = Ends-after _ _ (search live_rules depth 60) (λ _.
      Ends-after _ _ (Quiet-emit _ _) (λ _.
        Leads-bind _ _ (Leads-attempt_either _ (Mends-recover env planned.action) held-live)
          (λ r. Ends-mended r _)))

  pub Ends-state_degraded : Ends (Recovery.state_degraded env)
  unfolding Recovery.state_degraded Recovery.climb
  Ends-state_degraded = Ends-after _ _ (Keeps-gets (Recovery.wants_default env)) (λ switch.
      Leads-if _ _ _ (Ends-Keeps _ (Live-use_default env)) (
        Ends-after _ _ (Quiet-call _)
          (λ now. Ends-after _ _ (search live_rules depth 60) Ends-execute)))

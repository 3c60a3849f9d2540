-- ===== src/Core/Daemon/Holding.antt =====
-- src/sim_monitor/core/daemon.py: whatever the commands and whatever happens outside, the daemon
-- either looks for a modem or holds the driver of one.
use sim_connectivity_monitor.Core.Daemon.Obeying.{
  of-Held, Ends-held, holds-driver, Held-Leads, Held-handle_command,
}
use sim_connectivity_monitor.Core.Daemon.Letting.{
  Ends-state_modem_found, Ends-state_connecting, Ends-state_degraded,
}
use sim_connectivity_monitor.Core.Daemon.Held.{Frame-Held, Frame-Idle, Idle, Held, Ends, Ends-Keeps}
use sim_connectivity_monitor.Core.Exec.Keeps.{Keeps, Keeps-done, Keeps-bind, Keeps-for_each}
use sim_connectivity_monitor.Core.Exec.Leads.{
  Leads, Leads-Keeps, Leads-modify, Leads-bind, Leads-gets,
}
use sim_connectivity_monitor.Core.Daemon.Live.{
  Frame-Live, Live, live_rules, Live-go, Live-state_sim_ready, Live-state_configuring,
  Live-state_connected, Live-state_fallback_test,
}
use sim_connectivity_monitor.Core.Daemon.QuietSms.{Quiet-poll_urcs, Quiet-maybe_fetch_sms}
use sim_connectivity_monitor.Core.Daemon.Quiet.{
  quiet_rules, Quiet-scan_serial_ports, Quiet-enable_reporting,
}
use sim_connectivity_monitor.Prelude.{
  ℕ, ◌≡◌, refl, sym, ◌∙◌, ◌≢◌, inl, inr, true, Option, none, some, List, is_some,
}
use mathlib.Core.Path.{subst}
use sim_connectivity_monitor.Core.Reply.{RegexSearch}
use sim_connectivity_monitor.Core.Commands.{Command}
use sim_connectivity_monitor.Core.States.{
  State, no_modem, modem_found, sim_ready, configuring, connecting, connected, degraded,
  fallback_test,
}
use sim_connectivity_monitor.Core.Exec.{Exec, modify, gets, ◌>>=◌, ◌>>◌}
use sim_connectivity_monitor.Core.Daemon.Env.{Env}
use sim_connectivity_monitor.Core.Daemon.Machine.{Machine}
use sim_connectivity_monitor.Core.Daemon.Attach
use sim_connectivity_monitor.Core.Daemon.Tick

module _ {W : Type 0} (env : Env W) (search_regex : RegexSearch) where
  -- A modem that is found: its driver is held from then on.
  Held-attach : (o : Option ℕ) → Keeps Held (Attach.attach env o)
  Held-attach none = Keeps-done
  Held-attach (some n) = Held-Leads _ (
      Leads-bind (modify (λ d. record d { driver = some n })) _
        (Leads-modify {good = λ _. Live} _ (holds-driver n))
        (λ _. Ends-Keeps _ (search (live_rules, Live-go, Quiet-enable_reporting) depth 60)))

  Held-state_no_modem : Keeps Held (Attach.state_no_modem env)
  unfolding Attach.state_no_modem
  Held-state_no_modem = search (quiet_rules, Quiet-scan_serial_ports, Held-attach) depth 60

  Ends-handler : (s : State) → Ends (Tick.handler env search_regex s)
  unfolding Tick.handler
  Ends-handler no_modem = Ends-held _ Held-state_no_modem
  Ends-handler modem_found = Ends-state_modem_found env
  Ends-handler sim_ready = Ends-Keeps _ (Live-state_sim_ready env)
  Ends-handler configuring = Ends-Keeps _ (Live-state_configuring env)
  Ends-handler connecting = Ends-state_connecting env
  Ends-handler connected = Ends-Keeps _ (Live-state_connected env)
  Ends-handler degraded = Ends-state_degraded env
  Ends-handler fallback_test = Ends-Keeps _ (Live-state_fallback_test env)

  -- Without a driver, the handler that runs is the one that looks for a modem.
  handler-no_modem : (s : State) → s ≡ no_modem → Keeps Held (Tick.handler env search_regex s)
  unfolding Tick.handler
  handler-no_modem s h =
      subst (λ t. Keeps Held (Tick.handler env search_regex t)) (sym h) Held-state_no_modem

  Held-handler :
      (s : State)
      → Leads (λ d. Held d × (d.state ≡ s)) (λ _. Held) Held (Tick.handler env search_regex s)
  unfolding Held Idle
  Held-handler s = record {
    at = λ d h. elim (h.0) [
      | inl i ↦ of-Held _ _ ((handler-no_modem s (sym (h.1) ∙ i)).at d (h.0))
      | inr v ↦ (Ends-handler s).at d v
    ];
  }

  Held-run_handler :
      (n : Exec (Machine W) Unit)
      → Keeps Held n
      → Keeps Held (gets (λ d. d.state) >>= λ s. Tick.handler env search_regex s >> n)
  Held-run_handler n k = Held-Leads _ (
      Leads-bind _ _
        (Leads-gets {good = λ s d. Held d × (d.state ≡ s)} (λ d. d.state) (λ d h. (h, refl)))
        (λ s. Leads-bind _ _ (Held-handler s) (λ _. Leads-Keeps n k (λ _ _ h. h) (λ _ h. h))))

  Held-tick_body : (cs : List Command) → Keeps Held (Tick.tick_body env search_regex cs)
  unfolding Tick.tick_body
  Held-tick_body cs = Keeps-bind _ _ (Quiet-poll_urcs env search_regex) (λ _.
      Keeps-bind _ _ (Keeps-for_each cs _ (Held-handle_command env search_regex))
        (λ _. Held-run_handler _ (Quiet-maybe_fetch_sms env search_regex)))

  Held-tick : (cs : List Command) → Keeps Held (Tick.tick env search_regex cs)
  unfolding Tick.tick
  Held-tick cs = search (quiet_rules, Held-tick_body) depth 60

-- Whatever commands came in, whatever the modem, NetworkManager, the database and the clock
-- answered, and wherever an exception was raised: if the daemon looked for a modem or held the
-- driver of one before a tick, then so it does after the tick.
pub tick-Held :
    {W : Type 0} (env : Env W) (search_regex : RegexSearch) (commands : List Command)
    (d : Machine W)
    → Held d
    → Held (Tick.tick env search_regex commands d).1
tick-Held env search_regex commands d h = (Held-tick env search_regex commands).at d h

-- Ticks of the loop, each with the commands that were in the queue.
pub data Ticks {W : Type 0} (env : Env W) (search_regex : RegexSearch)
    : Machine W → Machine W → Type 0 where
  no_tick : {d : Machine W} → Ticks env search_regex d d
  one_tick :
      {d e : Machine W} (commands : List Command)
      → Ticks env search_regex d e
      → Ticks env search_regex d (Tick.tick env search_regex commands e).1

Ticks-Held :
    {W : Type 0} {env : Env W} {search_regex : RegexSearch} {d e : Machine W}
    → Ticks env search_regex d e
    → Held d
    → Held e
Ticks-Held no_tick h = h
Ticks-Held (one_tick commands t) h = tick-Held _ _ commands _ (Ticks-Held t h)

-- A daemon that started without a modem, after any number of ticks with any commands: outside of
-- the state NO_MODEM it holds a driver, so `assert self.driver is not None` never fails there.
pub Ticks-driver :
    {W : Type 0} {env : Env W} {search_regex : RegexSearch} {d e : Machine W}
    → Ticks env search_regex d e
    → d.state ≡ no_modem
    → e.state ≢ no_modem
    → is_some e.driver ≡ true
unfolding Held Idle Live
Ticks-driver t h k = elim (Ticks-Held t (inl h)) [ inl i ↦ elim (k i) [ ] | inr v ↦ v ]

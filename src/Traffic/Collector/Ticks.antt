-- ===== src/Traffic/Collector/Ticks.antt =====
-- The live view of the traffic audit: while the collector runs, the rows that are flagged active are
-- the flows that it tracks, after every tick.
use mathlib.Core.Path.{subst}
use sim_connectivity_monitor.Prelude.{
  ℕ, ◌≤◌, ◌≡◌, refl, sym, Bool, true, false, Option, none, some, List, Text, is_some, length,
  if◌then◌else◌,
}
use sim_connectivity_monitor.Core.Exec.{Tried, Exec, modify, when, gets, attempt_backend}
use sim_connectivity_monitor.Core.Exec.Keeps.{Keeps, Keeps-attempt_backend}
use sim_connectivity_monitor.Core.Exec.Leads.{
  Result, Result-both, Leads, Leads-Keeps, Leads-bind, Leads-modify, Leads-gets, Leads-when,
  Leads-tried, Leads-weaken, Leads-if, Leads-done,
}
use sim_connectivity_monitor.Traffic.Ledger.{Ledger, forget_stale}
use sim_connectivity_monitor.Traffic.Ledger.Agrees.{forget_stale-Agrees}
use sim_connectivity_monitor.Traffic.Collector.Truthful.{
  Says, IsTruthful, Agreed, Fresh, Says-modify, Says-ask, Says-report_start, Says-report_failure,
  Says-start_source, Agreed-stop_and_tell, Agreed-collect, Agreed-IsTruthful,
}
use sim_connectivity_monitor.Traffic.State.{
  TrafficConfig, AuditEnv, Collector, ask, on_ledger, stale_limit,
}
use sim_connectivity_monitor.Traffic.Collector.{
  after_try, try_start, ask_running, start_and_collect, stop_and_tell, tick_with, read_addresses,
  refresh_local, keep_addresses, report_failure, report_start, start_failed, start_done,
  start_source, maybe_start, collect, is_running, tick_enabled, tick_disabled, traffic_tick,
}

-- The bookkeeping before a tick: the query for stale rows reaches all rows.
abbrev pub IsReady : Bool → Ledger → Type 0
IsReady started l = IsTruthful started l × (length l.flows.rows ≤ stale_limit)

module _ {W : Type 0} (env : AuditEnv W) where
  Fresh-ledger : (c d : Collector W) → d.ledger ≡ c.ledger → Says Fresh c → Says Fresh d
  unfolding Says
  Fresh-ledger c d e h = subst (λ l. Fresh true l) (sym e) h

  stopped : (c : Collector W) → Says Fresh c → Says IsTruthful (record c { started = false })
  unfolding Says
  stopped c h = (h.0, λ e. cc)

  abbrev Ends : {A : Type 0} → (Collector W → Type 0) → Exec (Collector W) A → Type 0
  Ends P m = Leads P (λ _. Says IsTruthful) (Says IsTruthful) m

  Ends-Keeps :
      {A : Type 0} (m : Exec (Collector W) A) → Keeps (Says IsTruthful) m → Ends (Says IsTruthful) m
  Ends-Keeps m k = Leads-Keeps m k (λ _ _ h. h) (λ _ h. h)

  Ends-Agreed :
      {A : Type 0} (m : Exec (Collector W) A) → Keeps (Says Agreed) m → Ends (Says Agreed) m
  Ends-Agreed m k = Leads-Keeps m k (λ _. Agreed-IsTruthful) Agreed-IsTruthful

  Leads-forget :
      {bad : Collector W → Type 0}
      → Leads (Says Fresh) (λ _. Says Agreed) bad (on_ledger (forget_stale stale_limit))
  unfolding on_ledger Says
  Leads-forget = Leads-modify _ (λ c h. forget_stale-Agrees stale_limit c.ledger h.0 h.1)

  Fresh-keep_addresses :
      (ifmap : List (Text × Text))
      → Leads (Says Fresh) (λ _. Says Fresh) (Says IsTruthful) (keep_addresses env ifmap)
  unfolding keep_addresses
  Fresh-keep_addresses ifmap =
      Leads-when _ _
        (Leads-modify (λ c. record c { ifmap = ifmap })
          (λ c. Fresh-ledger c (record c { ifmap = ifmap }) refl))
        (λ c h. h)

  -- The addresses are always read.
  Fresh-read : Leads (Says Fresh) (λ _. Says Fresh) (Says IsTruthful) (ask (read_addresses env))
  unfolding ask Says Result read_addresses
  Fresh-read = record { at = λ c h. h }

  Fresh-refresh_local : Leads (Says Fresh) (λ _. Says Fresh) (Says IsTruthful) (refresh_local env)
  unfolding refresh_local
  Fresh-refresh_local =
      Leads-bind (ask (read_addresses env)) (keep_addresses env) Fresh-read
        (λ ifmap. Fresh-keep_addresses ifmap)

  Ends-start_done : (restarting : Bool) → Ends (Says Fresh) (start_done env restarting)
  unfolding start_done
  Ends-start_done restarting =
      Leads-bind _ _ (Leads-modify {good = λ _. Says Fresh} _ (λ c. Fresh-ledger c _ refl)) (λ _.
        Leads-bind _ _ Fresh-refresh_local (λ _. Leads-bind _ _ Leads-forget (λ _.
          Ends-Agreed (report_start env restarting) (Says-report_start Agreed env restarting))))

  Ends-start_failed : (e : Text) → Ends (Says Fresh) (start_failed env e)
  unfolding start_failed
  Ends-start_failed e =
      Leads-bind _ _ (Leads-modify {good = λ _. Says IsTruthful} _ stopped)
        (λ _. Ends-Keeps (report_failure env e) (Says-report_failure IsTruthful env e))

  Ready-Fresh : (c : Collector W) → Says IsReady c → Says Fresh c
  unfolding Says
  Ready-Fresh c h = (h.0.0, h.1)

  Ready-IsTruthful : (c : Collector W) → Says IsReady c → Says IsTruthful c
  unfolding Says
  Ready-IsTruthful c h = h.0

  Ready-Keeps :
      {A : Type 0} (m : Exec (Collector W) A)
      → Keeps (Says IsReady) m
      → Leads (Says IsReady) (λ _. Says IsReady) (Says IsTruthful) m
  Ready-Keeps m k = Leads-Keeps m k (λ _ _ h. h) Ready-IsTruthful

  Ends-after_try :
      (restarting : Bool) (tried : Tried Unit)
      → Ends (Says IsReady) (after_try env restarting tried)
  unfolding after_try
  Ends-after_try restarting tried =
      Leads-tried tried (λ _. start_done env restarting) (start_failed env)
        (λ _. Leads-weaken Ready-Fresh (Ends-start_done restarting))
        (λ e. Leads-weaken Ready-Fresh (Ends-start_failed e))

  Ends-try_start :
      (restarting : Bool) (now : ℕ) → Ends (Says IsReady) (try_start env restarting now)
  unfolding try_start
  Ends-try_start restarting now =
      Leads-bind _ _ (Ready-Keeps (modify _) (Says-modify IsReady _ (λ _. refl) (λ _. refl))) (λ _.
        Leads-bind (attempt_backend (start_source env)) (after_try env restarting)
          (Ready-Keeps _ (Keeps-attempt_backend _ (Says-start_source IsReady env)))
          (Ends-after_try restarting))

  Ends-maybe_start : Ends (Says IsReady) (maybe_start env)
  unfolding maybe_start
  Ends-maybe_start =
      Leads-bind _ _ (Ready-Keeps (ask env.monotonic) (Says-ask IsReady env.monotonic)) (λ now.
        Leads-bind _ _
          (Leads-gets {good = λ _. Says IsReady} (λ c. c.last_start_attempt) (λ c h. h))
          (λ last.
            Leads-when _ (try_start env (is_some last) now) (Ends-try_start (is_some last) now)
              Ready-IsTruthful))

  started_of : (c : Collector W) → c.started ≡ true → c.started ≡ true
  started_of c e = e

  -- A source that runs has started.
  abbrev Runs : (Bool → Ledger → Type 0) → Bool → Collector W → Type 0
  Runs Q running c = Says Q c × (running ≡ true → c.started ≡ true)

  module _ (Q : Bool → Ledger → Type 0)
      (weak : (c : Collector W) → Says Q c → Says IsTruthful c) where
    Runs-ask_running :
        (started : Bool)
        → Leads (Runs Q started) (Runs Q) (Says IsTruthful) (ask_running env started)
    unfolding ask_running Says ask
    Runs-ask_running true =
        Leads-Keeps (ask env.running) (record { at = λ c h. h }) (λ _ c h. (h.0, λ _. h.1 refl))
          (λ c h. weak c h.0)
    Runs-ask_running false = Leads-gets _ (λ c h. (h.0, λ e. cc))

    Runs-is_running : Leads (Says Q) (Runs Q) (Says IsTruthful) (is_running env)
    unfolding is_running
    Runs-is_running =
        Leads-bind (gets (λ c. c.started)) (ask_running env)
          (Leads-gets _ (λ c h. (h, started_of c))) Runs-ask_running

  Runs-Agreed : (c : Collector W) → Runs IsTruthful true c → Says Agreed c
  unfolding Says
  Runs-Agreed c h = h.0.1 (h.1 refl)

  Ready-Agreed : (c : Collector W) → Runs IsReady true c → Says Agreed c
  unfolding Says
  Ready-Agreed c h = h.0.0.1 (h.1 refl)

  Ends-collect : (config : TrafficConfig) → Ends (Says Agreed) (collect env config)
  Ends-collect config = Ends-Agreed _ (Agreed-collect env config)

  Ends-when :
      (running : Bool) (config : TrafficConfig)
      → Ends (Runs IsTruthful running) (when running (collect env config))
  unfolding when
  Ends-when true config = Leads-weaken Runs-Agreed (Ends-collect config)
  Ends-when false config = Leads-done (λ c h. h.0)

  Ends-start_and_collect :
      (config : TrafficConfig) → Ends (Says IsReady) (start_and_collect env config)
  unfolding start_and_collect
  Ends-start_and_collect config = Leads-bind (maybe_start env) _ Ends-maybe_start (λ _.
      Leads-bind (is_running env) (λ running. when running (collect env config))
        (Runs-is_running IsTruthful (λ c h. h)) (λ running. Ends-when running config))

  Ends-tick_on :
      (config : TrafficConfig) (running : Bool)
      → Ends
          (Runs IsReady running)
          (if running then collect env config else start_and_collect env config)
  Ends-tick_on config true = Leads-weaken Ready-Agreed (Ends-collect config)
  Ends-tick_on config false = Leads-weaken (λ c h. h.0) (Ends-start_and_collect config)

  Ends-tick_enabled : (config : TrafficConfig) → Ends (Says IsReady) (tick_enabled env config)
  unfolding tick_enabled
  Ends-tick_enabled config =
      Leads-bind (is_running env) _ (Runs-is_running IsReady Ready-IsTruthful) (Ends-tick_on config)

  Ends-stop : (started : Bool) → Ends (Runs IsReady started) (when started (stop_and_tell env))
  unfolding when
  Ends-stop true = Leads-weaken Ready-Agreed (Ends-Agreed _ (Agreed-stop_and_tell env))
  Ends-stop false = Leads-done (λ c h. Ready-IsTruthful c h.0)

  Ends-tick_disabled : Ends (Says IsReady) (tick_disabled env)
  unfolding tick_disabled
  Ends-tick_disabled =
      Leads-bind (gets (λ c. c.started)) (λ started. when started (stop_and_tell env))
        (Leads-gets {good = Runs IsReady} _ (λ c h. (h, started_of c))) Ends-stop

  Ends-tick_with : (read : Option TrafficConfig) → Ends (Says IsReady) (tick_with env read)
  unfolding tick_with
  Ends-tick_with none = Leads-done Ready-IsTruthful
  Ends-tick_with (some config) =
      Leads-if config.enabled _ _ (Ends-tick_enabled config) Ends-tick_disabled

  Ends-traffic_tick : Ends (Says IsReady) (traffic_tick env)
  unfolding traffic_tick
  Ends-traffic_tick =
      Leads-bind (ask env.get_config) (tick_with env)
        (Ready-Keeps _ (Says-ask IsReady env.get_config)) Ends-tick_with

-- Before a tick, the ids of the rows are in order, and if the source has started, the rows that are
-- flagged active are exactly those tracked in `_active`, one for each kernel id. With at most a
-- million rows stored, so it is after the tick, whatever the source and the clocks answer and
-- wherever they raise.
pub traffic_tick-IsTruthful :
    {W : Type 0} (env : AuditEnv W) (c : Collector W)
    → IsTruthful c.started c.ledger
    → length c.ledger.flows.rows ≤ stale_limit
    → let d = (traffic_tick env c).1 in IsTruthful d.started d.ledger
unfolding Says
traffic_tick-IsTruthful env c h k =
    Result-both (Says IsTruthful) (traffic_tick env c).0 (traffic_tick env c).1
      ((Ends-traffic_tick env).at c (h, k))

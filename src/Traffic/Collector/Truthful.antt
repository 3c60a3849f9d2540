-- ===== src/Traffic/Collector/Truthful.antt =====
-- What the operations of TrafficCollector do to the agreement of the live rows with the flows that it
-- tracks.
use mathlib.Core.Path.{subst}
use sim_connectivity_monitor.Prelude.{
  ℕ, ◌≤◌, ◌≡◌, refl, sym, ap, ◌∙◌, Bool, true, false, Option, none, some, List, [], Text, length,
  if◌then◌else◌,
}
use sim_connectivity_monitor.Core.Exec.{modify}
use sim_connectivity_monitor.Core.Exec.Keeps.{
  Keeps, Keeps-modify, Keeps-done, Keeps-bind, Keeps-when, Keeps-attempt_backend, Keeps-if,
  Keeps-gets, keeps_rules,
}
use sim_connectivity_monitor.Core.Daemon.Machine.{Event}
use sim_connectivity_monitor.Storage.TrafficFlows.Live.{HasIds}
use sim_connectivity_monitor.Storage.TrafficFlows.Pruning.{
  is_live-prune, prune_traffic_flows-HasIds,
}
use sim_connectivity_monitor.Storage.TrafficFlows.{prune_traffic_flows}
use sim_connectivity_monitor.Traffic.Flow.{FlowEvent}
use sim_connectivity_monitor.Traffic.Ledger.{Ledger}
use sim_connectivity_monitor.Traffic.Ledger.Agrees.{
  Agrees, finish_flow-Agrees, flow_row_of-active, checkpoint_all-Agrees, close_tracked-Agrees,
  close_stale-Agrees,
}
use sim_connectivity_monitor.Traffic.State.{
  TrafficConfig, AuditEnv, Collector, AuditOp, ask, log_event, on_ledger, stale_limit,
}
use sim_connectivity_monitor.Traffic.Collector.{
  write_traffic_status, refresh_local, stop_source, report_failure, report_start, start_source,
  record_end, on_destroy, on_flow_event, record_snapshot, do_snapshot, collect, stop_and_tell,
}

-- A condition on whether the source has started, and on the bookkeeping.
unfoldable pub Says : {W : Type 0} → (Bool → Ledger → Type 0) → Collector W → Type 0
Says Q c = Q c.started c.ledger

-- The ids are in order, and once the source has started, the live rows are the tracked ones.
abbrev pub IsTruthful : Bool → Ledger → Type 0
IsTruthful started l = HasIds l.flows × (started ≡ true → Agrees l)

module _ {W : Type 0} (Q : Bool → Ledger → Type 0) where
  pub Says-modify :
      (f : Collector W → Collector W)
      → ((c : Collector W) → (f c).started ≡ c.started)
      → ((c : Collector W) → (f c).ledger ≡ c.ledger)
      → Keeps (Says Q) (modify f)
  unfolding Says
  Says-modify f k l =
      Keeps-modify f
        (λ c h. subst (λ b. Q b (f c).ledger) (sym (k c)) (subst (Q c.started) (sym (l c)) h))

  pub Says-ask : {A : Type 0} (op : AuditOp W A) → Keeps (Says Q) (ask op)
  unfolding ask Says
  Says-ask op = record { at = λ c h. h }

  pub Says-log_event : (e : Event) → Keeps (Says Q) (log_event {W = W} e)
  unfolding log_event
  Says-log_event e = Says-modify _ (λ _. refl) (λ _. refl)

pub ruleset says_rules = (keeps_rules, Says-modify, Says-ask, Says-log_event, refl)

module _ {W : Type 0} (Q : Bool → Ledger → Type 0) (env : AuditEnv W) where
  Says-write_traffic_status :
      (running : Bool) (reason : Option Text)
      → Keeps (Says Q) (write_traffic_status env running reason)
  unfolding write_traffic_status
  Says-write_traffic_status running reason = search says_rules depth 60

  pub Says-refresh_local : Keeps (Says Q) (refresh_local env)
  unfolding refresh_local
  Says-refresh_local = search says_rules depth 60

  pub Says-report_start : (restarting : Bool) → Keeps (Says Q) (report_start env restarting)
  unfolding report_start
  Says-report_start restarting = search (says_rules, Says-write_traffic_status) depth 60

  pub Says-report_failure : (e : Text) → Keeps (Says Q) (report_failure env e)
  unfolding report_failure
  Says-report_failure e = search (says_rules, Says-write_traffic_status) depth 60

  pub Says-start_source : Keeps (Says Q) (start_source env)
  unfolding start_source
  Says-start_source = search says_rules depth 60

-- The agreement, whether the source has started or not.
abbrev pub Agreed : Bool → Ledger → Type 0
Agreed started l = Agrees l

-- The bookkeeping can start afresh.
abbrev pub Fresh : Bool → Ledger → Type 0
Fresh started l = HasIds l.flows × (length l.flows.rows ≤ stale_limit)

pub Agreed-IsTruthful : {W : Type 0} (c : Collector W) → Says Agreed c → Says IsTruthful c
unfolding Says
Agreed-IsTruthful c a = (a.ids, λ _. a)

module _ {W : Type 0} where
  Agreed-on_ledger :
      (f : Ledger → Ledger)
      → ((l : Ledger) → Agrees l → Agrees (f l))
      → Keeps (Says Agreed) (on_ledger {W = W} f)
  unfolding on_ledger Says
  Agreed-on_ledger f k = Keeps-modify _ (λ c. k c.ledger)

  Agreed-modify :
      (f : Collector W → Collector W)
      → ((c : Collector W) → Agrees c.ledger → Agrees (f c).ledger)
      → Keeps (Says Agreed) (modify f)
  unfolding Says
  Agreed-modify f k = Keeps-modify f k

prune-Agrees :
    (cutoff max_rows : ℕ) (l : Ledger)
    → Agrees l
    → Agrees (record l { flows = prune_traffic_flows cutoff max_rows l.flows })
prune-Agrees cutoff max_rows l a = record {
  ids = prune_traffic_flows-HasIds cutoff max_rows l.flows a.ids;
  one_to_one = a.one_to_one;
  live = λ i. is_live-prune cutoff max_rows i l.flows a.ids ∙ a.live i;
}

module _ {W : Type 0} (env : AuditEnv W) where
  record_end-Agrees :
      (ev : FlowEvent) (config : TrafficConfig) (ts : ℕ) (c : Collector W)
      → Agrees c.ledger
      → Agrees (record_end env ev config ts c).ledger
  unfolding record_end
  record_end-Agrees ev config ts c a =
      finish_flow-Agrees _ ev.ct_id ts c.ledger
        (flow_row_of-active c.ifmap ev _ ts false config.include_local) a

  record_snapshot-Agrees :
      (config : TrafficConfig) (now : ℕ) (snap : List FlowEvent) (c : Collector W)
      → Agrees c.ledger
      → Agrees (record_snapshot env config now snap c).ledger
  unfolding record_snapshot
  record_snapshot-Agrees config now snap c a =
      close_stale-Agrees _ _
        (checkpoint_all-Agrees c.ifmap config.include_local now snap (c.ledger, []) a)

  pub Agreed-stop_source : Keeps (Says Agreed) (stop_source env)
  unfolding stop_source
  Agreed-stop_source =
      search
        (
          says_rules, Says-write_traffic_status, Agreed-on_ledger, Agreed-modify,
          close_tracked-Agrees,
        )
        depth 60

  Agreed-on_destroy :
      (ev : FlowEvent) (config : TrafficConfig) → Keeps (Says Agreed) (on_destroy env ev config)
  unfolding on_destroy
  Agreed-on_destroy ev config =
      search (says_rules, record_end-Agrees ev config, Agreed-modify) depth 60

  Agreed-on_flow_event :
      (config : TrafficConfig) (ev : FlowEvent) → Keeps (Says Agreed) (on_flow_event env config ev)
  unfolding on_flow_event
  Agreed-on_flow_event config ev = search (says_rules, Agreed-on_destroy) depth 60

  Agreed-do_snapshot : (config : TrafficConfig) → Keeps (Says Agreed) (do_snapshot env config)
  unfolding do_snapshot
  Agreed-do_snapshot config =
      search (says_rules, Says-refresh_local, record_snapshot-Agrees config, Agreed-modify) depth 60

  pub Agreed-collect : (config : TrafficConfig) → Keeps (Says Agreed) (collect env config)
  unfolding collect
  Agreed-collect config =
      search
        (
          says_rules, Agreed-on_flow_event, Agreed-do_snapshot, Says-write_traffic_status,
          Agreed-on_ledger, prune-Agrees,
        )
        depth 60

  pub Agreed-stop_and_tell : Keeps (Says Agreed) (stop_and_tell env)
  unfolding stop_and_tell
  Agreed-stop_and_tell = search (says_rules, Agreed-stop_source) depth 60

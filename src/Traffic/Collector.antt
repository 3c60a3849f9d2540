-- ===== src/Traffic/Collector.antt =====
-- src/sim_monitor/traffic/collector.py: the methods of TrafficCollector. The table of flows is that of
-- Storage/TrafficFlows.
use sim_connectivity_monitor.Prelude.{
  ℕ, ◌+◌, ◌-◌, ◌*◌, Bool, true, false, not, ◌&&◌, ◌||◌, Option, none, some, List, [], ◌∷◌, Text,
  codes, leb, is_empty, is_some, length, if◌then◌else◌,
}
use sim_connectivity_monitor.Core.Exec.{
  Outcome, Exec, Tried, on_tried, on_option, ◌>>=◌, ◌>>◌, done, gets, modify, when, for_each,
  attempt_backend,
}
use sim_connectivity_monitor.Core.Daemon.Machine.{Event, info, error}
use sim_connectivity_monitor.Storage.TrafficFlows.{prune_traffic_flows}
use sim_connectivity_monitor.Traffic.Flow.{FlowKind, destroyed, FlowEvent}
use sim_connectivity_monitor.Traffic.Ledger.{
  Ledger, began, flow_row_of, finish_flow, checkpoint_all, close_stale, close_tracked, forget_stale,
}
use sim_connectivity_monitor.Traffic.State.{
  TrafficConfig, AuditOp, AuditEnv, TrafficStatus, Collector, restart_backoff_s, prune_interval_s,
  stale_limit, is_elapsed, given_ts, is_end, ask, log_event, on_ledger,
}
pub mod Truthful
pub mod Ticks
pub mod Tests

module _ {W : Type 0} (env : AuditEnv W) where
  -- `_write_status`.
  unfoldable pub write_traffic_status : Bool → Option Text → Exec (Collector W) Unit
  unfolding ◌>>=◌ ask
  write_traffic_status running reason = do
    now ← ask env.wall_clock
    modify (λ c. record c {
      status = some (record {
        running = running;
        error = reason;
        warnings = c.warnings;
        flows_recorded = c.flows_recorded;
        active_tracked = length c.ledger.active;
        updated = now;
      });
    })

  unfoldable pub read_addresses : AuditOp W (List (Text × Text))
  read_addresses w = let (ifmap, w') = env.ip_interfaces w in (Outcome.ok ifmap, w')

  unfoldable pub keep_addresses : List (Text × Text) → Exec (Collector W) Unit
  unfolding ◌>>=◌
  keep_addresses ifmap = when (not (is_empty ifmap)) (modify (λ c. record c { ifmap = ifmap }))

  -- `_refresh_local`.
  unfoldable pub refresh_local : Exec (Collector W) Unit
  unfolding ◌>>=◌ ask read_addresses keep_addresses
  refresh_local = do ifmap ← ask read_addresses; keep_addresses ifmap

  -- `_stop_source`.
  unfoldable pub stop_source : Exec (Collector W) Unit
  unfolding ◌>>=◌ ask on_ledger write_traffic_status
  stop_source = do
    ask env.stop
    modify (λ c. record c { started = false; last_start_attempt = none })
    on_ledger close_tracked
    write_traffic_status false none

  unfoldable pub report_failure : Text → Exec (Collector W) Unit
  unfolding ◌>>=◌ write_traffic_status log_event
  report_failure e = do
    write_traffic_status false (some e)
    warned ← gets (λ c. c.warned)
    when (not warned) (do
      modify (λ c. record c { warned = true })
      log_event (record { level = error; kind = "traffic" }))

  -- `_maybe_start` where setup or start raises BackendError.
  unfoldable pub start_failed : Text → Exec (Collector W) Unit
  unfolding ◌>>=◌ report_failure
  start_failed e = do modify (λ c. record c { started = false }); report_failure e

  unfoldable pub report_start : Bool → Exec (Collector W) Unit
  unfolding ◌>>=◌ write_traffic_status log_event
  report_start restarting = do
    write_traffic_status true none
    when (not restarting) (log_event (record { level = info; kind = "traffic" }))

  -- `_maybe_start` after the source has started.
  unfoldable pub start_done : Bool → Exec (Collector W) Unit
  unfolding ◌>>=◌ refresh_local on_ledger report_start
  start_done restarting = do
    modify (λ c. record c { started = true; warned = false })
    refresh_local
    on_ledger (forget_stale stale_limit)
    report_start restarting

  unfoldable pub start_source : Exec (Collector W) Unit
  unfolding ◌>>=◌ ask
  start_source = do
    warnings ← ask env.setup
    modify (λ c. record c { warnings = warnings })
    ask env.start

  unfoldable pub after_try : Bool → Tried Unit → Exec (Collector W) Unit
  unfolding on_tried start_done start_failed
  after_try restarting tried = on_tried tried (λ _. start_done restarting) start_failed

  unfoldable pub try_start : Bool → ℕ → Exec (Collector W) Unit
  unfolding ◌>>=◌ start_source after_try
  try_start restarting now = do
    modify (λ c. record c { last_start_attempt = some now })
    tried ← attempt_backend start_source
    after_try restarting tried

  -- `_maybe_start`.
  unfoldable pub maybe_start : Exec (Collector W) Unit
  unfolding ◌>>=◌ ask is_elapsed try_start
  maybe_start = do
    now ← ask env.monotonic
    last ← gets (λ c. c.last_start_attempt)
    when (is_elapsed last restart_backoff_s now) (try_start (is_some last) now)

  -- `_on_destroy` at the time of the event.
  unfoldable pub record_end : FlowEvent → TrafficConfig → ℕ → Collector W → Collector W
  unfolding finish_flow flow_row_of began
  record_end ev config ts c =
      let (ledger, recorded) =
        finish_flow (flow_row_of c.ifmap ev (began ts ev.delta_time) ts false config.include_local)
          ev.ct_id ts c.ledger in
      record c { ledger = ledger; flows_recorded = c.flows_recorded + recorded }

  -- `_on_destroy`.
  unfoldable pub on_destroy : FlowEvent → TrafficConfig → Exec (Collector W) Unit
  unfolding ◌>>=◌ ask given_ts record_end
  on_destroy ev config = do
    ts ← on_option (given_ts ev.ts) (ask env.wall_clock) (λ t. gets (λ _. t))
    modify (record_end ev config ts)

  -- `if ev.event == "DESTROY": self._on_destroy(ev, config)`.
  unfoldable pub on_flow_event : TrafficConfig → FlowEvent → Exec (Collector W) Unit
  unfolding ◌>>=◌ on_destroy
  on_flow_event config ev = when (is_end ev.event) (on_destroy ev config)

  -- `_do_snapshot` of a table that was read.
  unfoldable pub record_snapshot : TrafficConfig → ℕ → List FlowEvent → Collector W → Collector W
  unfolding checkpoint_all close_stale
  record_snapshot config now snap c =
      let (ledger, seen) = checkpoint_all c.ifmap config.include_local now snap (c.ledger, []) in
      record c { ledger = close_stale seen ledger }

  unfoldable pub do_snapshot : TrafficConfig → Exec (Collector W) Unit
  unfolding ◌>>=◌ ask refresh_local record_snapshot
  do_snapshot config = do
    refresh_local
    read ← ask env.snapshot
    on_option read done
        (λ snap. do now ← ask env.wall_clock; modify (record_snapshot config now snap))

  -- The part of `tick` that follows when the source runs.
  unfoldable pub collect : TrafficConfig → Exec (Collector W) Unit
  unfolding ◌>>=◌ ask is_elapsed on_ledger on_flow_event do_snapshot write_traffic_status
  collect config = do
    drained ← ask env.drain
    for_each drained (on_flow_event config)
    now ← ask env.monotonic
    last_snapshot ← gets (λ c. c.last_snapshot)
    when (is_elapsed last_snapshot config.snapshot_interval_seconds now) (do
      modify (λ c. record c { last_snapshot = some now })
      do_snapshot config
      write_traffic_status true none)
    last_prune ← gets (λ c. c.last_prune)
    when (is_elapsed last_prune prune_interval_s now) (do
      modify (λ c. record c { last_prune = some now })
      wall ← ask env.wall_clock
      on_ledger (λ l. record l {
        flows = prune_traffic_flows (wall - config.retention_days * 86400) config.max_flows l.flows;
      }))

  unfoldable pub ask_running : Bool → Exec (Collector W) Bool
  unfolding ◌>>=◌ ask
  ask_running started = if started then ask env.running else gets (λ _. false)

  -- `self._started and self.source.running`.
  unfoldable pub is_running : Exec (Collector W) Bool
  unfolding ◌>>=◌ ask_running
  is_running = gets (λ c. c.started) >>= ask_running

  -- `tick` of a source that does not run.
  unfoldable pub start_and_collect : TrafficConfig → Exec (Collector W) Unit
  unfolding ◌>>=◌ is_running maybe_start collect
  start_and_collect config = do maybe_start; running ← is_running; when running (collect config)

  unfoldable pub tick_enabled : TrafficConfig → Exec (Collector W) Unit
  unfolding ◌>>=◌ is_running start_and_collect collect
  tick_enabled config = do
    running ← is_running
    if running then collect config else start_and_collect config

  unfoldable pub stop_and_tell : Exec (Collector W) Unit
  unfolding ◌>>=◌ stop_source log_event
  stop_and_tell = do stop_source; log_event (record { level = info; kind = "traffic" })

  unfoldable pub tick_disabled : Exec (Collector W) Unit
  unfolding ◌>>=◌ stop_and_tell
  tick_disabled = gets (λ c. c.started) >>= (λ started. when started stop_and_tell)

  unfoldable pub tick_with : Option TrafficConfig → Exec (Collector W) Unit
  unfolding ◌>>=◌ tick_enabled tick_disabled
  tick_with none = done
  tick_with (some config) = if config.enabled then tick_enabled config else tick_disabled

  -- `tick`.
  unfoldable pub traffic_tick : Exec (Collector W) Unit
  unfolding ◌>>=◌ ask tick_with
  traffic_tick = ask env.get_config >>= tick_with

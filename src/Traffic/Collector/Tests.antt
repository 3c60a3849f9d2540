-- ===== src/Traffic/Collector/Tests.antt =====
-- A run of the collector: a restart finds a stale row, and the snapshot a flow that is open.
use sim_connectivity_monitor.Prelude.{
  ℕ, ◌+◌, ◌≡◌, refl, true, false, none, some, [], ◌∷◌, codes, arith, dict_get, dict_set, insert_by,
  pos,
}
use sim_connectivity_monitor.Core.Exec.{ok, for_each}
use sim_connectivity_monitor.Storage.TrafficFlows.{
  FlowRow, prune_traffic_flows, close_traffic_flows, add_traffic_flow, active_flow_ids,
}
use sim_connectivity_monitor.Traffic.Ledger.{forget_stale}
use sim_connectivity_monitor.Storage.TrafficFlows.Live.{is_live}
use sim_connectivity_monitor.Traffic.Flow.{outbound, FlowEvent}
use sim_connectivity_monitor.Traffic.State.{TrafficConfig, AuditEnv, Collector}
use sim_connectivity_monitor.Traffic.Collector.{traffic_tick}
use sim_connectivity_monitor.Traffic.Collector.Truthful.{IsTruthful}
use sim_connectivity_monitor.Traffic.Collector.Ticks.{traffic_tick-IsTruthful}

abbrev stale_row : FlowRow
stale_row = record {
  first_seen = pos 100;
  last_seen = 160;
  proto = codes "tcp";
  direction = outbound;
  remote_ip = codes "1.1.1.1";
  remote_port = some 443;
  local_ip = codes "10.0.0.5";
  local_port = some 4000;
  interface = none;
  bytes_sent = 1;
  bytes_recv = 2;
  packets_sent = 3;
  packets_recv = 4;
  active = true;
}

abbrev open_flow : FlowEvent
open_flow = record {
  proto = codes "tcp";
  src = codes "10.0.0.5";
  dst = codes "9.9.9.9";
  sport = some 4001;
  dport = some 443;
  orig_packets = 1;
  orig_bytes = 60;
  reply_packets = 1;
  reply_bytes = 40;
  event = none;
  ts = none;
  state = none;
  delta_time = some 5;
  ct_id = some 77;
  icmp_type = none;
}

abbrev config : TrafficConfig
config = record {
  enabled = true;
  snapshot_interval_seconds = 30;
  retention_days = 30;
  max_flows = 1000;
  include_local = false;
}

-- The number is the time.
abbrev calm : AuditEnv ℕ
calm = record {
  get_config = λ w. (ok (some config), w);
  monotonic = λ w. (ok w, w + 1);
  wall_clock = λ w. (ok w, w);
  ip_interfaces = λ w. ((codes "10.0.0.5", codes "wwan0") ∷ [], w);
  running = λ w. (ok true, w);
  setup = λ w. (ok [], w);
  start = λ w. (ok tt, w);
  stop = λ w. (ok tt, w);
  drain = λ w. (ok [], w);
  snapshot = λ w. (ok (some (open_flow ∷ [])), w);
}

abbrev restarted : Collector ℕ
restarted = record {
  ifmap = [];
  ledger = record {
    active = [];
    flows = record { rows = record { id = 3; row = stale_row } ∷ []; last_id = 8 };
  };
  started = false;
  warned = false;
  warnings = [];
  flows_recorded = 0;
  last_snapshot = none;
  last_prune = none;
  last_start_attempt = none;
  status = none;
  events = [];
  world = 1000;
}

tracks_open_flow : (traffic_tick calm restarted).1.ledger.active ≡ (77, 9) ∷ []
unfolding traffic_tick for_each prune_traffic_flows close_traffic_flows dict_get forget_stale
    dict_set add_traffic_flow active_flow_ids insert_by
tracks_open_flow = refl

closes_stale_row : is_live 3 (traffic_tick calm restarted).1.ledger.flows ≡ false
unfolding traffic_tick for_each prune_traffic_flows close_traffic_flows dict_get forget_stale
    dict_set add_traffic_flow active_flow_ids insert_by
closes_stale_row = refl

traffic_tick-IsTruthful_example :
    IsTruthful (traffic_tick calm restarted).1.started (traffic_tick calm restarted).1.ledger
traffic_tick-IsTruthful_example =
    traffic_tick-IsTruthful calm restarted ((omega arith, tt), λ e. cc) (omega arith)

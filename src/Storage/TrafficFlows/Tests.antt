-- ===== src/Storage/TrafficFlows/Tests.antt =====
-- A table of three rows that is pruned to one.
use sim_connectivity_monitor.Prelude.{
  ℕ, ◌≤◌, max, ◌≡◌, refl, Bool, true, false, none, [], ◌∷◌, codes, keep, length, pos, insert_by,
}
use sim_connectivity_monitor.Traffic.Flow.{outbound}
use sim_connectivity_monitor.Storage.TrafficFlows.{
  StoredFlow, FlowTable, ids_of, prune_traffic_flows,
}
use sim_connectivity_monitor.Storage.TrafficFlows.Capping.{prune_traffic_flows-IsCapped}

abbrev flow_at : ℕ → ℕ → Bool → StoredFlow
flow_at id last_seen active = record {
  id = id;
  row = record {
    first_seen = pos 0;
    last_seen = last_seen;
    proto = codes "tcp";
    direction = outbound;
    remote_ip = codes "1.2.3.4";
    remote_port = none;
    local_ip = codes "10.0.0.5";
    local_port = none;
    interface = none;
    bytes_sent = 0;
    bytes_recv = 0;
    packets_sent = 0;
    packets_recv = 0;
    active = active;
  };
}

abbrev three_flows : FlowTable
three_flows = record {
  rows = flow_at 3 90 false ∷ flow_at 2 50 true ∷ flow_at 1 80 false ∷ [];
  last_id = 3;
}

-- The active flow is the oldest, and stays.
pruned : ids_of (prune_traffic_flows 10 2 three_flows).rows ≡ 3 ∷ 2 ∷ []
unfolding prune_traffic_flows insert_by
pruned = refl

prune_traffic_flows-IsCapped_example :
    length (prune_traffic_flows 10 1 three_flows).rows
    ≤ max 1 (length (keep (λ (r : StoredFlow). r.row.active) three_flows.rows))
prune_traffic_flows-IsCapped_example = prune_traffic_flows-IsCapped 10 1 three_flows

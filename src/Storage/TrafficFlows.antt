-- ===== src/Storage/TrafficFlows.antt =====
-- src/sim_monitor/storage/db.py: the table traffic_flows, and the operations of the traffic audit on
-- it. The rows stand newest first; SQLite gives a new row an id above all that were ever given
-- (AUTOINCREMENT). The calls of SQLite do not fail here.
use sim_connectivity_monitor.Prelude.{
  ℕ, suc, ◌-◌, Bool, not, ◌&&◌, ◌||◌, Option, List, [], ◌∷◌, map, Text, ℤ, any, keep, take, length,
  ltb, ◌==◌, if◌then◌else◌, sort_by,
}
use sim_connectivity_monitor.Traffic.Flow.{Direction}
pub mod Live
pub mod Pruning
pub mod Capping
pub mod Tests

-- The dictionary `row` of a flow.
pub record FlowRow : Type 0 where
  pub first_seen : ℤ
  pub last_seen : ℕ
  pub proto : Text
  pub direction : Direction
  pub remote_ip : Text
  pub remote_port : Option ℕ
  pub local_ip : Text
  pub local_port : Option ℕ
  pub interface : Option Text
  pub bytes_sent : ℕ
  pub bytes_recv : ℕ
  pub packets_sent : ℕ
  pub packets_recv : ℕ
  pub active : Bool

pub record StoredFlow : Type 0 where
  pub id : ℕ
  pub row : FlowRow

pub record FlowTable : Type 0 where
  pub rows : List StoredFlow
  pub last_id : ℕ

-- The counters of an update.
pub record Counters : Type 0 where
  pub bytes_sent : ℕ
  pub bytes_recv : ℕ
  pub packets_sent : ℕ
  pub packets_recv : ℕ

-- The id of the new row comes back beside the table.
unfoldable pub add_traffic_flow : FlowRow → FlowTable → FlowTable × ℕ
add_traffic_flow row t = (
  record { rows = record { id = suc t.last_id; row = row } ∷ t.rows; last_id = suc t.last_id },
  suc t.last_id,
)

abbrev pub with_id : ℕ → (FlowRow → FlowRow) → StoredFlow → StoredFlow
with_id row_id change flow = record flow {
  row = if flow.id == row_id then change flow.row else flow.row;
}

-- `UPDATE traffic_flows SET … WHERE id=?`.
unfoldable pub update_where : ℕ → (FlowRow → FlowRow) → FlowTable → FlowTable
update_where row_id change t = record t { rows = map (with_id row_id change) t.rows }

unfoldable pub update_traffic_flow : ℕ → ℕ → Counters → Bool → FlowTable → FlowTable
unfolding update_where
update_traffic_flow row_id last_seen n active = update_where row_id (λ row. record row {
  last_seen = last_seen;
  bytes_sent = n.bytes_sent;
  bytes_recv = n.bytes_recv;
  packets_sent = n.packets_sent;
  packets_recv = n.packets_recv;
  active = active;
})

-- `UPDATE traffic_flows SET active=0 WHERE id=?`.
abbrev pub close_flow : FlowRow → FlowRow
close_flow row = record row { active = Bool.false }

unfoldable pub close_traffic_flows : List ℕ → FlowTable → FlowTable
unfolding update_where
close_traffic_flows [] t = t
close_traffic_flows (i ∷ row_ids) t = close_traffic_flows row_ids (update_where i close_flow t)

abbrev pub is_newer : StoredFlow → StoredFlow → Bool
is_newer a b =
    ltb b.row.last_seen a.row.last_seen || (a.row.last_seen == b.row.last_seen && ltb b.id a.id)

abbrev pub is_older : StoredFlow → StoredFlow → Bool
is_older a b =
    ltb a.row.last_seen b.row.last_seen || (a.row.last_seen == b.row.last_seen && ltb a.id b.id)

abbrev pub ids_of : List StoredFlow → List ℕ
ids_of rows = map (λ (r : StoredFlow). r.id) rows

-- `[r["id"] for r in query_traffic_flows(active=True, limit=…)[0]]`.
unfoldable pub active_flow_ids : ℕ → FlowTable → List ℕ
unfolding sort_by
active_flow_ids limit t = ids_of (take limit (sort_by is_newer (keep (λ r. r.row.active) t.rows)))

-- The `DELETE` by age, and the overflow: the oldest closed flows.
abbrev pub is_expired : ℕ → StoredFlow → Bool
is_expired cutoff r = not r.row.active && ltb r.row.last_seen cutoff

unfoldable pub overflowing : ℕ → List StoredFlow → List ℕ
unfolding sort_by
overflowing max_rows rows =
    ids_of (take (length rows - max_rows) (sort_by is_older (keep (λ r. not r.row.active) rows)))

unfoldable pub prune_traffic_flows : ℕ → ℕ → FlowTable → FlowTable
unfolding overflowing
prune_traffic_flows cutoff max_rows t =
    let rest = keep (λ r. not (is_expired cutoff r)) t.rows in
    record t { rows = keep (λ r. not (any (λ i. i == r.id) (overflowing max_rows rest))) rest }

-- ===== src/Traffic/Ledger.antt =====
-- src/sim_monitor/traffic/collector.py: the bookkeeping of the flows, on the table and on the
-- dictionary `_active` from kernel flow ids to row ids.
use sim_connectivity_monitor.Prelude.{
  ℕ, suc, zero, ◌-◌, Bool, true, false, not, ◌&&◌, Option, none, some, List, [], ◌∷◌, map, Text, ℤ,
  pos, negsuc, ltb, any, keep, ◌==◌, if◌then◌else◌, dict_get, dict_set, dict_remove, dict_keys,
  text_eq,
}
use sim_connectivity_monitor.Storage.TrafficFlows.{
  FlowRow, FlowTable, Counters, add_traffic_flow, update_traffic_flow, close_traffic_flows,
  active_flow_ids,
}
use sim_connectivity_monitor.Traffic.Flow.{FlowEvent, ClassifiedFlow, is_internal, classify}
pub mod Tracked
pub mod Agrees

-- The dictionary `_active`, and the table.
pub record Ledger : Type 0 where
  pub active : List (ℕ × ℕ)
  pub flows : FlowTable

-- `ts - ev.delta_time if ev.delta_time else ts`, which may lie before the epoch.
unfoldable pub began : ℕ → Option ℕ → ℤ
began ts none = pos ts
began ts (some delta) = if ltb ts delta then negsuc (delta - ts - 1) else pos (ts - delta)

-- `self._ifmap.get(ip)`.
unfoldable pub interface_of : Text → List (Text × Text) → Option Text
interface_of ip [] = none
interface_of ip ((address, name) ∷ ifmap) =
    if text_eq address ip then some name else interface_of ip ifmap

abbrev pub flow_row : ClassifiedFlow → FlowEvent → List (Text × Text) → ℤ → ℕ → Bool → FlowRow
flow_row cls ev ifmap first_seen last_seen active = record {
  first_seen = first_seen;
  last_seen = last_seen;
  proto = ev.proto;
  direction = cls.direction;
  remote_ip = cls.remote_ip;
  remote_port = cls.remote_port;
  local_ip = cls.local_ip;
  local_port = cls.local_port;
  interface = interface_of cls.local_ip ifmap;
  bytes_sent = cls.bytes_sent;
  bytes_recv = cls.bytes_recv;
  packets_sent = cls.packets_sent;
  packets_recv = cls.packets_recv;
  active = active;
}

-- `_row`: the keys of the map of interfaces are the local addresses.
unfoldable pub flow_row_of : List (Text × Text) → FlowEvent → ℤ → ℕ → Bool → Bool → Option FlowRow
unfolding interface_of classify
flow_row_of ifmap ev first_seen last_seen active include_local =
    let cls = classify ev (map (λ (e : Text × Text). e.0) ifmap) in
    if is_internal cls.direction && not include_local
    then none
    else some (flow_row cls ev ifmap first_seen last_seen active)

abbrev pub counters : FlowRow → Counters
counters row = record {
  bytes_sent = row.bytes_sent;
  bytes_recv = row.bytes_recv;
  packets_sent = row.packets_sent;
  packets_recv = row.packets_recv;
}

-- `self._active.pop(ev.ct_id, None) if ev.ct_id is not None else None`.
unfoldable pub tracked_row : Option ℕ → Ledger → Option ℕ
tracked_row none l = none
tracked_row (some ct_id) l = dict_get ct_id l.active

unfoldable pub untrack : Option ℕ → Ledger → Ledger
untrack none l = l
untrack (some ct_id) l = record l { active = dict_remove ct_id l.active }

-- `_on_destroy` from the pop on, with the number of flows that it records.
unfoldable pub finish_row : Option FlowRow → Option ℕ → ℕ → Ledger → Ledger × ℕ
finish_row none none ts l = (l, 0)
finish_row none (some row_id) ts l =
    (record l { flows = close_traffic_flows (row_id ∷ []) l.flows }, 0)
finish_row (some row) (some row_id) ts l =
    (record l { flows = update_traffic_flow row_id ts (counters row) false l.flows }, 1)
finish_row (some row) none ts l = (record l { flows = (add_traffic_flow row l.flows).0 }, 1)

unfoldable pub finish_flow : Option FlowRow → Option ℕ → ℕ → Ledger → Ledger × ℕ
unfolding finish_row tracked_row untrack
finish_flow row ct_id ts l = finish_row row (tracked_row ct_id l) ts (untrack ct_id l)

-- What the loop of `_do_snapshot` does for a flow that has a row.
unfoldable pub checkpoint_row : ℕ → FlowRow → Option ℕ → ℕ → Ledger → Ledger
checkpoint_row ct_id row (some row_id) now l = record l {
  flows = update_traffic_flow row_id now (counters row) true l.flows;
}
checkpoint_row ct_id row none now l =
    let (flows, row_id) = add_traffic_flow row l.flows in
    record { active = dict_set ct_id row_id l.active; flows = flows }

unfoldable pub checkpoint : Option ℕ → Option FlowRow → ℕ → Ledger × List ℕ → Ledger × List ℕ
unfolding checkpoint_row
checkpoint none row now s = s
checkpoint (some ct_id) none now s = s
checkpoint (some ct_id) (some row) now (l, seen) =
    (checkpoint_row ct_id row (dict_get ct_id l.active) now l, ct_id ∷ seen)

-- The loop, over the flows with a kernel id.
unfoldable pub checkpoint_all :
    List (Text × Text) → Bool → ℕ → List FlowEvent → Ledger × List ℕ → Ledger × List ℕ
unfolding checkpoint flow_row_of began
checkpoint_all ifmap include_local now [] s = s
checkpoint_all ifmap include_local now (ev ∷ snap) s = checkpoint_all ifmap include_local now snap (
    checkpoint ev.ct_id (flow_row_of ifmap ev (began now ev.delta_time) now true include_local) now
      s)

-- A popped row id, in front of those of the keys that follow.
abbrev pub popped : Option ℕ → List ℕ → List ℕ
popped none row_ids = row_ids
popped (some i) row_ids = i ∷ row_ids

-- `[self._active.pop(k) for k in keys]`, for keys of the dictionary.
unfoldable pub pop_all : List ℕ → List (ℕ × ℕ) → List ℕ × List (ℕ × ℕ)
pop_all [] active = ([], active)
pop_all (k ∷ keys) active =
    let (row_ids, rest) = pop_all keys (dict_remove k active) in
    (popped (dict_get k active) row_ids, rest)

-- `set(self._active) - seen`.
unfoldable pub stale_keys : List ℕ → Ledger → List ℕ
stale_keys seen l = keep (λ k. not (any (λ j. j == k) seen)) (dict_keys l.active)

-- `if stale:` with what it guards; without stale flows there is nothing to close.
unfoldable pub close_stale : List ℕ → Ledger → Ledger
unfolding pop_all stale_keys
close_stale seen l =
    let (row_ids, rest) = pop_all (stale_keys seen l) l.active in
    record { active = rest; flows = close_traffic_flows row_ids l.flows }

-- `close_traffic_flows(list(self._active.values()))` and `self._active.clear()`.
unfoldable pub close_tracked : Ledger → Ledger
close_tracked l = record {
  active = [];
  flows = close_traffic_flows (map (λ (e : ℕ × ℕ). e.1) l.active) l.flows;
}

-- What `_maybe_start` does with the rows and the flows of an earlier run.
unfoldable pub forget_stale : ℕ → Ledger → Ledger
forget_stale limit l = record {
  active = [];
  flows = close_traffic_flows (active_flow_ids limit l.flows) l.flows;
}

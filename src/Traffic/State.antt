-- ===== src/Traffic/State.antt =====
-- src/sim_monitor/traffic/collector.py: the object of TrafficCollector, and what it calls. Times are
-- whole numbers. A call of the source, of a clock or of the configuration returns or raises;
-- `list_ip_interface_map` catches its errors. The name of the backend and the log are left out.
use sim_connectivity_monitor.Prelude.{
  ℕ, ◌+◌, Bool, true, false, Option, none, some, List, ◌∷◌, Text, leb, if◌then◌else◌,
}
use sim_connectivity_monitor.Core.Exec.{Outcome, Exec, modify}
use sim_connectivity_monitor.Core.Daemon.Machine.{Event}
use sim_connectivity_monitor.Traffic.Flow.{FlowKind, destroyed, FlowEvent}
use sim_connectivity_monitor.Traffic.Ledger.{Ledger}

pub record TrafficConfig : Type 0 where
  pub enabled : Bool
  pub snapshot_interval_seconds : ℕ
  pub retention_days : ℕ
  pub max_flows : ℕ
  pub include_local : Bool

abbrev pub AuditOp : Type 0 → Type 0 → Type 0
AuditOp W A = W → Outcome A × W

pub record AuditEnv (W : Type 0) : Type 0 where
  pub get_config : AuditOp W (Option TrafficConfig)
  pub monotonic : AuditOp W ℕ
  pub wall_clock : AuditOp W ℕ
  pub ip_interfaces : W → List (Text × Text) × W
  pub running : AuditOp W Bool
  pub setup : AuditOp W (List Text)
  pub start : AuditOp W Unit
  pub stop : AuditOp W Unit
  pub drain : AuditOp W (List FlowEvent)
  pub snapshot : AuditOp W (Option (List FlowEvent))

-- The setting `traffic_status`.
pub record TrafficStatus : Type 0 where
  pub running : Bool
  pub error : Option Text
  pub warnings : List Text
  pub flows_recorded : ℕ
  pub active_tracked : ℕ
  pub updated : ℕ

pub record Collector (W : Type 0) : Type 0 where
  pub ifmap : List (Text × Text)
  pub ledger : Ledger
  pub started : Bool
  pub warned : Bool
  pub warnings : List Text
  pub flows_recorded : ℕ
  pub last_snapshot : Option ℕ
  pub last_prune : Option ℕ
  pub last_start_attempt : Option ℕ
  pub status : Option TrafficStatus
  pub events : List Event
  pub world : W

abbrev pub restart_backoff_s : ℕ
restart_backoff_s = 30

abbrev pub prune_interval_s : ℕ
prune_interval_s = 3600

-- The limit of the query for stale rows.
abbrev pub stale_limit : ℕ
stale_limit = 1000000

-- `then is None or now - then >= wait`.
unfoldable pub is_elapsed : Option ℕ → ℕ → ℕ → Bool
is_elapsed none wait now = true
is_elapsed (some t) wait now = leb (t + wait) now

-- `ev.ts or …`: no time stamp, and the time stamp zero, count as missing.
unfoldable pub given_ts : Option ℕ → Option ℕ
given_ts none = none
given_ts (some ts) = if leb ts 0 then none else some ts

-- `ev.event == "DESTROY"`.
abbrev pub is_end : Option FlowKind → Bool
is_end (some destroyed) = true
is_end _ = false

module _ {W : Type 0} where
  unfoldable pub ask : {A : Type 0} → AuditOp W A → Exec (Collector W) A
  ask op c = let (r, w) = op c.world in (r, record c { world = w })

  unfoldable pub log_event : Event → Exec (Collector W) Unit
  log_event event = modify (λ c. record c { events = event ∷ c.events })

  unfoldable pub on_ledger : (Ledger → Ledger) → Exec (Collector W) Unit
  on_ledger f = modify (λ c. record c { ledger = f c.ledger })

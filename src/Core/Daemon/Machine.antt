-- ===== src/Core/Daemon/Machine.antt =====
-- The daemon object of src/sim_monitor/core/daemon.py, with the helpers that every handler uses. The
-- event log is a list of levels and kinds, newest first; the texts of its messages are left out.
use Prim.Native.String.{String}
use sim_connectivity_monitor.Prelude.{
  ℕ, Bool, false, not, ◌&&◌, Option, none, some, List, ◌∷◌, Text, codes, if◌then◌else◌, bool_eq,
  starts_with, is_empty,
}
use sim_connectivity_monitor.Config.Schema.{Profile, DaemonConfig, MonitorConfig}
use sim_connectivity_monitor.Core.Supervisor.{Supervisor, on_failure}
use sim_connectivity_monitor.Core.States.{State, connected, degraded, state_eq}
use sim_connectivity_monitor.Core.Snapshot.{Snapshot, set_state}
use sim_connectivity_monitor.Core.Exec.{
  Exec, on_tried, ◌>>=◌, ◌>>◌, done, gets, modify, demand, when, attempt_backend, attempt_all,
}
use sim_connectivity_monitor.Core.Daemon.Env.{Env, Op}

pub data Level : Type 0 where
  info warning error : Level

pub record Event : Type 0 where
  pub level : Level
  pub kind : String

pub record Machine (W : Type 0) : Type 0 where
  pub config : DaemonConfig
  pub profiles : List Profile
  pub supervisor : Supervisor
  pub monitor_trigger : Bool
  pub state : State
  pub driver : Option ℕ
  pub active_profile : Option Profile
  pub forced_profile : Option Text
  pub connect_deadline : Option ℕ
  pub activation_logged : Bool
  pub fallback_until : Option ℕ
  pub events_enabled : Bool
  pub sim_refresh_pending : Bool
  pub sms_pending : Bool
  pub last_identity : Option (Option Text × Option Text × Option Text)
  pub registration : Option Text
  pub variant_index : ℕ
  pub fallback_active : Bool
  pub next_telemetry : ℕ
  pub next_routing_assert : ℕ
  pub routing_warned : Bool
  pub next_sms_poll : ℕ
  pub auto_reply_times : List (Text × List ℕ)
  pub next_sim_reprobe : ℕ
  pub ppp_reset_attempts : ℕ
  pub next_port_scan : ℕ
  pub fallback_armed : Bool
  pub fallback_arm_seconds : Option ℕ
  pub global_monitor : Option MonitorConfig
  pub conn_up : Option Bool
  pub store : Snapshot
  pub events : List Event
  pub world : W

module _ {W : Type 0} where
  -- A call of what the daemon does not implement.
  unfoldable pub call : {A : Type 0} → Op W A → Exec (Machine W) A
  call op d = let (r, w) = op d.world in (r, record d { world = w })

  -- `self.events.info`, `warning` and `error`: they never raise.
  unfoldable pub emit : Level → String → Exec (Machine W) Unit
  emit level kind =
      modify (λ d. record d { events = record { level = level; kind = kind } ∷ d.events })

  -- `self.store.update`.
  unfoldable pub update : (Snapshot → Snapshot) → Exec (Machine W) Unit
  update fields = modify (λ d. record d { store = fields d.store })

  -- The driver and the profile that a handler asserts.
  unfoldable pub the_driver : Exec (Machine W) ℕ
  the_driver d = demand d.driver d

  unfoldable pub the_profile : Exec (Machine W) Profile
  the_profile d = demand d.active_profile d

  -- The assignment of `self.state`, with its log entry.
  unfoldable pub enter : State → Exec (Machine W) Unit
  enter state = modify (λ d.
      if state_eq state d.state
      then d
      else record d { events = record { level = info; kind = "state" } ∷ d.events; state = state })

-- `self._conn_up is connected`.
abbrev pub same_conn : Option Bool → Bool → Bool
same_conn none b = false
same_conn (some a) b = bool_eq a b

-- `is_ppp_interface`.
abbrev pub is_ppp_interface : Option Text → Bool
is_ppp_interface none = false
is_ppp_interface (some name) = not (is_empty name) && starts_with name (codes "ppp")

module _ {W : Type 0} (env : Env W) where
  open env use {disconnect, clock, add_connectivity}

  unfoldable pub record_connectivity : Bool → Exec (Machine W) Unit
  record_connectivity up = do
    last ← gets (λ d. d.conn_up)
    when (not (same_conn last up)) (do
      modify (λ d. record d { conn_up = some up })
      attempt_all (call (add_connectivity up))
      done)

  -- `_go`: the new state, its log entry, the snapshot and the connectivity record.
  unfoldable pub go : State → (Snapshot → Snapshot) → Exec (Machine W) Unit
  go state fields = do
    enter state
    update (set_state state fields)
    record_connectivity (state_eq state connected)

  unfoldable pub fail : Text → Exec (Machine W) Unit
  fail reason = do
    now ← call clock
    modify (λ d. record d { supervisor = (on_failure d.supervisor now).0 })
    call clock
    emit warning "recovery"
    go degraded (λ s. record s { last_error = some reason })

  unfoldable pub safe_disconnect : Exec (Machine W) Unit
  safe_disconnect = do
    r ← attempt_backend (call disconnect)
    on_tried r (λ _. done) (λ _. emit warning "connection")

-- ===== src/Core/Snapshot.antt =====
-- src/sim_monitor/core/state_store.py: the snapshot that the daemon publishes. The wall-clock stamps
-- `state_since` and `updated_at` are left out.
use sim_connectivity_monitor.Prelude.{ℕ, Bool, false, Option, none, List, Text, ℤ}
use sim_connectivity_monitor.Core.States.{State}

pub record DiagnosticEntry : Type 0 where
  pub command : Text
  pub output : Text
  pub succeeded : Bool

pub record DiagnosticsReport : Type 0 where
  pub ran_at : ℕ
  pub entries : List DiagnosticEntry
  pub no_modem_note : Bool

pub record FallbackStatus : Type 0 where
  pub active : Bool
  pub until : Option ℕ
  pub iccid_before : Option Text

abbrev pub no_fallback : FallbackStatus
no_fallback = record { active = false; until = none; iccid_before = none }

pub record SerialPort : Type 0 where
  pub device : Text
  pub vid : Option ℕ
  pub pid : Option ℕ
  pub interface : Option ℕ
  pub mm_claimed : Bool
  pub is_current : Bool
  pub tested : Bool
  pub responded : Bool
  pub identity : Option Text
  pub detail : Option Text

pub record ModemSetup : Type 0 where
  pub at_port : Text
  pub modem_present : Bool
  pub scanned_at : Option ℕ
  pub ports : List SerialPort

pub record Snapshot : Type 0 where
  pub state : State
  pub vendor : Option Text
  pub model : Option Text
  pub firmware : Option Text
  pub imei : Option Text
  pub sim_present : Bool
  pub iccid : Option Text
  pub imsi : Option Text
  pub sim_name : Option Text
  pub operator : Option Text
  pub registration : Option Text
  pub signal_rssi : Option ℤ
  pub signal_percent : Option ℕ
  pub interface : Option Text
  pub ip_address : Option Text
  pub gateway : Option Text
  pub public_ip : Option Text
  pub apn : Option Text
  pub routing_ok : Option Bool
  pub active_profile : Option Text
  pub forced_profile : Option Text
  pub profile_count : ℕ
  pub last_error : Option Text
  pub fallback : FallbackStatus
  pub fallback_armed : Bool
  pub diagnostics : Option DiagnosticsReport
  pub modem_setup : ModemSetup
  pub rat_supported : List Text
  pub monitor_paused : Bool
  pub sms_unread : ℕ
  pub telemetry : List (Text × Text)

-- `StateStore.set_state`.
unfoldable pub set_state : State → (Snapshot → Snapshot) → Snapshot → Snapshot
set_state state fields s = record (fields s) { state = state }

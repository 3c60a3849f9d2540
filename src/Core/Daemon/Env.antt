-- ===== src/Core/Daemon/Env.antt =====
-- What the daemon of src/sim_monitor/core/daemon.py calls: the clocks, the modem drivers
-- (modem/driver_base.py), the detector (modem/detect.py), the network (system/backend.py) and the
-- device database (storage/db.py). `W` is the state of all these; a driver is an object's number.
use sim_connectivity_monitor.Modem.Sms.{RawSms}
use sim_connectivity_monitor.Prelude.{ℕ, Bool, Option, List, Text}
use sim_connectivity_monitor.Config.Schema.{PdpContext, Profile, MonitorConfig}
use sim_connectivity_monitor.Modem.AtParser.Replies.{SignalQuality}
use sim_connectivity_monitor.Modem.Reconcile.{ActualPdpContext}
use sim_connectivity_monitor.Core.Exec.{Outcome}
use sim_connectivity_monitor.Core.Reply.{SmsAutoReplyConfig}

pub record ModemIdentity : Type 0 where
  pub vendor : Text
  pub model : Text
  pub imei : Text

pub record SimStatus : Type 0 where
  pub present : Bool
  pub iccid : Option Text
  pub imsi : Option Text
  pub detail : Option Text

-- The kinds of unsolicited result codes that `_poll_urcs` tells apart.
pub data UrcKind : Type 0 where
  sim_status new_sms registration caller_id sms_pdu unknown other : UrcKind

-- `label` is the field of that name of a registration code, where it has one.
pub record UrcEvent : Type 0 where
  pub raw : Text
  pub kind : UrcKind
  pub label : Option Text

pub record ConnectionState : Type 0 where
  pub active : Bool
  pub interface : Option Text
  pub ip_address : Option Text
  pub gateway : Option Text
  pub activating : Bool

pub record ScannedPort : Type 0 where
  pub device : Text
  pub vid : Option ℕ
  pub pid : Option ℕ
  pub interface : Option ℕ
  pub mm_claimed : Bool
  pub is_current : Bool

pub record ProbeResult : Type 0 where
  pub responded : Bool
  pub identity : Option Text
  pub detail : Option Text

-- A row of the inbox, as far as the daemon reads it.
pub record InboxRow : Type 0 where
  pub peer : Text
  pub body : Text
  pub ota : Option Text

-- What `Database.get_sms` returns of a stored message.
pub record StoredSms : Type 0 where
  pub inbound : Bool
  pub modem_indices : List ℕ

abbrev pub Telemetry : Type 0
Telemetry = List (Text × Text)

module _ (W : Type 0) where
  abbrev pub Op : Type 0 → Type 0
  Op A = W → Outcome A × W

  pub record Env : Type 0 where
    -- time.monotonic, time.time, the watchdog of systemd and time.sleep
    pub clock : Op ℕ
    pub wall_clock : Op ℕ
    pub watchdog : Op Unit
    pub sleep : ℕ → Op Unit
    -- ModemDetector
    pub detect : Op (Option ℕ)
    pub has_scan_ports : Bool
    pub has_probe : Bool
    pub get_at_port : Op Text
    pub get_last_at_port : Op (Option Text)
    pub put_at_port : Text → Op Unit
    pub scan_ports : Option Text → Op (Bool × List ScannedPort)
    pub probe : Text → Op ProbeResult
    -- ModemDriver
    pub diagnostic_commands : ℕ → List Text
    pub execute_raw : ℕ → Text → Op (List Text)
    pub get_identity : ℕ → Op ModemIdentity
    pub get_firmware : ℕ → Op Text
    pub get_sim_status : ℕ → Op SimStatus
    pub get_operator : ℕ → Op (Option Text)
    pub get_signal : ℕ → Op (Option SignalQuality)
    pub get_telemetry : ℕ → Op Telemetry
    pub get_pdp_contexts : ℕ → Op (List ActualPdpContext)
    pub define_pdp_context : ℕ → PdpContext → Op Unit
    pub delete_pdp_context : ℕ → ℕ → Op Unit
    pub set_airplane : ℕ → Bool → Op Unit
    pub supported_rats : ℕ → List Text
    pub put_rat : ℕ → Text → Op Unit
    pub reprobe_sim : ℕ → Op Unit
    pub clear_forbidden_plmn : ℕ → Op Unit
    pub full_reset : ℕ → Op Unit
    pub run_init_commands : ℕ → List Text → Op Unit
    pub enable_event_reporting : ℕ → Op Unit
    pub poll_events : ℕ → Op (List UrcEvent)
    pub list_sms : ℕ → Op (List RawSms)
    pub transmit_sms : ℕ → Text → Text → Op ℕ
    pub erase_sms : ℕ → ℕ → Op Unit
    pub erase_all_sms : ℕ → Op Unit
    -- NetworkBackend
    pub configure_connection : Profile → PdpContext → Op Unit
    pub connect : Op Unit
    pub disconnect : Op Unit
    pub get_connection_state : Op ConnectionState
    pub verify_routing : Profile → Op Bool
    pub assert_routing : Option Profile → Op Unit
    pub modem_disable_enable : Op Unit
    pub usb_power_cycle : Op Unit
    -- Database, and what is read through it: the monitor settings, the auto-reply rules, the
    -- profiles of the profile folder
    pub add_connectivity : Bool → Op Unit
    pub add_urc : UrcEvent → Op Unit
    pub add_identity : Text → Op Unit
    pub add_telemetry : Telemetry → Op Unit
    pub add_sent_sms : Text → Text → ℕ → Op Unit
    -- the stored text is a number of seconds or "default"; `none` removes it
    pub put_fallback_arm : Option (Option ℕ) → Op Unit
    pub put_modem_at_port : Option Text → Op Unit
    pub put_sim_name : Text → Text → Op Unit
    pub get_sim_name : Option Text → Op (Option Text)
    pub count_unread_sms : Op ℕ
    pub mark_inbound_read : Op Unit
    pub find_sms : ℕ → Op (Option StoredSms)
    pub delete_sms_row : ℕ → Op Unit
    -- `upsert_inbound_sms(reassemble_inbound(raw))`: the rows that are new
    pub store_inbound : List RawSms → Op (List InboxRow)
    -- `classify_ota` of the decoded PDU line, if it decodes and is SIM traffic
    pub classify_pdu : Text → Bool
    pub load_auto_reply : Op (Option SmsAutoReplyConfig)
    pub load_monitor_config : Op (Option MonitorConfig)
    -- the profiles that load, and the number of files that do not
    pub load_profiles : Op (List Profile × ℕ)

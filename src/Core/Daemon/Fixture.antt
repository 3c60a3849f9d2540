-- ===== src/Core/Daemon/Fixture.antt =====
-- A daemon at its start and a world in which every call succeeds, for the tests of the daemon.
use sim_connectivity_monitor.Prelude.{ℕ, ◌+◌, true, false, none, some, [], codes}
use sim_connectivity_monitor.Config.Schema.{DaemonConfig}
use sim_connectivity_monitor.Core.Supervisor
use sim_connectivity_monitor.Core.States.{no_modem}
use sim_connectivity_monitor.Core.Snapshot.{Snapshot, no_fallback}
use sim_connectivity_monitor.Core.Reply.{RegexSearch}
use sim_connectivity_monitor.Core.Exec.{ok}
use sim_connectivity_monitor.Core.Daemon.Env.{Env, ConnectionState}
use sim_connectivity_monitor.Core.Daemon.Machine.{Machine}

abbrev pub idle_link : ConnectionState
idle_link = record {
  active = false;
  interface = none;
  ip_address = none;
  gateway = none;
  activating = false;
}

-- The number is the time, which each reading moves on.
abbrev pub calm : Env ℕ
calm = record {
  clock = λ w. (ok w, w + 1);
  wall_clock = λ w. (ok w, w);
  watchdog = λ w. (ok tt, w);
  sleep = λ _ w. (ok tt, w);
  detect = λ w. (ok (some 7), w);
  has_scan_ports = false;
  has_probe = false;
  get_at_port = λ w. (ok [], w);
  get_last_at_port = λ w. (ok none, w);
  put_at_port = λ _ w. (ok tt, w);
  scan_ports = λ _ w. (ok (false, []), w);
  probe = λ _ w. (ok (record { responded = false; identity = none; detail = none }), w);
  diagnostic_commands = λ _. [];
  execute_raw = λ _ _ w. (ok [], w);
  get_identity =
      λ _ w. (ok (record { vendor = codes "Quectel"; model = codes "EG25"; imei = codes "86" }), w);
  get_firmware = λ _ w. (ok [], w);
  get_sim_status = λ _ w. (
    ok (record {
      present = true;
      iccid = some (codes "8901");
      imsi = some (codes "310");
      detail = none;
    }),
    w,
  );
  get_operator = λ _ w. (ok none, w);
  get_signal = λ _ w. (ok none, w);
  get_telemetry = λ _ w. (ok [], w);
  get_pdp_contexts = λ _ w. (ok [], w);
  define_pdp_context = λ _ _ w. (ok tt, w);
  delete_pdp_context = λ _ _ w. (ok tt, w);
  set_airplane = λ _ _ w. (ok tt, w);
  supported_rats = λ _. [];
  put_rat = λ _ _ w. (ok tt, w);
  reprobe_sim = λ _ w. (ok tt, w);
  clear_forbidden_plmn = λ _ w. (ok tt, w);
  full_reset = λ _ w. (ok tt, w);
  run_init_commands = λ _ _ w. (ok tt, w);
  enable_event_reporting = λ _ w. (ok tt, w);
  poll_events = λ _ w. (ok [], w);
  list_sms = λ _ w. (ok [], w);
  transmit_sms = λ _ _ _ w. (ok 0, w);
  erase_sms = λ _ _ w. (ok tt, w);
  erase_all_sms = λ _ w. (ok tt, w);
  configure_connection = λ _ _ w. (ok tt, w);
  connect = λ w. (ok tt, w);
  disconnect = λ w. (ok tt, w);
  get_connection_state = λ w. (ok idle_link, w);
  verify_routing = λ _ w. (ok true, w);
  assert_routing = λ _ w. (ok tt, w);
  modem_disable_enable = λ w. (ok tt, w);
  usb_power_cycle = λ w. (ok tt, w);
  add_connectivity = λ _ w. (ok tt, w);
  add_urc = λ _ w. (ok tt, w);
  add_identity = λ _ w. (ok tt, w);
  add_telemetry = λ _ w. (ok tt, w);
  add_sent_sms = λ _ _ _ w. (ok tt, w);
  put_fallback_arm = λ _ w. (ok tt, w);
  put_modem_at_port = λ _ w. (ok tt, w);
  put_sim_name = λ _ _ w. (ok tt, w);
  get_sim_name = λ _ w. (ok none, w);
  count_unread_sms = λ w. (ok 0, w);
  mark_inbound_read = λ w. (ok tt, w);
  find_sms = λ _ w. (ok none, w);
  delete_sms_row = λ _ w. (ok tt, w);
  store_inbound = λ _ w. (ok [], w);
  classify_pdu = λ _. false;
  load_auto_reply = λ w. (ok none, w);
  load_monitor_config = λ w. (ok none, w);
  load_profiles = λ w. (ok ([], 0), w);
}

abbrev pub no_regex : RegexSearch
no_regex = λ _ _ _. none

abbrev pub daemon_config : DaemonConfig
daemon_config = record {
  registration_timeout_seconds = 180;
  fallback_to_default_profile = true;
  telemetry_interval_seconds = 60;
  reset_on_ppp_interface = true;
  ppp_reset_max_attempts = 3;
}

abbrev pub empty_snapshot : Snapshot
empty_snapshot = record {
  state = no_modem;
  vendor = none;
  model = none;
  firmware = none;
  imei = none;
  sim_present = false;
  iccid = none;
  imsi = none;
  sim_name = none;
  operator = none;
  registration = none;
  signal_rssi = none;
  signal_percent = none;
  interface = none;
  ip_address = none;
  gateway = none;
  public_ip = none;
  apn = none;
  routing_ok = none;
  active_profile = none;
  forced_profile = none;
  profile_count = 0;
  last_error = none;
  fallback = no_fallback;
  fallback_armed = false;
  diagnostics = none;
  modem_setup = record { at_port = []; modem_present = false; scanned_at = none; ports = [] };
  rat_supported = [];
  monitor_paused = false;
  sms_unread = 0;
  telemetry = [];
}

abbrev pub fresh : Machine ℕ
fresh = record {
  config = daemon_config;
  profiles = [];
  supervisor = Supervisor.init;
  monitor_trigger = false;
  state = no_modem;
  driver = none;
  active_profile = none;
  forced_profile = none;
  connect_deadline = none;
  activation_logged = false;
  fallback_until = none;
  events_enabled = false;
  sim_refresh_pending = false;
  sms_pending = false;
  last_identity = none;
  registration = none;
  variant_index = 0;
  fallback_active = false;
  next_telemetry = 0;
  next_routing_assert = 0;
  routing_warned = false;
  next_sms_poll = 0;
  auto_reply_times = [];
  next_sim_reprobe = 0;
  ppp_reset_attempts = 0;
  next_port_scan = 0;
  fallback_armed = false;
  fallback_arm_seconds = none;
  global_monitor = none;
  conn_up = none;
  store = empty_snapshot;
  events = [];
  world = 1000;
}

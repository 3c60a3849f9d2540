-- ===== src/Core/Daemon/Ports.antt =====
-- src/sim_monitor/core/daemon.py: the serial ports of the modem, for the setup view.
use sim_connectivity_monitor.Prelude.{
  ℕ, Bool, true, false, not, ◌&&◌, ◌||◌, Option, none, some, List, [], ◌∷◌, ◌++◌, map, Text, codes,
  if◌then◌else◌, text_eq, strip, is_empty,
}
use sim_connectivity_monitor.Core.Snapshot.{SerialPort, Snapshot}
use sim_connectivity_monitor.Core.Exec.{
  Exec, on_tried, ◌>>=◌, ◌>>◌, pure, done, gets, modify, when, attempt_all,
}
use sim_connectivity_monitor.Core.Daemon.Env.{Env, ScannedPort, ProbeResult}
use sim_connectivity_monitor.Core.Daemon.Machine.{
  Machine, info, warning, call, emit, update, safe_disconnect,
}
use sim_connectivity_monitor.Core.Daemon.Reset.{drop_modem}

-- The port as shown: the scan, with what an earlier probe of the same device found.
abbrev pub merge_port : Option SerialPort → ScannedPort → SerialPort
merge_port none sp = record {
  device = sp.device;
  vid = sp.vid;
  pid = sp.pid;
  interface = sp.interface;
  mm_claimed = sp.mm_claimed;
  is_current = sp.is_current;
  tested = false;
  responded = false;
  identity = none;
  detail = none;
}
merge_port (some old) sp = record {
  device = sp.device;
  vid = sp.vid;
  pid = sp.pid;
  interface = sp.interface;
  mm_claimed = sp.mm_claimed;
  is_current = sp.is_current;
  tested = old.tested;
  responded = old.responded;
  identity = old.identity;
  detail = old.detail;
}

-- `{p.device: p for p in ports}.get(device)`: the last port of that device.
abbrev pub last_of : List SerialPort → Text → Option SerialPort
last_of [] device = none
last_of (p ∷ ps) device = elim (last_of ps device) [
  | none ↦ if text_eq p.device device then some p else none
  | some q ↦ some q
]

unfoldable pub merge_ports : List SerialPort → List ScannedPort → List SerialPort
unfolding text_eq
merge_ports prior scanned =
    map (λ (sp : ScannedPort). merge_port (last_of prior sp.device) sp) scanned

-- `replace(p, tested=True, …) if p.device == device else p`, for every port.
unfoldable pub mark_probed : Text → ProbeResult → List SerialPort → List SerialPort
unfolding text_eq
mark_probed device r ports =
    map
      (λ (p : SerialPort).
        if text_eq p.device device
        then record p {
          tested = true;
          responded = r.responded;
          identity = r.identity;
          detail = r.detail;
        }
        else p)
      ports

-- `configured if configured and configured != "auto" else None`.
abbrev pub explicit_port : Text → Option Text
explicit_port configured =
    if not (is_empty configured) && not (text_eq configured (codes "auto"))
    then some configured
    else none

abbrev pub or_empty : Option Text → Text
or_empty none = []
or_empty (some s) = s

abbrev pub live_identity : Snapshot → Text
live_identity s =
    let found = strip (or_empty s.vendor ++ codes " " ++ or_empty s.model) in
    if is_empty found then codes "in use (responding)" else found

-- `self.driver is not None and current and device == current`.
abbrev pub holds_port : Option ℕ → Option Text → Text → Bool
holds_port (some driver) (some current) device = not (is_empty current) && text_eq device current
holds_port _ _ device = false

module _ {W : Type 0} (env : Env W) where
  open env use {
    wall_clock, has_scan_ports, has_probe, get_at_port, get_last_at_port, put_at_port, scan_ports,
    probe, put_modem_at_port,
  }

  abbrev pub or_configured : Option Text → Exec (Machine W) (Option Text)
  or_configured (some (c ∷ resolved)) = pure (some (c ∷ resolved))
  or_configured _ = do configured ← call get_at_port; pure (explicit_port configured)

  unfoldable pub current_at_port : Exec (Machine W) (Option Text)
  current_at_port = do resolved ← call get_last_at_port; or_configured resolved

  -- The scan itself; an exception in it is caught.
  abbrev pub scan : Exec (Machine W) (Bool × List ScannedPort)
  scan = do current ← current_at_port; call (scan_ports current)

  abbrev pub publish_ports : Bool × List ScannedPort → Exec (Machine W) Unit
  publish_ports (present, scanned) = do
    at_port ← call get_at_port
    now ← call wall_clock
    update (λ s. record s {
      modem_setup = record {
        at_port = at_port;
        modem_present = present;
        scanned_at = some now;
        ports = merge_ports s.modem_setup.ports scanned;
      };
    })

  unfoldable pub scan_serial_ports : Exec (Machine W) Unit
  scan_serial_ports = when has_scan_ports (do
    r ← attempt_all scan
    on_tried r (λ found. publish_ports found) (λ _. emit warning "modem"))

  abbrev pub ask_port : Bool → Text → Exec (Machine W) ProbeResult
  ask_port true device = do
    s ← gets (λ d. d.store)
    pure (record { responded = true; identity = some (live_identity s); detail = none })
  ask_port false device = call (probe device)

  unfoldable pub probe_at_port : Text → Exec (Machine W) Unit
  probe_at_port device = when has_probe (do
    current ← current_at_port
    driver ← gets (λ d. d.driver)
    r ← ask_port (holds_port driver current device) device
    update (λ s. record s {
      modem_setup = record (s.modem_setup) { ports = mark_probed device r s.modem_setup.ports };
    })
    emit info "modem")

  -- `device.strip() in ("", "auto")`.
  abbrev pub is_auto : Text → Bool
  is_auto device = is_empty (strip device) || text_eq (strip device) (codes "auto")

  unfoldable pub set_at_port : Text → Exec (Machine W) Unit
  set_at_port device = do
    call (put_at_port (if is_auto device then codes "auto" else strip device))
    r ←
        attempt_all
          (call (put_modem_at_port (if is_auto device then none else some (strip device))))
    on_tried r (λ _. done) (λ _. emit warning "modem")
    emit info "modem"
    safe_disconnect env
    drop_modem env
    modify (λ d. record d { next_port_scan = 0 })

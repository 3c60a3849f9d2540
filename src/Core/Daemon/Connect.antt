-- ===== src/Core/Daemon/Connect.antt =====
-- src/sim_monitor/core/daemon.py: the handler of a connection that comes up.
use sim_connectivity_monitor.Prelude.{
  ℕ, zero, suc, ◌+◌, Bool, true, false, not, ◌&&◌, Option, none, some, ◌++◌, Text, codes, ltb, ◌==◌,
  if◌then◌else◌, length, is_empty,
}
use sim_connectivity_monitor.Config.Schema.{Profile, context_sets}
use sim_connectivity_monitor.Core.States.{configuring, connected}
use sim_connectivity_monitor.Core.Exec.{
  Exec, on_tried, ◌>>=◌, ◌>>◌, pure, done, gets, modify, when, attempt_backend,
}
use sim_connectivity_monitor.Core.Daemon.Env.{Env, ConnectionState}
use sim_connectivity_monitor.Core.Daemon.Machine.{
  Machine, info, warning, call, emit, go, fail, safe_disconnect, is_ppp_interface,
}
use sim_connectivity_monitor.Core.Daemon.Reset.{full_reset_modem}
use sim_connectivity_monitor.Core.Daemon.Attach.{record_identity}

-- `bool(ip_address)`.
abbrev pub has_text : Option Text → Bool
has_text none = false
has_text (some s) = not (is_empty s)

-- `conn.active and conn.ip_address`.
abbrev pub is_up : ConnectionState → Bool
is_up conn = conn.active && has_text conn.ip_address

-- `len(sets)`, with the one empty set that stands for no profile.
abbrev pub set_count : Option Profile → ℕ
set_count none = 1
set_count (some p) = length (context_sets p)

-- `self._connect_deadline and self.clock() > self._connect_deadline`: the clock is read only if
-- there is a deadline, and a deadline of 0 is none.
abbrev pub deadline_set : Option ℕ → Bool
deadline_set none = false
deadline_set (some zero) = false
deadline_set (some (suc t)) = true

abbrev pub is_past : Option ℕ → ℕ → Bool
is_past none now = false
is_past (some t) now = ltb t now

module _ {W : Type 0} (env : Env W) where
  open env use {clock, connect, get_connection_state, assert_routing}

  abbrev pub next_variant : Exec (Machine W) Unit
  next_variant = do
    modify (λ d. record d { variant_index = d.variant_index + 1 })
    emit info "pdp"
    safe_disconnect env
    go env configuring (λ s. s)

  abbrev pub last_variant : Text → Exec (Machine W) Unit
  last_variant reason = do modify (λ d. record d { variant_index = 0 }); fail env reason

  unfoldable pub advance_variant_or_fail : Text → Exec (Machine W) Unit
  advance_variant_or_fail reason = do
    index ← gets (λ d. d.variant_index)
    count ← gets (λ d. set_count d.active_profile)
    if ltb (index + 1) count then next_variant else last_variant reason

  -- The modem is reset to leave a PPP link, as often as the configuration allows.
  abbrev pub escape_ppp : Exec (Machine W) Bool
  escape_ppp = do
    modify (λ d. record d { ppp_reset_attempts = d.ppp_reset_attempts + 1 })
    emit warning "connection"
    full_reset_modem env
    pure false

  abbrev pub accept_ppp : ℕ → Exec (Machine W) Bool
  accept_ppp attempts = do when (not (attempts == 0)) (emit warning "connection"); pure true

  abbrev pub native_link : Exec (Machine W) Bool
  native_link = do modify (λ d. record d { ppp_reset_attempts = 0 }); pure true

  unfoldable pub handle_ppp_link : Option Text → Exec (Machine W) Bool
  handle_ppp_link interface = do
    attempts ← gets (λ d. d.ppp_reset_attempts)
    config ← gets (λ d. d.config)
    if not (is_ppp_interface interface)
        then native_link
        else if config.reset_on_ppp_interface && ltb attempts config.ppp_reset_max_attempts
        then escape_ppp
        else accept_ppp attempts

  -- The link is up: make it the route and go to CONNECTED. The backend is handed the active profile,
  -- also where there is none.
  unfoldable pub link_up : ConnectionState → Exec (Machine W) Unit
  link_up conn = do
    emit info "connection"
    profile ← gets (λ d. d.active_profile)
    r ← attempt_backend (call (assert_routing profile))
    on_tried r (λ _. done) (λ _. emit warning "routing")
    record_identity env true (codes "connected")
    go env connected (λ s. record s {
      interface = conn.interface;
      ip_address = conn.ip_address;
      last_error = none;
    })

  -- Still no link: say so once, and give up after the deadline.
  unfoldable pub keep_waiting : ConnectionState → Exec (Machine W) Unit
  keep_waiting conn = do
    logged ← gets (λ d. d.activation_logged)
    when (conn.activating && not logged)
        (do modify (λ d. record d { activation_logged = true }); emit info "connection")
    deadline ← gets (λ d. d.connect_deadline)
    when (deadline_set deadline) (do
      now ← call clock
      when (is_past deadline now) (
          advance_variant_or_fail
            (codes "timed out waiting for network registration / IP address")))

  abbrev pub proceed : ConnectionState → Bool → Exec (Machine W) Unit
  proceed conn true = link_up conn
  proceed conn false = done

  abbrev pub follow : ConnectionState → Exec (Machine W) Unit
  follow conn =
      if is_up conn
      then (do usable ← handle_ppp_link conn.interface; proceed conn usable)
      else keep_waiting conn

  -- NetworkManager is idle: start an activation, and look again.
  abbrev pub kick : Exec (Machine W) Unit
  kick = do
    r ← attempt_backend (call connect)
    on_tried r (λ _. do conn ← call get_connection_state; follow conn)
        (λ e. advance_variant_or_fail (codes "connect failed: " ++ e))

  unfoldable pub state_connecting : Exec (Machine W) Unit
  state_connecting = do
    conn ← call get_connection_state
    if not (is_up conn) && not conn.activating then kick else follow conn

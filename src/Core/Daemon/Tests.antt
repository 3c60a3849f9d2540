-- ===== src/Core/Daemon/Tests.antt =====
-- Runs of the daemon, and its theorems at concrete states and worlds.
use sim_connectivity_monitor.Core.Daemon.Fixture.{calm, no_regex, daemon_config, fresh}
use sim_connectivity_monitor.Core.Daemon.Held.{Idle, Held}
use sim_connectivity_monitor.Core.Daemon.Holding.{no_tick, one_tick, tick-Held, Ticks-driver}
use sim_connectivity_monitor.Core.Commands.{Command, delete_sms, reconnect}
use sim_connectivity_monitor.Core.Daemon.Testing.{commands-SameControl}
use sim_connectivity_monitor.Core.Daemon.Aside.{
  SameControl, IsStuck, messages-SameControl, tick-IsStuck,
}
use sim_connectivity_monitor.Core.Daemon.Limits.{
  IsBounded, recent_times, allow_reply_remembers, allow_reply-IsBounded,
}
use sim_connectivity_monitor.Prelude.{
  ℕ, ◌≤◌, ◌<◌, ◌≡◌, ◌≢◌, inl, refl, true, false, some, List, [], ◌∷◌, ◌++◌, Text, codes, is_some,
  length, arith,
}
use sim_connectivity_monitor.Core.Commands.{reset_modem}
use sim_connectivity_monitor.Core.States.{no_modem, modem_found, configuring, fallback_test}
use sim_connectivity_monitor.Core.Snapshot.{set_state}
use sim_connectivity_monitor.Core.Exec.{when, for_each, ◌>>=◌}
use sim_connectivity_monitor.Core.Daemon.Machine.{
  Machine, go, enter, update, emit, call, record_connectivity,
}
use sim_connectivity_monitor.Core.Daemon.Tick
use sim_connectivity_monitor.Core.Daemon.Sms
use sim_connectivity_monitor.Core.Daemon.Requests
use sim_connectivity_monitor.Core.Daemon.Sms.{allow_reply, times_of}
use sim_connectivity_monitor.Core.Daemon.Attach
use sim_connectivity_monitor.Core.Daemon.Ports
use sim_connectivity_monitor.Core.Daemon.Connect
use sim_connectivity_monitor.Core.Daemon.Resets.{IsCapped, handle_ppp_link-IsCapped}

fresh-Held : Held fresh
unfolding Held Idle
fresh-Held = inl refl

tick-Held_example : Held (Tick.tick calm no_regex (reset_modem ∷ []) fresh).1
tick-Held_example = tick-Held calm no_regex (reset_modem ∷ []) fresh fresh-Held

abbrev attached : Machine ℕ
attached = (Tick.tick calm no_regex [] fresh).1

first_tick : attached.state ≡ modem_found
unfolding Tick.tick Tick.tick_body Tick.handler Sms.poll_urcs Sms.maybe_fetch_sms
    Attach.state_no_modem Attach.enable_reporting Ports.scan_serial_ports go enter update emit call
    record_connectivity when for_each set_state ◌>>=◌
first_tick = refl

attached-found : attached.state ≢ no_modem
attached-found h = cc (h, first_tick)

Ticks-driver_example : is_some attached.driver ≡ true
Ticks-driver_example = Ticks-driver (one_tick [] no_tick) refl attached-found

abbrev testing : Machine ℕ
testing = record fresh { state = fallback_test; driver = some 7; fallback_until = some 2000 }

messages-SameControl_example :
    SameControl testing (Sms.poll_urcs calm no_regex testing).1
    × SameControl testing (Sms.maybe_fetch_sms calm no_regex testing).1
    × SameControl testing (Sms.send_sms calm no_regex (codes "1") (codes "hi") testing).1
    × SameControl testing (Requests.run_diagnostics calm no_regex (codes "ATI" ∷ []) testing).1
messages-SameControl_example =
    messages-SameControl calm no_regex testing (codes "1") (codes "hi") (codes "ATI" ∷ [])

abbrev sent_in_test : List Command
sent_in_test = reset_modem ∷ delete_sms 3 ∷ reconnect ∷ []

commands-SameControl_example :
    SameControl testing (for_each sent_in_test (Tick.handle_command calm no_regex) testing).1
commands-SameControl_example =
    commands-SameControl calm no_regex sent_in_test testing refl
      ((λ e. cc), ((λ e. cc), ((λ e. cc), tt)))

abbrev lost : Machine ℕ
lost = record fresh { state = configuring; driver = some 7 }

lost-IsStuck : IsStuck lost
unfolding IsStuck
lost-IsStuck = (refl, refl)

tick-IsStuck_example : IsStuck (Tick.tick calm no_regex [] lost).1
tick-IsStuck_example = tick-IsStuck calm no_regex lost lost-IsStuck

abbrev replies : List (Text × List ℕ)
replies = (codes "12", 100 ∷ 5000 ∷ []) ∷ []

allow_reply_remembers_example :
    (length (recent_times 5100 (codes "12") replies) < 5
      → ((allow_reply 5100 (codes "12") replies).0 ≡ true)
        × (times_of (codes "12") (allow_reply 5100 (codes "12") replies).1
            ≡ recent_times 5100 (codes "12") replies ++ 5100 ∷ []))
    × (5 ≤ length (recent_times 5100 (codes "12") replies)
        → ((allow_reply 5100 (codes "12") replies).0 ≡ false)
          × (times_of (codes "12") (allow_reply 5100 (codes "12") replies).1
              ≡ recent_times 5100 (codes "12") replies))
allow_reply_remembers_example = allow_reply_remembers 5100 (codes "12") replies

replies-IsBounded : IsBounded replies
unfolding IsBounded
replies-IsBounded = (omega arith, tt)

allow_reply-IsBounded_example : IsBounded (allow_reply 5100 (codes "12") replies).1
allow_reply-IsBounded_example = allow_reply-IsBounded 5100 (codes "12") replies replies-IsBounded

handle_ppp_link-IsCapped_example :
    IsCapped daemon_config (Connect.handle_ppp_link calm (some (codes "ppp0")) fresh).1
handle_ppp_link-IsCapped_example =
    handle_ppp_link-IsCapped calm (some (codes "ppp0")) fresh (omega arith)

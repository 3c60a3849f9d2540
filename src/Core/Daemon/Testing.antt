-- ===== src/Core/Daemon/Testing.antt =====
-- src/sim_monitor/core/daemon.py: the commands that come during a fallback test.
use sim_connectivity_monitor.Prelude.{
  ◌≡◌, refl, ◌≢◌, ap, ◌∙◌, Bool-cases, inl, inr, true, false, Option, none, some, List, [], ◌∷◌,
  Text, All,
}
use sim_connectivity_monitor.Core.Reply.{RegexSearch}
use sim_connectivity_monitor.Core.Commands
use sim_connectivity_monitor.Core.Commands.{Command}
use sim_connectivity_monitor.Core.States.{fallback_test, state_eq}
use sim_connectivity_monitor.Core.Exec.{for_each}
use sim_connectivity_monitor.Core.Exec.Keeps.{Keeps, Keeps-bind, Keeps-known, Keeps-done}
use sim_connectivity_monitor.Core.Daemon.Env.{Env}
use sim_connectivity_monitor.Core.Daemon.Machine.{Machine}
use sim_connectivity_monitor.Core.Daemon.Reset
use sim_connectivity_monitor.Core.Daemon.Fallback
use sim_connectivity_monitor.Core.Daemon.Tick
use sim_connectivity_monitor.Core.Daemon.Aside.{SameControl}
use sim_connectivity_monitor.Core.Daemon.Passive.{
  Passive, Passive-reevaluate_profile, Passive-do_reconnect, Passive-start_fallback_test,
}
use sim_connectivity_monitor.Core.Daemon.Quiet.{
  Frame, quiet_rules, Quiet-emit, Quiet-arm_fallback_test, Quiet-scan_serial_ports,
}
use sim_connectivity_monitor.Core.Daemon.QuietSms.{Quiet-delete_sms, Quiet-clear_sms}

-- A daemon in the fallback test of another one, with the same driver, profile and deadline.
unfoldable Testing : {W : Type 0} → Machine W → Machine W → Type 0
Testing d e = (e.state ≡ fallback_test) × SameControl d e

module _ {W : Type 0} (before : Machine W) where
  instance Frame-Testing : Frame (Testing before)
  unfolding Testing SameControl
  Frame-Testing = record {
    same = λ e f s v a u (t, (h, i, j, k)). (s ∙ t, (s ∙ h, v ∙ i, a ∙ j, u ∙ k));
  }

  instance Passive-Testing : Passive (Testing before)
  unfolding Testing
  Passive-Testing = record {
    reevaluates = λ d h. ap Reset.can_reevaluate h.0;
    starts = λ d h. ap Fallback.can_start_test h.0;
    attached = λ d h. ap Tick.is_attached h.0;
  }

  module _ (env : Env W) (search_regex : RegexSearch) where
    Testing-reevaluate_profile : Keeps (Testing before) (Reset.reevaluate_profile env)
    Testing-reevaluate_profile = Passive-reevaluate_profile env search_regex

    Testing-do_force_profile :
        (name : Text) → Keeps (Testing before) (Tick.do_force_profile env search_regex name)
    unfolding Tick.do_force_profile
    Testing-do_force_profile name = search (quiet_rules, Testing-reevaluate_profile) depth 60

    Testing-do_release_force : Keeps (Testing before) (Tick.do_release_force env search_regex)
    unfolding Tick.do_release_force
    Testing-do_release_force = search (quiet_rules, Testing-reevaluate_profile) depth 60

    Testing-reselect : (o : Option Text) → Keeps (Testing before) (Reset.reselect env o)
    Testing-reselect none = Keeps-done
    Testing-reselect (some []) = Keeps-done
    Testing-reselect (some (c ∷ i)) = search (quiet_rules, Testing-reevaluate_profile) depth 60

    Testing-reload_profiles : Keeps (Testing before) (Reset.reload_profiles env)
    unfolding Reset.reload_profiles
    Testing-reload_profiles = search (quiet_rules, Testing-reselect) depth 60

    Testing-name_sim :
        (name : Text) (o : Option Text)
        → Keeps (Testing before) (Tick.name_sim env search_regex name o)
    Testing-name_sim name none = search quiet_rules depth 60
    Testing-name_sim name (some []) = search quiet_rules depth 60
    Testing-name_sim name (some (c ∷ cs)) = search quiet_rules depth 60

    Testing-do_set_sim_name :
        (name : Text) → Keeps (Testing before) (Tick.do_set_sim_name env search_regex name)
    unfolding Tick.do_set_sim_name
    Testing-do_set_sim_name name = search (quiet_rules, Testing-name_sim) depth 60

    Testing-mark_read : Keeps (Testing before) (Tick.mark_read env search_regex)
    unfolding Tick.mark_read
    Testing-mark_read = search quiet_rules depth 60

    Testing-load_global_monitor : Keeps (Testing before) (Tick.load_global_monitor env search_regex)
    unfolding Tick.load_global_monitor
    Testing-load_global_monitor = search quiet_rules depth 60

    -- The commands that are let through, but the one that ends the test.
    Testing-dispatch :
        (c : Command)
        → Tick.is_blocked c ≡ false
        → c ≢ Commands.abort_fallback_test
        → Keeps (Testing before) (Tick.dispatch env search_regex c)
    unfolding Tick.dispatch
    Testing-dispatch Commands.reconnect h k = Passive-do_reconnect env search_regex
    Testing-dispatch Commands.reset_modem h k = cc
    Testing-dispatch (Commands.force_profile name) h k = Testing-do_force_profile name
    Testing-dispatch Commands.release_force h k = Testing-do_release_force
    Testing-dispatch (Commands.start_fallback_test p) h k =
        Passive-start_fallback_test env search_regex p
    Testing-dispatch Commands.abort_fallback_test h k = absurd (k refl)
    Testing-dispatch (Commands.arm_fallback_test b p) h k = Quiet-arm_fallback_test env b p
    Testing-dispatch Commands.run_monitor_now h k = search quiet_rules depth 60
    Testing-dispatch (Commands.run_diagnostics cs) h k = cc
    Testing-dispatch Commands.pause_monitor h k = search quiet_rules depth 60
    Testing-dispatch Commands.resume_monitor h k = search quiet_rules depth 60
    Testing-dispatch (Commands.send_sms number body) h k = cc
    Testing-dispatch (Commands.delete_sms n) h k = Quiet-delete_sms env search_regex n
    Testing-dispatch Commands.clear_sms h k = Quiet-clear_sms env search_regex
    Testing-dispatch Commands.refresh_sms h k = search quiet_rules depth 60
    Testing-dispatch Commands.mark_sms_read h k = Testing-mark_read
    Testing-dispatch (Commands.set_sim_name name) h k = Testing-do_set_sim_name name
    Testing-dispatch Commands.reload_monitor_config h k =
        search (quiet_rules, Testing-load_global_monitor) depth 60
    Testing-dispatch Commands.reload_profiles h k = Testing-reload_profiles
    Testing-dispatch Commands.scan_serial_ports h k = Quiet-scan_serial_ports env
    Testing-dispatch (Commands.probe_at_port device) h k = cc
    Testing-dispatch (Commands.set_at_port device) h k = cc
    Testing-dispatch (Commands.set_rat rat) h k = cc

    Testing-handle_command :
        (c : Command)
        → c ≢ Commands.abort_fallback_test
        → Keeps (Testing before) (Tick.handle_command env search_regex c)
    unfolding Tick.handle_command Testing
    Testing-handle_command c k =
        Keeps-known _ _ (λ b. b ≡ true) (λ d h. ap (λ s. state_eq s fallback_test) h.0)
          (λ b h. rw h (elim (Bool-cases (Tick.is_blocked c)) [
            | inl blocked ↦ rw blocked (Quiet-emit _ _)
            | inr free ↦ rw free (Testing-dispatch c free k)
          ]))

    Testing-commands :
        (cs : List Command)
        → All (λ c. c ≢ Commands.abort_fallback_test) cs
        → Keeps (Testing before) (for_each cs (Tick.handle_command env search_regex))
    unfolding for_each
    Testing-commands [] a = Keeps-done
    Testing-commands (c ∷ cs) a =
        Keeps-bind _ _ (Testing-handle_command c a.0) (λ _. Testing-commands cs a.1)

-- The commands that a tick takes from the queue during a fallback test, if none of them is the one
-- that aborts it, leave the state, the driver, the active profile and the deadline of the test as
-- they are, whatever the modem, the database and the network manager answer or raise.
pub commands-SameControl :
    {W : Type 0} (env : Env W) (search_regex : RegexSearch) (cs : List Command) (d : Machine W)
    → d.state ≡ fallback_test
    → All (λ c. c ≢ Commands.abort_fallback_test) cs
    → SameControl d (for_each cs (Tick.handle_command env search_regex) d).1
unfolding Testing SameControl
commands-SameControl env search_regex cs d h a =
    ((Testing-commands d env search_regex cs a).at d (h, (refl, refl, refl, refl))).1

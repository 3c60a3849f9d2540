-- ===== src/Core/Daemon/Live.antt =====
-- src/sim_monitor/core/daemon.py: what never lets go of the modem driver that is held.
use sim_connectivity_monitor.Core.Daemon.Quiet.{
  Frame, Quiet-call, Quiet-emit, Quiet-update, Quiet-the_driver, Quiet-the_profile,
  Quiet-record_connectivity, Quiet-safe_disconnect, Quiet-consume_fallback_arm,
  Quiet-reenable_radio, Quiet-read_sim, Quiet-record_identity, Quiet-refresh_sim_name,
  Quiet-without_sim, Quiet-configure, Quiet-log_ota_context, Quiet-stay_connected,
}
use sim_connectivity_monitor.Prelude.{
  ℕ, ◌≡◌, refl, ◌∙◌, ap, Bool, true, false, Option, none, some, List, [], ◌∷◌, Text, is_some,
  if◌then◌else◌,
}
use sim_connectivity_monitor.Config.Schema.{Profile, PdpContext}
use sim_connectivity_monitor.Core.States.{State, state_eq}
use sim_connectivity_monitor.Core.Snapshot.{Snapshot}
use sim_connectivity_monitor.Core.Exec.{modify}
use sim_connectivity_monitor.Core.Exec.Keeps.{Keeps, Keeps-modify, keeps_rules}
use sim_connectivity_monitor.Core.Daemon.Env.{Env, SimStatus, ModemIdentity, ConnectionState}
use sim_connectivity_monitor.Core.Daemon.Machine
use sim_connectivity_monitor.Core.Daemon.Machine.{
  Machine, call, emit, update, the_driver, the_profile, enter,
}
use sim_connectivity_monitor.Core.Daemon.Reset
use sim_connectivity_monitor.Core.Daemon.Fallback
use sim_connectivity_monitor.Core.Daemon.Attach
use sim_connectivity_monitor.Core.Daemon.Connect
use sim_connectivity_monitor.Core.Daemon.Online
use sim_connectivity_monitor.Core.Daemon.Recovery

-- A driver is held.
unfoldable pub Live : {W : Type 0} → Machine W → Type 0
Live d = is_some d.driver ≡ true

module _ {W : Type 0} where
  instance pub Frame-Live : Frame (Live {W = W})
  unfolding Live
  Frame-Live = record { same = λ d e s v a u h. ap is_some v ∙ h }

  pub Live-modify :
      (f : Machine W → Machine W)
      → ((d : Machine W) → (f d).driver ≡ d.driver)
      → Keeps Live (modify f)
  unfolding Live
  Live-modify f k = Keeps-modify f (λ d h. ap is_some (k d) ∙ h)

  if-driver :
      (b : Bool) (d e : Machine W) → e.driver ≡ d.driver → (if b then d else e).driver ≡ d.driver
  if-driver true d e h = refl
  if-driver false d e h = h

  pub Live-enter : (s : State) → Keeps Live (enter {W = W} s)
  unfolding enter
  Live-enter s = Live-modify _ (λ d. if-driver (state_eq s d.state) d _ refl)

pub ruleset live_rules = (
  keeps_rules, Live-modify, Live-enter, Quiet-call, Quiet-emit, Quiet-update, Quiet-the_driver,
  Quiet-the_profile, refl,
)

module _ {W : Type 0} (env : Env W) where
  pub Live-go : (s : State) (f : Snapshot → Snapshot) → Keeps Live (Machine.go env s f)
  unfolding Machine.go
  Live-go s f = search (live_rules, Quiet-record_connectivity) depth 60

  pub Live-fail : (e : Text) → Keeps Live (Machine.fail env e)
  unfolding Machine.fail
  Live-fail e = search (live_rules, Live-go) depth 60

  pub Live-reevaluate_profile : Keeps Live (Reset.reevaluate_profile env)
  unfolding Reset.reevaluate_profile
  Live-reevaluate_profile = search (live_rules, Live-go, Quiet-safe_disconnect) depth 60

  Live-reselect : (o : Option Text) → Keeps Live (Reset.reselect env o)
  Live-reselect none = search live_rules depth 60
  Live-reselect (some []) = search live_rules depth 60
  Live-reselect (some (c ∷ i)) = search (live_rules, Live-reevaluate_profile) depth 60

  pub Live-reload_profiles : Keeps Live (Reset.reload_profiles env)
  unfolding Reset.reload_profiles
  Live-reload_profiles = search (live_rules, Live-reselect) depth 60

  Live-begin_test : (n : ℕ) (o : Option Text) → Keeps Live (Fallback.begin_test env n o)
  unfolding Fallback.begin_test
  Live-begin_test n o = search (live_rules, Live-go, Quiet-safe_disconnect) depth 60

  Live-start_with :
      (o : Option ℕ) (b : Bool) (p : Option ℕ) → Keeps Live (Fallback.start_with env o b p)
  Live-start_with none b p = search live_rules depth 60
  Live-start_with (some n) true p = search (live_rules, Live-begin_test) depth 60
  Live-start_with (some n) false p = search live_rules depth 60

  pub Live-start_fallback_test : (o : Option ℕ) → Keeps Live (Fallback.start_fallback_test env o)
  unfolding Fallback.start_fallback_test
  Live-start_fallback_test o = search (live_rules, Live-start_with) depth 60

  Live-finish : (n : ℕ) → Keeps Live (Fallback.finish env n)
  unfolding Fallback.finish
  Live-finish n = search (live_rules, Live-go, Quiet-read_sim) depth 60

  Live-give_up : Keeps Live (Fallback.give_up env)
  unfolding Fallback.give_up
  Live-give_up = search (live_rules, Live-fail) depth 60

  pub Live-end_fallback_test : Keeps Live (Fallback.end_fallback_test env)
  unfolding Fallback.end_fallback_test
  Live-end_fallback_test =
      search (live_rules, Quiet-reenable_radio, Live-finish, Live-give_up) depth 60

  pub Live-with_sim : (sim : SimStatus) → Keeps Live (Attach.with_sim env sim)
  unfolding Attach.with_sim
  Live-with_sim sim =
      search (live_rules, Live-go, Quiet-refresh_sim_name, Quiet-record_identity) depth 60

  pub Live-identified :
      (n : ℕ) (x : ModemIdentity × SimStatus) → Keeps Live (Attach.identified env n x)
  Live-identified n x = search (live_rules, Live-with_sim, Quiet-without_sim) depth 60

  Live-adopt : (p : Profile) → Keeps Live (Attach.adopt env p)
  unfolding Attach.adopt
  Live-adopt p = search (live_rules, Live-go) depth 60

  Live-attach_sim : (o : Option Text) → Keeps Live (Attach.attach_sim env o)
  Live-attach_sim none = search (live_rules, Live-go) depth 60
  Live-attach_sim (some []) = search (live_rules, Live-go) depth 60
  Live-attach_sim (some (c ∷ cs)) =
      search (live_rules, Live-adopt, Quiet-consume_fallback_arm, Live-start_fallback_test) depth 60

  pub Live-state_sim_ready : Keeps Live (Attach.state_sim_ready env)
  unfolding Attach.state_sim_ready
  Live-state_sim_ready = search (live_rules, Live-attach_sim) depth 60

  Live-await_registration : (b : PdpContext) → Keeps Live (Attach.await_registration env b)
  Live-await_registration b = search (live_rules, Live-go) depth 60

  pub Live-state_configuring : Keeps Live (Attach.state_configuring env)
  unfolding Attach.state_configuring
  Live-state_configuring =
      search (live_rules, Quiet-configure, Live-await_registration, Live-fail) depth 60

  pub Live-advance_variant_or_fail : (e : Text) → Keeps Live (Connect.advance_variant_or_fail env e)
  unfolding Connect.advance_variant_or_fail
  Live-advance_variant_or_fail e =
      search (live_rules, Live-go, Live-fail, Quiet-safe_disconnect) depth 60

  pub Live-link_up : (c : ConnectionState) → Keeps Live (Connect.link_up env c)
  unfolding Connect.link_up
  Live-link_up c = search (live_rules, Live-go, Quiet-record_identity) depth 60

  pub Live-keep_waiting : (c : ConnectionState) → Keeps Live (Connect.keep_waiting env c)
  unfolding Connect.keep_waiting
  Live-keep_waiting c = search (live_rules, Live-advance_variant_or_fail) depth 60

  Live-sim_removed : Keeps Live (Online.sim_removed env)
  unfolding Online.sim_removed
  Live-sim_removed = search (live_rules, Live-go, Quiet-safe_disconnect) depth 60

  Live-identity_swap : (s : SimStatus) → Keeps Live (Online.identity_swap env s)
  unfolding Online.identity_swap
  Live-identity_swap s =
      search
        (
          live_rules, Live-go, Quiet-safe_disconnect, Quiet-log_ota_context, Quiet-refresh_sim_name,
          Quiet-record_identity,
        )
        depth 60

  Live-check_link : (n : ℕ) (p : Profile) → Keeps Live (Online.check_link env n p)
  Live-check_link n p = search (live_rules, Live-fail, Quiet-stay_connected) depth 60

  pub Live-state_connected : Keeps Live (Online.state_connected env)
  unfolding Online.state_connected
  Live-state_connected =
      search (live_rules, Live-sim_removed, Live-identity_swap, Live-check_link, Live-fail) depth 60

  pub Live-use_default : Keeps Live (Recovery.use_default env)
  unfolding Recovery.use_default
  Live-use_default = search (live_rules, Live-go) depth 60

  pub Live-state_fallback_test : Keeps Live (Recovery.state_fallback_test env)
  unfolding Recovery.state_fallback_test
  Live-state_fallback_test = search (live_rules, Live-end_fallback_test) depth 60

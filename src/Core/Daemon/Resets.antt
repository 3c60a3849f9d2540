-- ===== src/Core/Daemon/Resets.antt =====
-- src/sim_monitor/core/daemon.py: `_handle_ppp_link` resets the modem only so often.
use sim_connectivity_monitor.Core.Exec.Leads.{
  Leads, Result-both, Leads-Keeps, Leads-weaken, Leads-pure, Leads-modify, Leads-bind, Leads-gets,
}
use sim_connectivity_monitor.Core.Exec.Keeps.{Keeps, Keeps-modify, keeps_rules}
use Prim.Native.String.{String}
use mathlib.Core.Path.{subst}
use sim_connectivity_monitor.Prelude.{
  ℕ, suc, ◌≤◌, ◌≡◌, refl, ◌∙◌, Bool, true, false, not, ◌&&◌, Option, Text, if◌then◌else◌, ltb,
  ltb→lt, arith,
}
use sim_connectivity_monitor.Config.Schema.{DaemonConfig}
use sim_connectivity_monitor.Core.States.{State, state_eq}
use sim_connectivity_monitor.Core.Snapshot.{Snapshot}
use sim_connectivity_monitor.Core.Exec.{Exec, modify}
use sim_connectivity_monitor.Core.Daemon.Env.{Env, Op}
use sim_connectivity_monitor.Core.Daemon.Machine
use sim_connectivity_monitor.Core.Daemon.Machine.{
  Machine, Level, call, emit, update, enter, is_ppp_interface,
}
use sim_connectivity_monitor.Core.Daemon.Reset
use sim_connectivity_monitor.Core.Daemon.Connect

-- The configuration is still the same, and no more resets were counted than it allows.
unfoldable pub IsCapped : {W : Type 0} → DaemonConfig → Machine W → Type 0
IsCapped c d = (d.config ≡ c) × (d.ppp_reset_attempts ≤ c.ppp_reset_max_attempts)

counts :
    (b : Bool) (n : ℕ) (k c : DaemonConfig)
    → (b && ltb n k.ppp_reset_max_attempts) ≡ true
    → k ≡ c
    → suc n ≤ c.ppp_reset_max_attempts
counts true n k c h e =
    subst (λ x. suc n ≤ x.ppp_reset_max_attempts) e
      (omega (arith, ltb→lt n k.ppp_reset_max_attempts h))
counts false n k c h e = cc

module _ {W : Type 0} where
  if-attempts :
      (b : Bool) (d e : Machine W)
      → e.ppp_reset_attempts ≡ d.ppp_reset_attempts
      → (if b then d else e).ppp_reset_attempts ≡ d.ppp_reset_attempts
  if-attempts true d e h = refl
  if-attempts false d e h = h

  if-config :
      (b : Bool) (d e : Machine W) → e.config ≡ d.config → (if b then d else e).config ≡ d.config
  if-config true d e h = refl
  if-config false d e h = h

  if-Leads :
      {A : Type 0} {P bad : Machine W → Type 0} {good : A → Machine W → Type 0} (b : Bool)
      (m n : Exec (Machine W) A)
      → (b ≡ true → Leads P good bad m)
      → Leads P good bad n
      → Leads P good bad (if b then m else n)
  if-Leads true m n k l = k refl
  if-Leads false m n k l = l

module _ {W : Type 0} (c : DaemonConfig) where
  Capped-modify :
      (f : Machine W → Machine W)
      → ((d : Machine W) → (f d).config ≡ d.config)
      → ((d : Machine W) → (f d).ppp_reset_attempts ≡ d.ppp_reset_attempts)
      → Keeps (IsCapped c) (modify f)
  unfolding IsCapped
  Capped-modify f k l = Keeps-modify f (λ d h. (k d ∙ h.0, omega (arith, l d, h.1)))

  Capped-call : {A : Type 0} (op : Op W A) → Keeps (IsCapped c) (call op)
  unfolding call IsCapped
  Capped-call op = record { at = λ d h. h }

  Capped-emit : (l : Level) (k : String) → Keeps (IsCapped c) (emit {W = W} l k)
  unfolding emit
  Capped-emit l k = Capped-modify _ (λ _. refl) (λ _. refl)

  Capped-update : (f : Snapshot → Snapshot) → Keeps (IsCapped c) (update {W = W} f)
  unfolding update
  Capped-update f = Capped-modify _ (λ _. refl) (λ _. refl)

  Capped-enter : (s : State) → Keeps (IsCapped c) (enter {W = W} s)
  unfolding enter
  Capped-enter s =
      Capped-modify _ (λ d. if-config (state_eq s d.state) d _ refl)
        (λ d. if-attempts (state_eq s d.state) d _ refl)

ruleset capped_rules =
    (keeps_rules, Capped-modify, Capped-call, Capped-emit, Capped-update, Capped-enter, refl)

module _ {W : Type 0} (c : DaemonConfig) (env : Env W) where
  Capped-record_connectivity : (b : Bool) → Keeps (IsCapped c) (Machine.record_connectivity env b)
  unfolding Machine.record_connectivity
  Capped-record_connectivity b = search capped_rules depth 60

  Capped-go : (s : State) (f : Snapshot → Snapshot) → Keeps (IsCapped c) (Machine.go env s f)
  unfolding Machine.go
  Capped-go s f = search (capped_rules, Capped-record_connectivity) depth 60

  Capped-drop_modem : Keeps (IsCapped c) (Reset.drop_modem env)
  unfolding Reset.drop_modem
  Capped-drop_modem = search (capped_rules, Capped-go) depth 60

  Capped-safe_disconnect : Keeps (IsCapped c) (Machine.safe_disconnect env)
  unfolding Machine.safe_disconnect
  Capped-safe_disconnect = search capped_rules depth 60

  Capped-reset_driver : (o : Option ℕ) → Keeps (IsCapped c) (Reset.reset_driver env o)
  unfolding Reset.reset_driver
  Capped-reset_driver Option.none = search capped_rules depth 60
  Capped-reset_driver (Option.some n) = search capped_rules depth 60

  Capped-full_reset_modem : Keeps (IsCapped c) (Reset.full_reset_modem env)
  unfolding Reset.full_reset_modem
  Capped-full_reset_modem =
      search (capped_rules, Capped-reset_driver, Capped-safe_disconnect, Capped-drop_modem) depth 60

  abbrev Caps : {A : Type 0} → (Machine W → Type 0) → Exec (Machine W) A → Type 0
  Caps P m = Leads P (λ _. IsCapped c) (IsCapped c) m

  Caps-Keeps : {A : Type 0} (m : Exec (Machine W) A) → Keeps (IsCapped c) m → Caps (IsCapped c) m
  Caps-Keeps m k = Leads-Keeps m k (λ _ _ h. h) (λ _ h. h)

  -- What is known once both have been read.
  abbrev Read : ℕ → DaemonConfig → Machine W → Type 0
  Read n k d = IsCapped c d × (d.ppp_reset_attempts ≡ n) × (k ≡ c)

  Caps-native : (n : ℕ) (k : DaemonConfig) → Caps (Read n k) (Connect.native_link env)
  unfolding IsCapped
  Caps-native n k =
      Leads-bind _ _ (Leads-modify {good = λ _. IsCapped c} _ (λ d h. (h.0.0, omega arith)))
        (λ _. Leads-pure true (λ _ h. h))

  Caps-escape :
      (n : ℕ) (k : DaemonConfig)
      → (k.reset_on_ppp_interface && ltb n k.ppp_reset_max_attempts) ≡ true
      → Caps (Read n k) (Connect.escape_ppp env)
  unfolding IsCapped
  Caps-escape n k t =
      Leads-bind _ _
        (Leads-modify {good = λ _. IsCapped c} _
          (λ d h. (h.0.0, omega (arith, h.1, counts k.reset_on_ppp_interface n k c t h.2))))
        (λ _. Leads-bind (emit _ _) _ (Caps-Keeps _ (Capped-emit c _ _)) (λ _.
          Leads-bind (Reset.full_reset_modem env) _ (Caps-Keeps _ Capped-full_reset_modem)
            (λ _. Leads-pure false (λ _ h. h))))

  Caps-accept : (n : ℕ) (k : DaemonConfig) → Caps (Read n k) (Connect.accept_ppp env n)
  Caps-accept n k = Leads-weaken (λ d h. h.0) (Caps-Keeps _ (search capped_rules depth 60))

  reads : (n : ℕ) (d : Machine W) → IsCapped c d × (d.ppp_reset_attempts ≡ n) → Read n d.config d
  unfolding IsCapped
  reads n d h = (h.0, h.1, h.0.0)

  Caps-handle_ppp_link : (o : Option Text) → Caps (IsCapped c) (Connect.handle_ppp_link env o)
  unfolding Connect.handle_ppp_link
  Caps-handle_ppp_link o =
      Leads-bind _ _
        (Leads-gets {good = λ n d. IsCapped c d × (d.ppp_reset_attempts ≡ n)} _ (λ d h. (h, refl)))
        (λ n. Leads-bind _ _ (Leads-gets {good = λ k. Read n k} (λ d. d.config) (reads n)) (λ k.
          if-Leads (not (is_ppp_interface o)) _ _ (λ _. Caps-native n k)
            (if-Leads (k.reset_on_ppp_interface && ltb n k.ppp_reset_max_attempts) _ _
              (Caps-escape n k) (Caps-accept n k))))

-- If no more resets on account of a PPP link were counted than the configuration allows, then so it
-- is after a new link is judged, whatever the modem, the network and the database answer and wherever
-- an exception is raised.
pub handle_ppp_link-IsCapped :
    {W : Type 0} (env : Env W) (interface : Option Text) (d : Machine W)
    → d.ppp_reset_attempts ≤ d.config.ppp_reset_max_attempts
    → IsCapped d.config (Connect.handle_ppp_link env interface d).1
unfolding IsCapped
handle_ppp_link-IsCapped env interface d h =
    Result-both (IsCapped d.config) _ _
      ((Caps-handle_ppp_link d.config env interface).at d (refl, h))

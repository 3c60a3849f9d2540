-- ===== src/Scan/Manager/Workers.antt =====
-- The workers of the manager: what they do to the state, and the exception they end with. The
-- answers of the engine stand in the order in which they come, each with the cancel flag that is
-- read then.
use sim_connectivity_monitor.Prelude.{
  ℕ, suc, Bool, true, false, ◌||◌, Option, none, some, List, [], ◌∷◌, ◌++◌, Text, length, text_eq,
  ◌==◌, if◌then◌else◌,
}
use sim_connectivity_monitor.Scan.Manager.{
  host, open_port, hop, alive_hosts, open_ports, reached, Effect, progressed, added, summarised,
}

-- `engine.scan_host` of one host, with its reverse name.
pub record HostScan : Type 0 where
  pub ip : Text
  pub up : Bool
  pub name : Option Text
  pub open_list : List ℕ

-- An answer, or the text of the exception that it raises.
pub data Answer (A : Type 0) : Type 0 where
  gives : A → Answer A
  raises : Text → Answer A

pub record Hop : Type 0 where
  pub ttl : ℕ
  pub address : Option Text
  pub rtt_ms : Option ℕ

-- `hop["ip"] and hop["ip"] == dest_ip`.
abbrev pub is_destination : Option Text → Option Text → Bool
is_destination (some ip) (some dest) = if length ip == 0 then false else text_eq ip dest
is_destination _ _ = false

module _ (Checks : Type 0) where
  abbrev pub Work : Type 0
  Work = List (Effect Checks) × Option Text

  -- First these effects, then the rest of the work.
  abbrev pub after : List (Effect Checks) → Work → Work
  after effects (later, failure) = (effects ++ later, failure)

  -- The loop over the hosts as they complete; `alive` counts those that are up.
  unfoldable pub discovery_loop : ℕ → ℕ → List (Bool × Answer HostScan) → Work
  discovery_loop scanned alive [] = (summarised (alive_hosts alive scanned) ∷ [], none)
  discovery_loop scanned alive ((true, answer) ∷ rest) =
      (summarised (alive_hosts alive scanned) ∷ [], none)
  discovery_loop scanned alive ((false, raises e) ∷ rest) = (progressed 1 ∷ [], some e)
  discovery_loop scanned alive ((false, gives res) ∷ rest) =
      let one_more =
        after (progressed 1 ∷ added (host res.ip res.name res.open_list) ∷ [])
          (discovery_loop scanned (suc alive) rest) in
      let same = after (progressed 1 ∷ []) (discovery_loop scanned alive rest) in
      if res.up then one_more else same

  -- `_run_discovery` outside the simulation.
  unfoldable pub run_discovery : List (Bool × Answer HostScan) → Work
  unfolding discovery_loop
  run_discovery answers = discovery_loop (length answers) 0 answers

  -- The loop over the ports as they complete; an answer says whether the port is open.
  unfoldable pub ports_loop : ℕ → ℕ → List (Bool × ℕ × Answer Bool) → Work
  ports_loop scanned count [] = (summarised (open_ports count scanned) ∷ [], none)
  ports_loop scanned count ((true, port, answer) ∷ rest) =
      (summarised (open_ports count scanned) ∷ [], none)
  ports_loop scanned count ((false, port, raises e) ∷ rest) = (progressed 1 ∷ [], some e)
  ports_loop scanned count ((false, port, gives is_open) ∷ rest) =
      let one_more =
        after (progressed 1 ∷ added (open_port port) ∷ []) (ports_loop scanned (suc count) rest) in
      let same = after (progressed 1 ∷ []) (ports_loop scanned count rest) in
      if is_open then one_more else same

  -- `_run_ports` outside the simulation.
  unfoldable pub run_ports : List (Bool × ℕ × Answer Bool) → Work
  unfolding ports_loop
  run_ports answers = ports_loop (length answers) 0 answers

  -- The loop over the hops that `engine.traceroute` yields, with `count` and `reached`.
  unfoldable pub traceroute_loop : Option Text → ℕ → Bool → List (Bool × Answer Hop) → Work
  unfolding text_eq
  traceroute_loop dest count done [] = (summarised (reached count done) ∷ [], none)
  traceroute_loop dest count done ((cancelled, raises e) ∷ rest) = ([], some e)
  traceroute_loop dest count done ((true, gives h) ∷ rest) =
      (summarised (reached count done) ∷ [], none)
  traceroute_loop dest count done ((false, gives h) ∷ rest) =
      after (added (hop h.ttl h.address h.rtt_ms) ∷ progressed 1 ∷ [])
        (traceroute_loop dest (suc count) (done || is_destination h.address dest) rest)

  -- `_run_traceroute` outside the simulation: `dest` is the address of the target, if it has one.
  unfoldable pub run_traceroute : Option Text → List (Bool × Answer Hop) → Work
  unfolding traceroute_loop
  run_traceroute dest answers = traceroute_loop dest 0 false answers

-- ===== src/Scan/Manager/Simulated.antt =====
-- src/sim_monitor/scan/manager.py: the scans of the simulation, which find made-up hosts, and the
-- checks of reachability. `cancels i` is the cancel flag that round `i` reads.
use sim_connectivity_monitor.Prelude.{
  ℕ, suc, ◌+◌, ◌/◌, ◌%◌, max, min, Bool, true, none, some, List, [], ◌∷◌, ◌++◌, Text, codes, length,
  take, ◌==◌, if◌then◌else◌,
}
use sim_connectivity_monitor.Scan.Manager.{
  host, open_port, hop, alive_hosts, open_ports, reached, checks, Effect, progressed, added,
  summarised,
}
use sim_connectivity_monitor.Scan.Manager.Workers.{Answer, gives, raises, Work}

module _ (Checks : Type 0) where
  -- The simulated loop over the first hosts of `total`.
  unfoldable pub simulated_hosts : (ℕ → Bool) → ℕ → ℕ → List Text → List (Effect Checks)
  simulated_hosts cancels total i [] = []
  simulated_hosts cancels total i (ip ∷ hosts) =
      let rest = simulated_hosts cancels total (suc i) hosts in
      let name =
        if i % 2 == 0
        then none
        else some (codes "device-" ++ ((i + b'0') ∷ []) ++ codes ".local") in
      let ports = if i % 2 == 0 then 443 ∷ [] else 22 ∷ 80 ∷ [] in
      if cancels i then [] else progressed (max 1 (total / 6)) ∷ added (host ip name ports) ∷ rest

  -- `_run_discovery` in the simulation.
  unfoldable pub simulate_discovery : (ℕ → Bool) → List Text → Work Checks
  unfolding simulated_hosts
  simulate_discovery cancels hosts = (
    simulated_hosts cancels (length hosts) 0 (take 6 hosts)
        ++ (summarised (alive_hosts (min 6 (length hosts)) (length hosts)) ∷ []),
    none,
  )

  -- `_run_ports` in the simulation, for a number of ports.
  unfoldable pub simulate_ports : ℕ → Work Checks
  simulate_ports count = (
    added (open_port 22)
        ∷ added (open_port 80)
        ∷ added (open_port 443)
        ∷ progressed count
        ∷ summarised (open_ports 3 count)
        ∷ [],
    none,
  )

  -- `_run_reachability` in the simulation.
  unfoldable pub simulate_reachability : Checks → Work Checks
  simulate_reachability answers = (summarised (checks answers) ∷ progressed 4 ∷ [], none)

  -- `_run_reachability` outside of it: ping, name, web page and ports, one after the other.
  unfoldable pub run_reachability :
      {A B C D : Type 0}
      → (A → B → C → D → Checks)
      → Answer A
      → Answer B
      → Answer C
      → Answer D
      → Work Checks
  run_reachability combine (raises e) dns http tcp = ([], some e)
  run_reachability combine (gives p) (raises e) http tcp = (progressed 1 ∷ [], some e)
  run_reachability combine (gives p) (gives d) (raises e) tcp =
      (progressed 1 ∷ progressed 1 ∷ [], some e)
  run_reachability combine (gives p) (gives d) (gives w) (raises e) =
      (progressed 1 ∷ progressed 1 ∷ progressed 1 ∷ [], some e)
  run_reachability combine (gives p) (gives d) (gives w) (gives t) = (
    progressed 1
        ∷ progressed 1
        ∷ progressed 1
        ∷ progressed 1
        ∷ summarised (checks (combine p d w t))
        ∷ [],
    none,
  )

  abbrev simulated_hops : List (Text × ℕ)
  simulated_hops =
      (codes "10.170.42.8", 3)
      ∷ (codes "100.64.0.1", 28)
      ∷ (codes "203.0.113.1", 41)
      ∷ (codes "93.184.216.34", 44)
      ∷ []

  unfoldable pub simulated_route : (ℕ → Bool) → ℕ → List (Text × ℕ) → List (Effect Checks)
  simulated_route cancels ttl [] = []
  simulated_route cancels ttl ((ip, rtt) ∷ hops) =
      let rest = simulated_route cancels (suc ttl) hops in
      if cancels ttl then [] else added (hop ttl (some ip) (some rtt)) ∷ progressed 1 ∷ rest

  -- `_run_traceroute` in the simulation.
  unfoldable pub simulate_traceroute : (ℕ → Bool) → Work Checks
  unfolding simulated_route
  simulate_traceroute cancels =
      (simulated_route cancels 1 simulated_hops ++ (summarised (reached 4 true) ∷ []), none)

-- ===== src/Scan/Manager/Discovery.antt =====
-- A discovery that nothing disturbs reports every host that is up.
use sim_connectivity_monitor.Prelude.{
  ℕ, suc, ◌+◌, ◌≡◌, refl, ap, ◌∙◌, Bool, false, Bool-cases, inl, inr, Option, none, some, List, [],
  ◌∷◌, length, Text, if◌then◌else◌, arith,
}
use sim_connectivity_monitor.Scan.Manager.{
  discovery, Result, host, alive_hosts, ScanState, Manager, Effect, launch, apply_effects, run_scan,
}
use sim_connectivity_monitor.Scan.Manager.Workers.{
  HostScan, Answer, gives, discovery_loop, run_discovery,
}
use sim_connectivity_monitor.Scan.Manager.Ending.{moved, found, scan_ends}

-- Every host is answered for, and nobody cancels.
abbrev pub undisturbed : List HostScan → List (Bool × Answer HostScan)
undisturbed [] = []
undisturbed (h ∷ hosts) = (false, gives h) ∷ undisturbed hosts

-- The hosts that are up, as results.
abbrev pub hosts_up : List HostScan → List Result
hosts_up [] = []
hosts_up (h ∷ hosts) =
    let rest = hosts_up hosts in if h.up then host h.ip h.name h.open_list ∷ rest else rest

length-undisturbed : (hosts : List HostScan) → length (undisturbed hosts) ≡ length hosts
length-undisturbed [] = refl
length-undisturbed (h ∷ hosts) = omega (arith, length-undisturbed hosts)

module _ (Checks : Type 0) where
  -- What is asked of the work from `alive` hosts on.
  IsReport : ℕ → ℕ → List HostScan → List (Effect Checks) × Option Text → Type 0
  IsReport scanned alive hosts work =
      (work.1 ≡ none)
      × (moved work.0 ≡ length hosts)
      × (found work.0 ≡ hosts_up hosts)
      × ((s : ScanState Checks)
          → (apply_effects work.0 s).summary
            ≡ some (alive_hosts (alive + length (hosts_up hosts)) scanned))

  discovery_loop-IsReport :
      (scanned alive : ℕ) (hosts : List HostScan)
      → IsReport scanned alive hosts (discovery_loop Checks scanned alive (undisturbed hosts))
  unfolding IsReport discovery_loop moved found apply_effects
  discovery_loop-IsReport scanned alive [] =
      (refl, refl, refl, λ s. ap (λ n. some (alive_hosts n scanned)) (omega arith))
  discovery_loop-IsReport scanned alive (h ∷ hosts) = elim (Bool-cases h.up) [
    | inl e ↦
        let (fine, progress, results, summary) =
          discovery_loop-IsReport scanned (suc alive) hosts in
        rw e (
          fine,
          omega (arith, progress),
          ap (λ r. host h.ip h.name h.open_list ∷ r) results,
          λ s. summary _ ∙ ap (λ n. some (alive_hosts n scanned)) (omega arith),
        )
    | inr e ↦
        let (fine, progress, results, summary) = discovery_loop-IsReport scanned alive hosts in
        rw e (fine, omega (arith, progress), results, λ s. summary _)
  ]

  summary-run_scan :
      (effects : List (Effect Checks)) (failure : Option Text) (later : ℕ) (s : ScanState Checks)
      → (run_scan (effects, failure) later s).summary ≡ (apply_effects effects s).summary
  unfolding run_scan
  summary-run_scan effects none later s = refl
  summary-run_scan effects (some e) later s = refl

  -- Let a discovery be launched for as many hosts as `hosts` has, which stand in the order in which
  -- they are answered for, and let nobody cancel it. It ends with as much progress as there are hosts, the hosts that are up as results, their
  -- number and that of all hosts as the summary, and no error.
  pub discovery-IsComplete :
      (target : Text) (interface : Option Text) (now later : ℕ) (hosts : List HostScan)
      (m n : Manager Checks)
      → launch discovery target interface (length hosts) now m ≡ some n
      → ((run_scan (run_discovery Checks (undisturbed hosts)) later n.state).progress
          ≡ length hosts)
        × ((run_scan (run_discovery Checks (undisturbed hosts)) later n.state).results
            ≡ hosts_up hosts)
        × ((run_scan (run_discovery Checks (undisturbed hosts)) later n.state).summary
            ≡ some (alive_hosts (length (hosts_up hosts)) (length hosts)))
        × ((run_scan (run_discovery Checks (undisturbed hosts)) later n.state).error ≡ none)
  unfolding run_discovery IsReport
  discovery-IsComplete target interface now later hosts m n h =
      let (fine, progress, results, summary) =
        discovery_loop-IsReport (length (undisturbed hosts)) 0 hosts in
      let work = discovery_loop Checks (length (undisturbed hosts)) 0 (undisturbed hosts) in
      let (_, _, failure, all, found_all) =
        scan_ends discovery target interface (length hosts) now later m n work.0 work.1 h in
      (
        all ∙ progress,
        found_all ∙ results,
        summary-run_scan work.0 work.1 later n.state
            ∙ summary n.state
            ∙ ap (λ k. some (alive_hosts k (length (undisturbed hosts)))) (omega arith)
            ∙ ap (λ k. some (alive_hosts (length (hosts_up hosts)) k)) (length-undisturbed hosts),
        failure ∙ fine,
      )

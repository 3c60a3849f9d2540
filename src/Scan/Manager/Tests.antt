-- ===== src/Scan/Manager/Tests.antt =====
-- A scan that is launched, refused while it runs, and ends.
use sim_connectivity_monitor.Prelude.{
  ◌≡◌, ◌↔◌, refl, true, false, none, some, List, [], ◌∷◌, Text, codes,
}
use sim_connectivity_monitor.Scan.Manager.{
  Manager, discovery, ports, Effect, progressed, added, open_port, alive_hosts, stop, launch,
  run_scan,
}
use sim_connectivity_monitor.Scan.Manager.Workers.{HostScan, run_discovery}
use sim_connectivity_monitor.Scan.Manager.Single.{
  launched, stopped, Steps, here, next, initial, IsSingle, Steps-IsSingle,
}
use sim_connectivity_monitor.Scan.Manager.Ending.{moved, found, scan_ends}
use sim_connectivity_monitor.Scan.Manager.Discovery.{undisturbed, hosts_up, discovery-IsComplete}

abbrev router : HostScan
router = record { ip = codes "10.0.0.1"; up = true; name = none; open_list = 80 ∷ [] }

abbrev nobody : HostScan
nobody = record { ip = codes "10.0.0.2"; up = false; name = none; open_list = [] }

abbrev cidr : Text
cidr = codes "10.0.0.0/30"

abbrev scanning : Manager Unit
scanning = record {
  state = record {
    running = true;
    kind = some discovery;
    target = some cidr;
    interface = none;
    started_at = some 7;
    finished_at = none;
    progress = 0;
    total = 2;
    results = [];
    summary = none;
    error = none;
  };
  cancel = false;
  threads = 1;
}

lets_in : launch discovery cidr none 2 7 initial ≡ some scanning
unfolding launch
lets_in = refl

refuses : launch ports cidr none 2 8 scanning ≡ none
unfolding launch
refuses = refl

path : Steps initial (stop scanning)
path = next (launched discovery cidr none 2 7 lets_in) (next stopped here)

Steps-IsSingle_example :
    IsSingle (stop scanning)
    × ((launch ports cidr none 2 8 (stop scanning) ≡ none) ↔ ((stop scanning).threads ≡ 1))
Steps-IsSingle_example = Steps-IsSingle ports cidr none 2 8 path

abbrev effects : List (Effect Unit)
effects = progressed 1 ∷ added (open_port 80) ∷ []

scan_ends_example :
    ((run_scan (effects, some (codes "lost")) 9 scanning.state).running ≡ false)
    × ((run_scan (effects, some (codes "lost")) 9 scanning.state).finished_at ≡ some 9)
    × ((run_scan (effects, some (codes "lost")) 9 scanning.state).error ≡ some (codes "lost"))
    × ((run_scan (effects, some (codes "lost")) 9 scanning.state).progress ≡ moved effects)
    × ((run_scan (effects, some (codes "lost")) 9 scanning.state).results ≡ found effects)
scan_ends_example =
    scan_ends discovery cidr none 2 7 9 initial scanning effects (some (codes "lost")) lets_in

discovery-IsComplete_example :
    ((run_scan (run_discovery Unit (undisturbed (router ∷ nobody ∷ []))) 9 scanning.state).progress
      ≡ 2)
    × ((run_scan (run_discovery Unit (undisturbed (router ∷ nobody ∷ []))) 9 scanning.state).results
        ≡ hosts_up (router ∷ nobody ∷ []))
    × ((run_scan (run_discovery Unit (undisturbed (router ∷ nobody ∷ []))) 9 scanning.state).summary
        ≡ some (alive_hosts 1 2))
    × ((run_scan (run_discovery Unit (undisturbed (router ∷ nobody ∷ []))) 9 scanning.state).error
        ≡ none)
discovery-IsComplete_example =
    discovery-IsComplete Unit cidr none 7 9 (router ∷ nobody ∷ []) initial scanning lets_in

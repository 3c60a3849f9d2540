-- ===== src/Core/Uptime/Tests.antt =====
-- A window with one outage, and the theorem on it.
use sim_connectivity_monitor.Prelude.{◌+◌, ◌≡◌, max, refl, true, false, none, [], ◌∷◌, List, arith}
use sim_connectivity_monitor.Core.Uptime.{Edge, summarize, outage}
use sim_connectivity_monitor.Core.Uptime.Sums.{total_down, IsAscending, summarize-accounts}

abbrev edges : List Edge
edges =
    record { at = 130; up = false; detail = none }
    ∷ record { at = 160; up = true; detail = none }
    ∷ []

edges-IsAscending : IsAscending 0 edges
unfolding IsAscending
edges-IsAscending = (omega arith, (omega arith, tt))

one_outage : (summarize true edges 100 200 none).episodes ≡ outage 130 160 none false ∷ []
unfolding summarize
one_outage = refl

summarize-accounts_example :
    ((summarize true edges 100 200 none).connected_s
        + (summarize true edges 100 200 none).down_s
        + 100
      ≡ max 100 200)
    × (total_down (summarize true edges 100 200 none).episodes
        ≡ (summarize true edges 100 200 none).down_s)
summarize-accounts_example = summarize-accounts true edges 100 200 none edges-IsAscending

-- ===== src/Core/Status/Tests.antt =====
-- The status message of a recovery whose error has two lines.
use sim_connectivity_monitor.Prelude.{◌≡◌, refl, some, ◌++◌, ◌∷◌, Text, codes}
use sim_connectivity_monitor.Core.States.{degraded}
use sim_connectivity_monitor.Core.Snapshot.{Snapshot}
use sim_connectivity_monitor.Core.Status.{derive_status}
use sim_connectivity_monitor.Core.Status.Lines.{IsLine, derive_status-IsLine}
use sim_connectivity_monitor.Core.Daemon.Fixture.{empty_snapshot}

abbrev two_lines : Text
two_lines = codes " no answer" ++ (10 ∷ codes "AT+CGDCONT?")

abbrev recovering : Snapshot
recovering = record empty_snapshot { state = degraded; last_error = some two_lines }

status_first_line :
    derive_status recovering ≡ (codes "degraded", codes "recovery in progress: no answer")
unfolding derive_status
status_first_line = refl

derive_status-IsLine_example : IsLine 150 (derive_status recovering).1
derive_status-IsLine_example = derive_status-IsLine recovering (λ e. cc)

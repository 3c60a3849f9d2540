-- ===== src/Core/Status.antt =====
-- src/sim_monitor/core/state_store.py: the status that a heartbeat reports.
use sim_connectivity_monitor.Prelude.{
  ℕ, ◌-◌, Bool, ◌&&◌, ◌||◌, Option, none, some, [], ◌∷◌, ◌++◌, Text, codes, length, take, strip,
  leb, ltb, ◌==◌, if◌then◌else◌,
}
use sim_connectivity_monitor.Core.States.{State}
use sim_connectivity_monitor.Core.Snapshot.{Snapshot}
pub mod Lines
pub mod Tests

-- The characters at which `str.splitlines` parts a text.
abbrev pub is_line_break : ℕ → Bool
is_line_break c =
    (leb 10 c && leb c 13) || (leb 28 c && leb c 30) || c == 0x85 || c == 0x2028 || c == 0x2029

-- `text.splitlines()[0]` of a text that is not empty.
unfoldable pub head_line : Text → Text
head_line [] = []
head_line (c ∷ s) = let rest = head_line s in if is_line_break c then [] else c ∷ rest

-- `_short`.
unfoldable pub short : Text → ℕ → Text
unfolding head_line strip
short text limit =
    let line = head_line (strip text) in
    if ltb limit (length line) then take (limit - 3) line ++ codes "..." else line

-- `if text:` of an optional text.
abbrev pub given_text : Option Text → Option Text
given_text none = none
given_text (some []) = none
given_text (some (c ∷ s)) = some (c ∷ s)

-- `_STATE_MESSAGES.get(state, "cellular down")`.
abbrev pub state_message : State → Text
state_message State.no_modem = codes "no modem detected"
state_message State.modem_found = codes "modem found, waiting for SIM"
state_message State.sim_ready = codes "selecting profile"
state_message State.configuring = codes "configuring modem"
state_message State.connecting = codes "connecting"
state_message State.degraded = codes "recovery in progress"
state_message _ = codes "cellular down"

-- `{status}` and `{status_message}` of a snapshot that is neither connected nor in a test.
unfoldable pub degraded_status : State → Option Text → Text × Text
unfolding short
degraded_status state last_error = elim (given_text last_error) [
  | none ↦ (codes "degraded", state_message state)
  | some e ↦ (codes "degraded", state_message state ++ codes ": " ++ short e 120)
]

unfoldable pub status_of : State → Option Text → Option Text → Text × Text
unfolding degraded_status
status_of State.connected operator last_error = elim (given_text operator) [
  | none ↦ (codes "connected", codes "cellular connected")
  | some name ↦ (codes "connected", codes "cellular connected via " ++ name)
]
status_of State.fallback_test operator last_error =
    (codes "fallback_test", codes "fallback test in progress (radio off)")
status_of state operator last_error = degraded_status state last_error

-- `derive_status`.
unfoldable pub derive_status : Snapshot → Text × Text
unfolding status_of
derive_status snapshot = status_of snapshot.state snapshot.operator snapshot.last_error

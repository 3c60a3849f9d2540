-- ===== src/Modem/OtaSms.antt =====
-- src/sim_monitor/modem/ota_sms.py. A reason stands for its text.
mod Classes
mod Tests
use sim_connectivity_monitor.Prelude.{
  ℕ, ◌+◌, ◌/◌, ◌%◌, Bool, true, false, not, Option, none, some, List, [], ◌∷◌, ◌++◌, any, leb, ◌==◌,
  is_empty, if◌then◌else◌,
}

pub data Reason : Type 0 where
  sim_download ansi136 command_packet response_packet class_2 : Reason

-- `dcs >> 4`, `dcs & 0x03` and `dcs & 0x10`.
unfoldable pub message_class : ℕ → Option ℕ
message_class dcs =
    if leb (dcs / 16) 7
    then (if (dcs / 16) % 2 == 1 then some (dcs % 4) else none)
    else if dcs / 16 == 15
    then some (dcs % 4)
    else none

abbrev pub is_class_2 : Option ℕ → Bool
is_class_2 none = false
is_class_2 (some c) = c == 2

abbrev pub pid_reason : ℕ → List Reason
pid_reason pid = if pid == 127 then sim_download ∷ [] else if pid == 124 then ansi136 ∷ [] else []

abbrev pub given : Bool → Reason → List Reason
given b r = if b then r ∷ [] else []

unfoldable pub reasons : ℕ → ℕ → List ℕ → List Reason
unfolding message_class
reasons pid dcs udh_ieis =
    pid_reason pid
    ++ given (any (λ i. i == 112) udh_ieis) command_packet
    ++ given (any (λ i. i == 113) udh_ieis) response_packet
    ++ given (is_class_2 (message_class dcs)) class_2

-- The reasons, joined by "; " in the source, or `none`.
unfoldable pub classify_ota : ℕ → ℕ → List ℕ → Option (List Reason)
unfolding reasons
classify_ota pid dcs udh_ieis =
    let found = reasons pid dcs udh_ieis in if is_empty found then none else some found

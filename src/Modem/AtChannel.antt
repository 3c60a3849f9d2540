-- ===== src/Modem/AtChannel.antt =====
-- src/sim_monitor/modem/at_channel.py: the reading of a modem's answer. The lines are those that come
-- before the deadline, decoded and stripped; a read without a line is left out, for the loop goes on.
use sim_connectivity_monitor.Prelude.{
  ℕ, Bool, ◌||◌, not, List, [], ◌∷◌, ◌++◌, Text, codes, text_eq, starts_with, is_empty, any, take,
  drop, keep, if◌then◌else◌,
}
pub mod Sorting
pub mod Tests

-- How an answer ends: with its payload, with an error of the modem, or not in time.
pub data Response : Type 0 where
  payload : List Text → Response
  command_error : Text → Response
  timed_out : Response

-- The answer, the lines that went to the handler of unsolicited lines, and those not read yet.
pub record Reading : Type 0 where
  pub response : Response
  pub urcs : List Text
  pub left : List Text

abbrev pub final_error_prefixes : List Text
final_error_prefixes = codes "ERROR" ∷ codes "+CME ERROR" ∷ codes "+CMS ERROR" ∷ []

abbrev pub always_async : List Text
always_async =
    codes "+CMTI:"
    ∷ codes "+CMT:"
    ∷ codes "+CDS:"
    ∷ codes "+CBM:"
    ∷ codes "+CMGR:"
    ∷ codes "+QIND:"
    ∷ codes "+QSIMSTAT:"
    ∷ codes "+QUSIM:"
    ∷ codes "+CTZV:"
    ∷ codes "+CTZE:"
    ∷ codes "+CTZDST:"
    ∷ codes "*PSUTTZ"
    ∷ codes "+PACSP"
    ∷ codes "RING"
    ∷ codes "+CRING:"
    ∷ codes "+CLIP:"
    ∷ codes "NO CARRIER"
    ∷ codes "NO DIALTONE"
    ∷ codes "+CGEV:"
    ∷ []

-- `line.startswith(prefixes)`.
unfoldable pub starts_with_any : Text → List Text → Bool
unfolding starts_with
starts_with_any line prefixes = any (starts_with line) prefixes

-- What a line is to the command that waits.
pub data Role : Type 0 where
  skipped final_ok final_error unsolicited part : Role

-- The tests in the order of the code.
unfoldable pub role_of : Text → Text → Role
unfolding text_eq starts_with_any
role_of command line =
    if is_empty line || text_eq line command
    then skipped
    else if text_eq line (codes "OK")
    then final_ok
    else if starts_with_any line final_error_prefixes
    then final_error
    else if starts_with_any line always_async
    then unsolicited
    else part

-- `_read_response`, with the payload and the unsolicited lines so far.
unfoldable pub read_from : Text → List Text → List Text → List Text → Reading
unfolding role_of
read_from command lines urcs [] = record { response = timed_out; urcs = urcs; left = [] }
read_from command lines urcs (line ∷ rest) = elim (role_of command line) [
  | skipped ↦ read_from command lines urcs rest
  | final_ok ↦ record { response = payload lines; urcs = urcs; left = rest }
  | final_error ↦ record { response = command_error line; urcs = urcs; left = rest }
  | unsolicited ↦ read_from command lines (urcs ++ (line ∷ [])) rest
  | part ↦ read_from command (lines ++ (line ∷ [])) urcs rest
]

unfoldable pub read_response : Text → List Text → Reading
unfolding read_from
read_response command = read_from command [] []

-- `_drain_pending` of the lines that are there, at most two hundred: those that are not empty.
unfoldable pub drain_pending : List Text → List Text × List Text
drain_pending lines = (keep (λ line. not (is_empty line)) (take 200 lines), drop 200 lines)

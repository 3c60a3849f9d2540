-- ===== src/Modem/AtParser/Urcs.antt =====
-- src/sim_monitor/modem/at_parser.py: the classification of the lines that the modem sends by itself.
use sim_connectivity_monitor.Prelude.{
  ℕ, ◌+◌, Bool, false, ◌&&◌, ◌||◌, Option, none, some, List, [], ◌∷◌, Text, codes, length, leb,
  starts_with, lstrip, strip, upper, text_eq, is_empty, is_lower, is_upper, any, ◌==◌,
  if◌then◌else◌,
}
use sim_connectivity_monitor.Prelude.Failing.{◌>>=◌}
use sim_connectivity_monitor.Modem.AtParser.Scan.{
  literal, literal_any_case, number, quoted, comma, is_hex, all_of, optional_quote, text_or_none,
  span,
}
use sim_connectivity_monitor.Modem.AtParser.Radio.{
  Registration, registration_label, registered, cell_fields,
}

-- The kind of a line with its fields.
pub data Urc : Type 0 where
  new_sms : Text → ℕ → Urc
  sms_deliver : Text → Urc
  sim_status : ℕ → ℕ → Urc
  sim_raw : Text → Urc
  registration : Text → Registration → Urc
  nitz : Text → Urc
  ring : Option Text → Urc
  caller_id : Option Text → ℕ → Urc
  no_carrier : Urc
  sms_pdu : Urc
  unknown : Text → Urc

-- What a test gives, or else the next one.
infixr 20 ◌or_else◌
abbrev pub ◌or_else◌ : Option Urc → Option Urc → Option Urc
none or_else next = next
some urc or_else next = some urc

abbrev pub is_letter : ℕ → Bool
is_letter c = is_lower c || is_upper c

-- `\+CMTI:\s*"?([A-Z]+)"?\s*,\s*(\d+)` in any case.
unfoldable pub cmti_of : Text → Option Urc
unfolding literal_any_case lstrip optional_quote span comma number upper
cmti_of line = do
  s ← literal_any_case (codes "+CMTI:") line
  let storage = span is_letter (optional_quote (lstrip s))
  name ← text_or_none storage.0
  t ← comma (optional_quote storage.1)
  index ← number t
  some (new_sms (upper name) index.0)

unfoldable pub begins_with_any : Text → List Text → Bool
unfolding starts_with
begins_with_any s prefixes = any (starts_with s) prefixes

unfoldable pub deliver_of : Text → Option Urc
unfolding begins_with_any upper
deliver_of line =
    if begins_with_any (upper line) (codes "+CMT:" ∷ codes "+CDS:" ∷ [])
    then some (sms_deliver line)
    else none

unfoldable pub qsimstat_of : Text → Option Urc
unfolding literal lstrip number comma
qsimstat_of line = do
  s ← literal (codes "+QSIMSTAT:") line
  enabled ← number (lstrip s)
  t ← comma enabled.1
  inserted ← number t
  some (sim_status enabled.0 inserted.0)

unfoldable pub qusim_of : Text → Option Urc
unfolding begins_with_any upper
qusim_of line =
    if begins_with_any (upper line) (codes "+QUSIM:" ∷ []) then some (sim_raw line) else none

-- The name of the domain in front, by a reader of literals, and the rest.
unfoldable pub domain_by : (Text → Text → Option Text) → Text → Option (Text × Text)
domain_by read line = elim (read (codes "+CREG:") line) [
  | some rest ↦ some (codes "CREG", rest)
  | none ↦ elim (read (codes "+CGREG:") line) [
    | some rest ↦ some (codes "CGREG", rest)
    | none ↦ elim (read (codes "+CEREG:") line) [
      | some rest ↦ some (codes "CEREG", rest)
      | none ↦ none
    ]
  ]
]

-- `(?:\s*,\s*\d+)?\s*$`, at the end of a stripped line.
unfoldable pub ends_short : Text → Bool
unfolding comma number
ends_short s = is_empty s || elim (do t ← comma s; number t) as (λ _. Bool) [
  | none ↦ false
  | some (n, rest) ↦ is_empty rest
]

unfoldable pub short_registration : Text → Option Urc
unfolding domain_by literal_any_case lstrip number ends_short registration_label
short_registration line = do
  domain ← domain_by literal_any_case line
  stat ← number (lstrip domain.1)
  if ends_short stat.1 then some (registration domain.0 (registered stat.0 none)) else none

unfoldable pub commas : Text → ℕ
commas [] = 0
commas (c ∷ s) = if c == b',' then commas s + 1 else commas s

unfoldable pub verbose_registration : Text → Option Urc
unfolding domain_by literal lstrip number cell_fields commas registration_label
verbose_registration line = do
  domain ← domain_by literal line
  stat ← number (lstrip domain.1)
  cell ← cell_fields stat.1
  if leb 2 (commas line) then some (registration domain.0 (registered stat.0 (some cell))) else none

abbrev pub nitz_prefixes : List Text
nitz_prefixes =
    codes "+CTZV:" ∷ codes "+CTZE:" ∷ codes "+CTZDST:" ∷ codes "*PSUTTZ" ∷ codes "+QLTS" ∷ []

unfoldable pub nitz_of : Text → Option Urc
unfolding begins_with_any upper
nitz_of line = if begins_with_any (upper line) nitz_prefixes then some (nitz line) else none

unfoldable pub ring_of : Text → Option Urc
unfolding text_eq upper
ring_of line = if text_eq (upper line) (codes "RING") then some (ring none) else none

-- `\+CRING:\s*(.+)` of a stripped line.
unfoldable pub cring_of : Text → Option Urc
unfolding literal_any_case strip
cring_of line = do
  s ← literal_any_case (codes "+CRING:") line
  kind ← text_or_none (strip s)
  some (ring (some kind))

unfoldable pub clip_of : Text → Option Urc
unfolding literal lstrip quoted comma number
clip_of line = do
  s ← literal (codes "+CLIP:") line
  q ← quoted (lstrip s)
  t ← comma q.1
  kind ← number t
  some (caller_id (text_or_none q.0) kind.0)

unfoldable pub no_carrier_of : Text → Option Urc
unfolding begins_with_any upper
no_carrier_of line =
    if begins_with_any (upper line) (codes "NO CARRIER" ∷ []) then some no_carrier else none

unfoldable pub pdu_of : Text → Option Urc
unfolding all_of
pdu_of line = if all_of is_hex line && leb 16 (length line) then some sms_pdu else none

abbrev pub or_unknown : Text → Option Urc → Urc
or_unknown line none = unknown line
or_unknown line (some urc) = urc

-- The tests in the order of the code, on a stripped line.
unfoldable pub urc_of : Text → Option Urc
unfolding cmti_of deliver_of qsimstat_of qusim_of short_registration verbose_registration nitz_of
    ring_of cring_of clip_of no_carrier_of pdu_of
urc_of line =
    cmti_of line
    or_else deliver_of line
    or_else qsimstat_of line
    or_else qusim_of line
    or_else short_registration line
    or_else verbose_registration line
    or_else nitz_of line
    or_else ring_of line
    or_else cring_of line
    or_else clip_of line
    or_else no_carrier_of line
    or_else pdu_of line

unfoldable pub classify_urc : Text → Urc
unfolding urc_of strip
classify_urc line = or_unknown (strip line) (urc_of (strip line))

-- ===== src/Modem/AtParser/Replies.antt =====
-- src/sim_monitor/modem/at_parser.py: identity, SIM, signal and operator.
use sim_connectivity_monitor.Prelude.{
  ℕ, ◌+◌, ◌-◌, ◌*◌, ◌/◌, Bool, ◌&&◌, ◌||◌, Option, none, some, List, [], ◌∷◌, Text, codes, length,
  drop, ltb, leb, starts_with, lstrip, strip, upper, is_digit, ◌==◌, if◌then◌else◌, ℤ, negsuc,
}
use sim_connectivity_monitor.Prelude.Failing.{◌>>=◌}
use sim_connectivity_monitor.Modem.AtParser.Scan.{
  literal, number, quoted, comma, text_or_none, is_digits, strip_quotes, first_of, span,
}

abbrev pub iccid_prefixes : List Text
iccid_prefixes = codes "+CCID:" ∷ codes "+QCCID:" ∷ codes "#CCID:" ∷ codes "+ICCID:" ∷ []

-- The value behind a prefix, if there is one.
unfoldable pub prefixed_value : Text → Text → Option Text
unfolding starts_with upper strip strip_quotes
prefixed_value line prefix =
    if starts_with (upper line) prefix
    then text_or_none (strip_quotes (strip (drop (length prefix) line)))
    else none

-- `\d{18,20}[Ff]?`.
unfoldable pub is_bare_iccid : Text → Bool
unfolding span
is_bare_iccid line =
    let (digits, rest) = span is_digit line in
    leb 18 (length digits) && leb (length digits) 20 && elim rest as (λ _. Bool) [
      | [] ↦ Bool.true
      | c ∷ more ↦ (c == b'F' || c == b'f') && leb (length more) 0
    ]

-- The loop over the prefixes.
unfoldable pub value_of_prefixes : Text → List Text → Option Text
unfolding prefixed_value
value_of_prefixes line [] = if is_bare_iccid line then some line else none
value_of_prefixes line (prefix ∷ prefixes) = elim (prefixed_value line prefix) [
  | none ↦ value_of_prefixes line prefixes
  | some value ↦ some value
]

unfoldable pub parse_iccid : List Text → Option Text
unfolding first_of value_of_prefixes is_bare_iccid strip
parse_iccid = first_of (λ line. value_of_prefixes (strip line) iccid_prefixes)

unfoldable pub parse_imsi : List Text → Option Text
unfolding first_of strip is_digits
parse_imsi = first_of (λ line. if is_digits 14 15 (strip line) then some (strip line) else none)

unfoldable pub imei_of : Text → Option Text
unfolding strip_quotes strip is_digits
imei_of line =
    let bare = strip_quotes (strip line) in if is_digits 14 17 bare then some bare else none

unfoldable pub parse_imei : List Text → Option Text
unfolding first_of imei_of
parse_imei = first_of imei_of

pub record SignalQuality : Type 0 where
  pub rssi_dbm : Option ℤ
  pub percent : Option ℕ

-- `round(n / 31 * 100)` is never asked at a half, and -113 + 2 * n is negative up to 31.
unfoldable pub signal_quality : ℕ → SignalQuality
signal_quality n =
    if n == 99 || ltb 31 n
    then record { rssi_dbm = none; percent = none }
    else record { rssi_dbm = some (negsuc (112 - 2 * n)); percent = some ((200 * n + 31) / 62) }

unfoldable pub csq_of : Text → Option SignalQuality
unfolding literal number comma lstrip signal_quality
csq_of line = do
  s ← literal (codes "+CSQ:") (lstrip line)
  n ← number (lstrip s)
  t ← comma n.1
  _ ← number t
  some (signal_quality n.0)

unfoldable pub parse_csq : List Text → Option SignalQuality
unfolding first_of csq_of
parse_csq = first_of csq_of

-- The operator of `(?:\s*,\s*\d+\s*,\s*"([^"]*)")?`.
unfoldable pub cops_operator : Text → Option Text
unfolding number comma quoted
cops_operator s = do t ← comma s; n ← number t; u ← comma n.1; q ← quoted u; text_or_none q.0

-- The outer option is whether the line fits, the inner one is the operator.
unfoldable pub cops_of : Text → Option (Option Text)
unfolding literal number lstrip cops_operator
cops_of line = do
  s ← literal (codes "+COPS:") (lstrip line)
  n ← number (lstrip s)
  some (cops_operator n.1)

unfoldable pub parse_cops : List Text → Option (Option Text)
unfolding first_of cops_of
parse_cops = first_of cops_of

-- The last character, alone.
unfoldable pub last_character : Text → Option Text
last_character [] = none
last_character (c ∷ []) = some (c ∷ [])
last_character (c ∷ d ∷ s) = last_character (d ∷ s)

-- `\s*(.+?)\s*$`: of blanks alone the last one is the value.
unfoldable pub cpin_value : Text → Option Text
unfolding strip last_character
cpin_value s = elim (strip s) [ [] ↦ last_character s | c ∷ t ↦ some (c ∷ t) ]

unfoldable pub cpin_of : Text → Option Text
unfolding literal lstrip cpin_value
cpin_of line = do s ← literal (codes "+CPIN:") (lstrip line); cpin_value s

unfoldable pub parse_cpin : List Text → Option Text
unfolding first_of cpin_of
parse_cpin = first_of cpin_of

unfoldable pub cgmi_of : Text → Option Text
unfolding starts_with
cgmi_of line =
    if starts_with line (codes "AT") || starts_with line (codes "+")
    then none
    else text_or_none line

unfoldable pub parse_cgmi : List Text → Option Text
unfolding first_of cgmi_of strip
parse_cgmi = first_of (λ line. cgmi_of (strip line))

-- ===== src/Modem/AtParser/Radio.antt =====
-- src/sim_monitor/modem/at_parser.py: registration and radio.
use sim_connectivity_monitor.Prelude.{
  ℕ, Bool, Option, none, some, List, ◌++◌, Text, codes, lstrip, ◌==◌, if◌then◌else◌, decimal, ℤ,
  contains, not, ◌||◌,
}
use sim_connectivity_monitor.Prelude.Failing.{◌>>=◌}
use sim_connectivity_monitor.Modem.AtParser.Scan.{
  literal, number, signed, quoted, comma, hex_field, text_or_none, first_of, span, optional_quote,
}

-- `registration_label`.
unfoldable pub registration_label : ℕ → Text
unfolding decimal
registration_label stat =
    if stat == 0
    then codes "not-registered"
    else if stat == 1
    then codes "registered-home"
    else if stat == 2
    then codes "searching"
    else if stat == 3
    then codes "denied"
    else if stat == 4
    then codes "unknown"
    else if stat == 5
    then codes "registered-roaming"
    else codes "state-" ++ decimal stat

-- A state of registration with its label, and the cell where it is told.
pub record Registration : Type 0 where
  pub stat : ℕ
  pub label : Text
  pub tac : Option Text
  pub ci : Option Text

-- `\s*,\s*"?(hex)"?\s*,\s*"?(hex)"?`.
unfoldable pub cell_fields : Text → Option (Text × Text)
unfolding comma hex_field
cell_fields s = do
  t ← comma s
  let tac = hex_field t
  u ← comma tac.1
  some (tac.0, (hex_field u).0)

abbrev pub registered : ℕ → Option (Text × Text) → Registration
registered stat none = record {
  stat = stat;
  label = registration_label stat;
  tac = none;
  ci = none;
}
registered stat (some (tac, ci)) = record {
  stat = stat;
  label = registration_label stat;
  tac = text_or_none tac;
  ci = text_or_none ci;
}

unfoldable pub cereg_of : Text → Option Registration
unfolding literal number comma lstrip cell_fields registration_label
cereg_of line = do
  s ← literal (codes "+CEREG:") line
  n ← number (lstrip s)
  t ← comma n.1
  stat ← number t
  some (registered stat.0 (cell_fields stat.1))

unfoldable pub parse_cereg : List Text → Option Registration
unfolding first_of cereg_of
parse_cereg = first_of cereg_of

-- The four values of +QCSQ, where there is service.
pub record Levels : Type 0 where
  pub rssi : ℤ
  pub rsrp : ℤ
  pub sinr : ℤ
  pub rsrq : ℤ

unfoldable pub levels_of : Text → Option Levels
unfolding comma signed
levels_of s = do
  t ← comma s
  rssi ← signed t
  u ← comma rssi.1
  rsrp ← signed u
  v ← comma rsrp.1
  sinr ← signed v
  w ← comma sinr.1
  rsrq ← signed w
  some (record { rssi = rssi.0; rsrp = rsrp.0; sinr = sinr.0; rsrq = rsrq.0 })

unfoldable pub qcsq_of : Text → Option (Text × Option Levels)
unfolding literal lstrip quoted levels_of
qcsq_of line = do
  s ← literal (codes "+QCSQ:") line
  rat ← quoted (lstrip s)
  some (rat.0, levels_of rat.1)

unfoldable pub parse_qcsq : List Text → Option (Text × Option Levels)
unfolding first_of qcsq_of
parse_qcsq = first_of qcsq_of

pub record NetworkInfo : Type 0 where
  pub act : Text
  pub operator_numeric : Text
  pub band : Text
  pub channel : ℕ

-- `[^",]`.
abbrev pub not_quote_nor_comma : ℕ → Bool
not_quote_nor_comma c = not (c == 34 || c == b',')

-- The outer option is whether the line answers, the inner one whether there is service.
unfoldable pub qnwinfo_of : Text → Option (Option NetworkInfo)
unfolding literal lstrip quoted comma optional_quote span number contains
qnwinfo_of line =
    let found = (do
      s ← literal (codes "+QNWINFO:") line
      act ← quoted (lstrip s)
      t ← comma act.1
      let operator = span not_quote_nor_comma (optional_quote t)
      u ← comma (optional_quote operator.1)
      band ← quoted u
      v ← comma band.1
      channel ← number v
      some (
          some (record {
            act = act.0;
            operator_numeric = operator.0;
            band = band.0;
            channel = channel.0;
          }))) in
    if contains line (codes "No Service") then some none else found

unfoldable pub parse_qnwinfo : List Text → Option (Option NetworkInfo)
unfolding first_of qnwinfo_of
parse_qnwinfo = first_of qnwinfo_of

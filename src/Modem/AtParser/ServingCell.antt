-- ===== src/Modem/AtParser/ServingCell.antt =====
-- src/sim_monitor/modem/at_parser.py: the serving cell of a Quectel modem. `int` reads digits with a
-- sign and blanks around; underscores between digits, which it would take too, count as no number.
use sim_connectivity_monitor.Prelude.{
  ℕ, Bool, Option, none, some, List, [], ◌∷◌, Text, codes, get_elem?, contains, strip, upper,
  text_eq, is_number, number_from, ℤ, pos, map, ◌==◌, if◌then◌else◌,
}
use sim_connectivity_monitor.Prelude.Failing.{◌>>=◌}
use sim_connectivity_monitor.Modem.AtParser.Scan.{literal, strip_quotes, negated, first_of}

-- `body.split(",")`.
abbrev pub onto_first : ℕ → List Text → List Text
onto_first c [] = (c ∷ []) ∷ []
onto_first c (field ∷ fields) = (c ∷ field) ∷ fields

unfoldable pub split_commas : Text → List Text
split_commas [] = [] ∷ []
split_commas (c ∷ s) =
    let rest = split_commas s in if c == b',' then [] ∷ rest else onto_first c rest

-- `[t.strip().strip('"') for t in body.split(",")]`.
unfoldable pub tokens : Text → List Text
unfolding split_commas strip strip_quotes
tokens body = map (λ t. strip_quotes (strip t)) (split_commas body)

-- `_int`.
unfoldable pub digits_int : Text → Option ℕ
unfolding is_number number_from
digits_int s = if is_number s then some (number_from 0 s) else none

unfoldable pub int_of_stripped : Text → Option ℤ
unfolding digits_int
int_of_stripped [] = none
int_of_stripped (c ∷ s) =
    if c == b'-'
    then (do n ← digits_int s; some (negated n))
    else (do n ← digits_int (if c == b'+' then s else c ∷ s); some (pos n))

unfoldable pub int_or_none : Text → Option ℤ
unfolding int_of_stripped strip
int_or_none s = int_of_stripped (strip s)

pub record LteCell : Type 0 where
  pub state : Text
  pub mcc : Option ℤ
  pub mnc : Option ℤ
  pub cell_id : Text
  pub pci : Option ℤ
  pub earfcn : Option ℤ
  pub band : Option ℤ
  pub tac : Text
  pub rsrp : Option ℤ
  pub rsrq : Option ℤ
  pub rssi : Option ℤ
  pub sinr : Option ℤ

-- A short answer, or one that is not about LTE, has the technology and the state only.
pub data ServingCell : Type 0 where
  other_cell : Option Text → Option Text → ServingCell
  lte_cell : LteCell → ServingCell

-- The tokens of an LTE answer by their places; `none` if there are less than seventeen.
unfoldable pub lte_of : List Text → Option LteCell
unfolding int_or_none
lte_of toks = do
  state ← get_elem? toks 1
  mcc ← get_elem? toks 4
  mnc ← get_elem? toks 5
  cell_id ← get_elem? toks 6
  pci ← get_elem? toks 7
  earfcn ← get_elem? toks 8
  band ← get_elem? toks 9
  tac ← get_elem? toks 12
  rsrp ← get_elem? toks 13
  rsrq ← get_elem? toks 14
  rssi ← get_elem? toks 15
  sinr ← get_elem? toks 16
  some (record {
    state = state;
    mcc = int_or_none mcc;
    mnc = int_or_none mnc;
    cell_id = cell_id;
    pci = int_or_none pci;
    earfcn = int_or_none earfcn;
    band = int_or_none band;
    tac = tac;
    rsrp = int_or_none rsrp;
    rsrq = int_or_none rsrq;
    rssi = int_or_none rssi;
    sinr = int_or_none sinr;
  })

-- `len(toks) < 17 or toks[2].upper() != "LTE"` fails.
unfoldable pub is_lte : Option Text → Bool
unfolding text_eq upper
is_lte none = Bool.false
is_lte (some rat) = text_eq (upper rat) (codes "LTE")

abbrev pub cell_or_other : List Text → Option LteCell → ServingCell
cell_or_other toks none = other_cell (get_elem? toks 2) (get_elem? toks 1)
cell_or_other toks (some cell) = lte_cell cell

unfoldable pub serving_cell : List Text → ServingCell
unfolding lte_of is_lte
serving_cell toks = cell_or_other toks (if is_lte (get_elem? toks 2) then lte_of toks else none)

-- `line.split(":", 1)[1]` of a line that begins with +QENG: is what stands behind it.
unfoldable pub qeng_of : Text → Option ServingCell
unfolding literal contains tokens serving_cell
qeng_of line = do
  body ← literal (codes "+QENG:") line
  if contains line (codes "servingcell") then some (serving_cell (tokens body)) else none

unfoldable pub parse_qeng_servingcell : List Text → Option ServingCell
unfolding first_of qeng_of
parse_qeng_servingcell = first_of qeng_of

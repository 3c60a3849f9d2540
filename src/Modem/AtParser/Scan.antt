-- ===== src/Modem/AtParser/Scan.antt =====
-- src/sim_monitor/modem/at_parser.py: the parts of its regular expressions. Each reads a part at the
-- front of a text and gives the rest. None of them needs to give back what it has read: what can
-- follow a part never begins like the part goes on.
use sim_connectivity_monitor.Prelude.{
  ℕ, suc, Bool, ◌||◌, ◌&&◌, not, Option, none, some, List, [], ◌∷◌, Text, codes, length, drop, leb,
  starts_with, lstrip, is_digit, number_from, ◌==◌, if◌then◌else◌, is_empty, upper, ℤ, pos, negsuc,
}
use sim_connectivity_monitor.Prelude.Failing.{◌>>=◌}

-- A literal.
unfoldable pub literal : Text → Text → Option Text
unfolding starts_with
literal p s = if starts_with s p then some (drop (length p) s) else none

-- A literal in any case, under `re.I`.
unfoldable pub literal_any_case : Text → Text → Option Text
unfolding starts_with upper
literal_any_case p s = if starts_with (upper s) p then some (drop (length p) s) else none

-- The longest front of characters of a class, and the rest.
unfoldable pub span : (ℕ → Bool) → Text → Text × Text
span p [] = ([], [])
span p (c ∷ s) = let (front, rest) = span p s in if p c then (c ∷ front, rest) else ([], c ∷ s)

-- A value that was read, and the rest.
abbrev pub Read : Type 0 → Type 0
Read A = Option (A × Text)

abbrev pub read_number : Text × Text → Read ℕ
read_number ([], rest) = none
read_number (c ∷ s, rest) = some (number_from 0 (c ∷ s), rest)

-- `(\d+)`, and `int` of it.
unfoldable pub number : Text → Read ℕ
unfolding span number_from
number s = read_number (span is_digit s)

-- `(-?\d+)`, and `int` of it.
abbrev pub negated : ℕ → ℤ
negated ℕ.zero = pos 0
negated (suc n) = negsuc n

unfoldable pub signed : Text → Read ℤ
unfolding number literal
signed s = elim (literal (codes "-") s) [
  | some rest ↦ do r ← number rest; some (negated r.0, r.1)
  | none ↦ do r ← number s; some (pos r.0, r.1)
]

abbrev pub not_quote : ℕ → Bool
not_quote c = not (c == 34)

-- `"([^"]*)"`.
unfoldable pub quoted : Text → Read Text
unfolding literal span
quoted s = do
  inside ← literal (34 ∷ []) s
  let r = span not_quote inside
  rest ← literal (34 ∷ []) r.1
  some (r.0, rest)

-- `"?`.
unfoldable pub optional_quote : Text → Text
optional_quote [] = []
optional_quote (c ∷ s) = if c == 34 then s else c ∷ s

-- `\s*,\s*`.
unfoldable pub comma : Text → Option Text
unfolding literal lstrip
comma s = do rest ← literal (codes ",") (lstrip s); some (lstrip rest)

abbrev pub is_hex : ℕ → Bool
is_hex c = is_digit c || (leb b'A' c && leb c b'F') || (leb b'a' c && leb c b'f')

-- `"?([0-9A-Fa-f]*)"?`.
unfoldable pub hex_field : Text → Text × Text
unfolding optional_quote span
hex_field s = let (digits, rest) = span is_hex (optional_quote s) in (digits, optional_quote rest)

-- `text or None`.
abbrev pub text_or_none : Text → Option Text
text_or_none [] = none
text_or_none (c ∷ s) = some (c ∷ s)

-- Only characters of a class.
unfoldable pub all_of : (ℕ → Bool) → Text → Bool
unfolding span
all_of p s = is_empty (span p s).1

-- `re.fullmatch(r"\d{low,high}", s)`.
unfoldable pub is_digits : ℕ → ℕ → Text → Bool
unfolding all_of
is_digits low high s = all_of is_digit s && leb low (length s) && leb (length s) high

-- `s.strip('"')`.
unfoldable pub strip_quotes_left : Text → Text
strip_quotes_left [] = []
strip_quotes_left (c ∷ s) = let rest = strip_quotes_left s in if c == 34 then rest else c ∷ s

unfoldable pub strip_quotes_right : Text → Text
strip_quotes_right [] = []
strip_quotes_right (c ∷ s) = elim (strip_quotes_right s) [
  | [] ↦ if c == 34 then [] else c ∷ []
  | d ∷ r ↦ c ∷ d ∷ r
]

unfoldable pub strip_quotes : Text → Text
unfolding strip_quotes_left strip_quotes_right
strip_quotes s = strip_quotes_right (strip_quotes_left s)

-- `for line in lines: … return …`: the first line that gives a value.
unfoldable pub first_of : {A : Type 0} → (Text → Option A) → List Text → Option A
first_of f [] = none
first_of f (line ∷ lines) = elim (f line) [ none ↦ first_of f lines | some a ↦ some a ]

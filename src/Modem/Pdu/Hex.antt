-- ===== src/Modem/Pdu/Hex.antt =====
-- src/sim_monitor/modem/pdu.py: hexadecimal texts, `bytes`, `bytes.hex`, `bytes.fromhex`, and the
-- order of the semi-octets. `none` stands for the exception that Python raises.
use sim_connectivity_monitor.Prelude.{
  ℕ, ◌+◌, ◌-◌, ◌*◌, ◌/◌, ◌%◌, Bool, true, false, ◌&&◌, ◌||◌, Option, none, some, List, [], ◌∷◌,
  Text, ltb, leb, ◌==◌, if◌then◌else◌, is_digit,
}

-- `bytes(xs)`.
unfoldable pub to_bytes : List ℕ → Option (List ℕ)
to_bytes [] = some []
to_bytes (x ∷ xs) = elim (to_bytes xs) [
  | none ↦ none
  | some rest ↦ if ltb x 256 then some (x ∷ rest) else none
]

-- A digit below 16 in upper case.
abbrev pub hex_digit : ℕ → ℕ
hex_digit n = if ltb n 10 then n + b'0' else n - 10 + b'A'

-- `octets.hex().upper()`.
unfoldable pub hex_upper : List ℕ → Text
hex_upper [] = []
hex_upper (x ∷ xs) = hex_digit (x / 16) ∷ hex_digit (x % 16) ∷ hex_upper xs

-- The value of a digit, in either case.
unfoldable pub digit_value : ℕ → Option ℕ
digit_value c =
    if is_digit c
    then some (c - b'0')
    else if leb b'A' c && leb c b'F'
    then some (c - b'A' + 10)
    else if leb b'a' c && leb c b'f'
    then some (c - b'a' + 10)
    else none

-- `int(digits, base)` of two digits.
unfoldable pub two_digits : ℕ → ℕ → ℕ → Option ℕ
unfolding digit_value
two_digits base c d = elim (digit_value c) [
  | none ↦ none
  | some high ↦ elim (digit_value d) [
    | none ↦ none
    | some low ↦ if ltb high base && ltb low base then some (base * high + low) else none
  ]
]

-- The white space that `bytes.fromhex` skips between octets.
abbrev pub is_hex_space : ℕ → Bool
is_hex_space c = (leb 9 c && leb c 13) || c == 32

abbrev pub put_front : Option ℕ → Option (List ℕ) → Option (List ℕ)
put_front none _ = none
put_front (some x) none = none
put_front (some x) (some xs) = some (x ∷ xs)

-- `bytes.fromhex(s)`.
unfoldable pub from_hex : Text → Option (List ℕ)
unfolding two_digits
from_hex [] = some []
from_hex (c ∷ []) = if is_hex_space c then some [] else none
from_hex (c ∷ d ∷ s) = elim (is_hex_space c) [
  | true ↦ from_hex (d ∷ s)
  | false ↦ put_front (two_digits 16 c d) (from_hex s)
]

-- `_swap_semi_octets`.
unfoldable pub swap_semi_octets : Text → Text
swap_semi_octets [] = []
swap_semi_octets (x ∷ []) = x ∷ []
swap_semi_octets (x ∷ y ∷ s) = y ∷ x ∷ swap_semi_octets s

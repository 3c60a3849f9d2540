-- ===== src/Modem/Pdu/Alphabet.antt =====
-- src/sim_monitor/modem/pdu.py: the GSM 03.38 alphabet and texts as septets.
use sim_connectivity_monitor.Prelude.{
  ℕ, suc, true, false, ◌&&◌, not, Option, none, some, List, [], ◌∷◌, ◌++◌, Text, codes, get_elem?,
  dict_get, ◌==◌, if◌then◌else◌,
}

-- The basic table: row by row, with the control characters as their code points.
abbrev pub gsm7_basic : Text
gsm7_basic =
    codes "@£$¥èéùìòÇ"
    ++ (10 ∷ codes "Øø")
    ++ (13 ∷ codes "Åå")
    ++ codes "Δ_ΦΓΛΩΠΨΣΘΞ"
    ++ (27 ∷ codes "ÆæßÉ")
    ++ (32 ∷ 33 ∷ 34 ∷ codes "#¤%&'()*+,-./")
    ++ codes "0123456789:;<=>?"
    ++ codes "¡ABCDEFGHIJKLMNO"
    ++ codes "PQRSTUVWXYZÄÖÑÜ§"
    ++ codes "¿abcdefghijklmno"
    ++ codes "pqrstuvwxyzäöñüà"

-- The extension table, from codes to characters.
abbrev pub gsm7_ext : List (ℕ × ℕ)
gsm7_ext =
    (0x0a, 12)
    ∷ (0x14, b'^')
    ∷ (0x28, 123)
    ∷ (0x29, 125)
    ∷ (0x2f, 92)
    ∷ (0x3c, b'[')
    ∷ (0x3d, b'~')
    ∷ (0x3e, b']')
    ∷ (0x40, b'|')
    ∷ (0x65, 0x20ac)
    ∷ []

-- `_GSM7_BASIC_REV`: the index of a character in the table, which no other index has; the escape has
-- none. The indices start at `i`.
unfoldable pub basic_rev : ℕ → Text → ℕ → Option ℕ
basic_rev i [] ch = none
basic_rev i (c ∷ table) ch =
    let later = basic_rev (suc i) table ch in if c == ch && not (i == 27) then some i else later

-- `_GSM7_EXT_REV`.
unfoldable pub ext_rev : List (ℕ × ℕ) → ℕ → Option ℕ
ext_rev [] ch = none
ext_rev ((k, c) ∷ table) ch = let later = ext_rev table ch in if c == ch then some k else later

-- What `_text_to_gsm7_septets` appends for a character of these indices in the tables.
abbrev pub own_septets : Option ℕ → Option ℕ → Option (List ℕ)
own_septets (some i) _ = some (i ∷ [])
own_septets none (some k) = some (0x1b ∷ k ∷ [])
own_septets none none = none

unfoldable pub char_septets : ℕ → Option (List ℕ)
unfolding basic_rev ext_rev
char_septets ch = own_septets (basic_rev 0 gsm7_basic ch) (ext_rev gsm7_ext ch)

-- The septets of the characters in a row, if all have some.
abbrev pub joined : Option (List ℕ) → Option (List ℕ) → Option (List ℕ)
joined none _ = none
joined (some own) none = none
joined (some own) (some rest) = some (own ++ rest)

-- `_text_to_gsm7_septets`.
unfoldable pub text_to_septets : Text → Option (List ℕ)
unfolding char_septets
text_to_septets [] = some []
text_to_septets (ch ∷ text) = joined (char_septets ch) (text_to_septets text)

-- `GSM7_BASIC[code] if code < len(GSM7_BASIC) else "?"`.
unfoldable pub basic_char : ℕ → ℕ
basic_char code = elim (get_elem? gsm7_basic code) [ some c ↦ c | none ↦ b'?' ]

-- `GSM7_EXT.get(code, " ")`.
unfoldable pub ext_char : ℕ → ℕ
unfolding dict_get
ext_char code = elim (dict_get code gsm7_ext) [ some c ↦ c | none ↦ 32 ]

-- The loop of `_unpack_gsm7` over the septets.
unfoldable pub septets_to_text : List ℕ → Text
unfolding basic_char ext_char
septets_to_text [] = []
septets_to_text (code ∷ []) = basic_char code ∷ []
septets_to_text (code ∷ next ∷ rest) = elim (code == 0x1b) [
  | true ↦ ext_char next ∷ septets_to_text rest
  | false ↦ basic_char code ∷ septets_to_text (next ∷ rest)
]

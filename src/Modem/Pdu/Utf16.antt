-- ===== src/Modem/Pdu/Utf16.antt =====
-- The codec "utf-16-be" of Python: `text.encode`, and `octets.decode` with `errors="replace"`.
use sim_connectivity_monitor.Prelude.{
  ℕ, ◌+◌, ◌-◌, ◌*◌, ◌/◌, ◌%◌, Bool, true, false, ◌&&◌, Option, none, some, List, [], ◌∷◌, ◌++◌,
  Text, ltb, leb, if◌then◌else◌,
}
use sim_connectivity_monitor.Modem.Pdu.Alphabet.{joined}

abbrev pub is_high : ℕ → Bool
is_high u = leb 0xd800 u && ltb u 0xdc00

abbrev pub is_low : ℕ → Bool
is_low u = leb 0xdc00 u && ltb u 0xe000

abbrev pub unit_octets : ℕ → List ℕ
unit_octets u = u / 256 ∷ u % 256 ∷ []

-- The octets of one code point; a surrogate has none.
unfoldable pub char_octets : ℕ → Option (List ℕ)
char_octets c =
    if leb 0xd800 c && ltb c 0xe000
    then none
    else if ltb c 0x10000
    then some (unit_octets c)
    else some (
        unit_octets (0xd800 + (c - 0x10000) / 0x400)
        ++ unit_octets (0xdc00 + (c - 0x10000) % 0x400))

unfoldable pub utf16_encode : Text → Option (List ℕ)
unfolding char_octets
utf16_encode [] = some []
utf16_encode (c ∷ text) = joined (char_octets c) (utf16_encode text)

-- What is no code unit of a character is replaced by U+FFFD: an octet too many, a low surrogate by
-- itself, a high one with no low one behind it (at the end with the octet too many).
unfoldable pub utf16_decode : List ℕ → Text
utf16_decode [] = []
utf16_decode (a ∷ []) = 0xfffd ∷ []
utf16_decode (a ∷ b ∷ []) =
    (if is_high (a * 256 + b) then 0xfffd else if is_low (a * 256 + b) then 0xfffd else a * 256 + b)
    ∷ []
utf16_decode (a ∷ b ∷ c ∷ []) = elim (is_high (a * 256 + b)) [
  | true ↦ 0xfffd ∷ []
  | false ↦ (if is_low (a * 256 + b) then 0xfffd else a * 256 + b) ∷ 0xfffd ∷ []
]
utf16_decode (a ∷ b ∷ c ∷ d ∷ octets) = elim (is_high (a * 256 + b)) [
  | true ↦ elim (is_low (c * 256 + d)) [
    | true ↦
        (0x10000 + (a * 256 + b - 0xd800) * 0x400 + (c * 256 + d - 0xdc00)) ∷ utf16_decode octets
    | false ↦ 0xfffd ∷ utf16_decode (c ∷ d ∷ octets)
  ]
  | false ↦ (if is_low (a * 256 + b) then 0xfffd else a * 256 + b) ∷ utf16_decode (c ∷ d ∷ octets)
]

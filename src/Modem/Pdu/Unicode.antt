-- ===== src/Modem/Pdu/Unicode.antt =====
-- Texts in UCS2: what is encoded is decoded again, and a short text is received whole.
use sim_connectivity_monitor.Prelude.{
  ℕ, ◌+◌, ◌-◌, ◌*◌, ◌/◌, ◌%◌, ◌<◌, ◌≤◌, ◌≡◌, refl, ap, ◌∙◌, true, false, ◌⊎◌, inl, inr, Option,
  none, some, some_inj, List, [], ◌∷◌, ◌++◌, append-nil, Text, length, le→leb, All, All-append,
  arith,
}
use mathlib.Core.Path.{subst}
use sim_connectivity_monitor.Prelude.Failing.{◌>>=◌}
use sim_connectivity_monitor.Modem.Pdu.Alphabet.{joined}
use sim_connectivity_monitor.Modem.Pdu.Utf16.{
  is_high, is_low, unit_octets, char_octets, utf16_encode, utf16_decode,
}
use sim_connectivity_monitor.Modem.Pdu.Decode.{ucs2, decode_text, decode_user_data}
use sim_connectivity_monitor.Modem.Pdu.Encode.{encode_parts_ucs2}
use sim_connectivity_monitor.Modem.Pdu.Received.{no_header}
use sim_connectivity_monitor.Modem.Pdu.Message.{assemble-octets, read_submit-assembled}
use sim_connectivity_monitor.Modem.Pdu.Whole.{receive}

-- A unit that is no surrogate is a character by itself.
decode_unit :
    (a b u : ℕ) (rest : List ℕ)
    → a * 256 + b ≡ u
    → is_high u ≡ false
    → is_low u ≡ false
    → utf16_decode (a ∷ b ∷ rest) ≡ u ∷ utf16_decode rest
unfolding utf16_decode
decode_unit a b u [] e h l = rw (e, h, l) refl
decode_unit a b u (c ∷ []) e h l = ground (arith, e, h, l)
decode_unit a b u (c ∷ d ∷ rest) e h l = ground (arith, e, h, l)

-- A high and a low surrogate are one character.
decode_pair :
    (a b c d u v : ℕ) (rest : List ℕ)
    → a * 256 + b ≡ u
    → c * 256 + d ≡ v
    → is_high u ≡ true
    → is_low v ≡ true
    → utf16_decode (a ∷ b ∷ c ∷ d ∷ rest)
      ≡ (0x10000 + (u - 0xd800) * 0x400 + (v - 0xdc00)) ∷ utf16_decode rest
unfolding utf16_decode
decode_pair a b c d u v rest e f h l = ground (arith, e, f, h, l)

unit_value : (u : ℕ) → u / 256 * 256 + u % 256 ≡ u
unit_value u = omega arith

-- The octets of one code point: octets, and read back as the code point whatever follows.
IsOctetsOf : ℕ → List ℕ → Type 0
IsOctetsOf c own =
    All (λ x. x < 256) own × ((rest : List ℕ) → utf16_decode (own ++ rest) ≡ c ∷ utf16_decode rest)

-- The largest code point of Unicode.
abbrev pub max_code : ℕ
max_code = 0x10ffff

abbrev high_of : ℕ → ℕ
high_of c = 0xd800 + (c - 0x10000) / 0x400

abbrev low_of : ℕ → ℕ
low_of c = 0xdc00 + (c - 0x10000) % 0x400

-- What `char_octets` answers, case by case.
char_octets-cases :
    (c : ℕ) (own : List ℕ)
    → char_octets c ≡ some own
    → ((c < 0x10000) × (unit_octets c ≡ own) × (is_high c ≡ false) × (is_low c ≡ false))
      ⊎ ((0x10000 ≤ c) × (unit_octets (high_of c) ++ unit_octets (low_of c) ≡ own))
unfolding char_octets
char_octets-cases c own h = ground (arith, h)

unit-IsOctetsOf :
    (c : ℕ) → c < 0x10000 → is_high c ≡ false → is_low c ≡ false → IsOctetsOf c (unit_octets c)
unfolding IsOctetsOf
unit-IsOctetsOf c small h l = (
  (omega arith, (omega arith, tt)),
  λ rest. decode_unit (c / 256) (c % 256) c rest (unit_value c) h l,
)

pair-IsOctetsOf :
    (c : ℕ)
    → 0x10000 ≤ c
    → c ≤ max_code
    → IsOctetsOf c (unit_octets (high_of c) ++ unit_octets (low_of c))
unfolding IsOctetsOf
pair-IsOctetsOf c large small = (
  (omega arith, (omega arith, (omega arith, (omega arith, tt)))),
  λ rest.
      decode_pair (high_of c / 256) (high_of c % 256) (low_of c / 256) (low_of c % 256) (high_of c)
        (low_of c) rest (unit_value (high_of c)) (unit_value (low_of c)) (ground arith)
        (ground arith)
      ∙ ap (λ x. x ∷ utf16_decode rest) (omega arith),
)

char_octets-IsOctetsOf :
    (c : ℕ) (own : List ℕ) → c ≤ max_code → char_octets c ≡ some own → IsOctetsOf c own
char_octets-IsOctetsOf c own small h = elim (char_octets-cases c own h) [
  | inl (bmp, e, hi, lo) ↦ subst (λ o. IsOctetsOf c o) e (unit-IsOctetsOf c bmp hi lo)
  | inr (large, e) ↦ subst (λ o. IsOctetsOf c o) e (pair-IsOctetsOf c large small)
]

IsCodingOf : Text → List ℕ → Type 0
IsCodingOf text raw = All (λ x. x < 256) raw × (utf16_decode raw ≡ text)

joined-IsCodingOf :
    (c : ℕ) (text : Text) (own rest : Option (List ℕ)) (raw : List ℕ)
    → ((o : List ℕ) → own ≡ some o → IsOctetsOf c o)
    → ((r : List ℕ) → rest ≡ some r → IsCodingOf text r)
    → joined own rest ≡ some raw
    → IsCodingOf (c ∷ text) raw
unfolding IsOctetsOf IsCodingOf
joined-IsCodingOf c text none rest raw f g h = cc
joined-IsCodingOf c text (some own) none raw f g h = cc
joined-IsCodingOf c text (some own) (some rest) raw f g h =
    let (byte, char) = f own refl in
    let (byte_rest, coding) = g rest refl in
    subst (λ r. IsCodingOf (c ∷ text) r) (some_inj h)
      (All-append (λ x. x < 256) own rest byte byte_rest, char rest ∙ ap (λ t. c ∷ t) coding)

-- Decoding reads back what encoding writes, for every text of code points without surrogates.
pub utf16_decode-utf16_encode :
    (text : Text) (raw : List ℕ)
    → All (λ c. c ≤ max_code) text
    → utf16_encode text ≡ some raw
    → All (λ x. x < 256) raw × (utf16_decode raw ≡ text)
unfolding utf16_encode utf16_decode IsCodingOf
utf16_decode-utf16_encode [] raw a h = subst (λ r. IsCodingOf [] r) (some_inj h) (tt, refl)
utf16_decode-utf16_encode (c ∷ text) raw a h =
    joined-IsCodingOf c text (char_octets c) (utf16_encode text) raw
      (λ own. char_octets-IsOctetsOf c own a.0) (λ rest. utf16_decode-utf16_encode text rest a.1) h

decode_ucs2 :
    (raw : List ℕ)
    → decode_user_data 0x01 8 (length raw) raw ≡ some (no_header, utf16_decode raw, ucs2)
unfolding decode_user_data decode_text
decode_ucs2 raw = refl

-- To an address of octets, a text of code points of Unicode whose UTF-16 octets exist (it has
-- no surrogates) and are at most 140 is sent in UCS2, and the receiver has the text.
pub encode_parts_ucs2-receive :
    (da : List ℕ) (ref : ℕ) (text : Text) (raw : List ℕ)
    → All (λ x. x < 256) da
    → All (λ c. c ≤ max_code) text
    → utf16_encode text ≡ some raw
    → length raw ≤ 140
    → (encode_parts_ucs2 da text ref >>= receive (length da)) ≡ some text
unfolding encode_parts_ucs2 receive
encode_parts_ucs2-receive da ref text raw da_byte valid h size =
    let (byte, coding) = utf16_decode-utf16_encode text raw valid h in
    rw
      (
        h,
        le→leb (length raw) 140 size,
        assemble-octets da raw 8 (length raw) da_byte byte (omega arith) (omega arith) false,
        read_submit-assembled da raw 8 (length raw) da_byte byte (omega arith) (omega arith) false,
        decode_ucs2 raw,
        coding,
      )
      (ap (λ t. some t) (append-nil text))

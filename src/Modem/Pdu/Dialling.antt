-- ===== src/Modem/Pdu/Dialling.antt =====
-- Telephone numbers: `_decode_address` reads back what `_encode_address` writes.
use sim_connectivity_monitor.Prelude.{
  ℕ, ◌+◌, ◌-◌, ◌*◌, ◌/◌, ◌%◌, ◌<◌, ◌≤◌, ◌≡◌, refl, ap, ◌∙◌, sym, Bool, true, false, Bool-cases, not,
  ◌||◌, ◌&&◌, inl, inr, some, List, [], ◌∷◌, ◌++◌, append-nil, Text, length, length-append, take,
  keep, take-length_append, leb, All, All-append, is_digit, starts_with, starts_with-append, ◌==◌,
  if◌then◌else◌, arith,
}
use sim_connectivity_monitor.Modem.Pdu.Hex.{
  to_bytes, hex_digit, hex_upper, digit_value, from_hex, is_hex_space, swap_semi_octets,
}
use sim_connectivity_monitor.Modem.Pdu.HexLaws.{to_bytes-All, two_digits_of, from_hex_step}
use sim_connectivity_monitor.Modem.Pdu.Address.{decode_address, lstrip_plus, encode_address}

-- A hexadecimal digit in upper case.
abbrev is_hex_digit : ℕ → Bool
is_hex_digit c = is_digit c || (leb b'A' c && leb c b'F')

hex_value :
    (c : ℕ)
    → is_hex_digit c ≡ true
    → (h : ℕ) × (digit_value c ≡ some h) × (h < 16) × (hex_digit h ≡ c) × (is_hex_space c ≡ false)
unfolding digit_value
hex_value c e = elim (Bool-cases (is_digit c)) [
  | inl d ↦ (c - b'0', ground (arith, d), ground (arith, d), ground (arith, d), ground (arith, d))
  | inr d ↦ (
    c - b'A' + 10,
    ground (arith, d, e),
    ground (arith, d, e),
    ground (arith, d, e),
    ground (arith, d, e),
  )
]

octet_text :
    {c d : ℕ} {t : Text} (octets : List ℕ) (x h l : ℕ)
    → x / 16 ≡ h
    → x % 16 ≡ l
    → hex_digit h ≡ c
    → hex_digit l ≡ d
    → hex_upper octets ≡ t
    → hex_upper (x ∷ octets) ≡ c ∷ d ∷ t
unfolding hex_upper
octet_text octets x h l p q ch cl same = rw (p, q, ch, cl, same) refl

-- A text of hexadecimal digits, two for each octet, is the text of its octets.
from_hex_total :
    (t : Text)
    → All (λ c. is_hex_digit c ≡ true) t
    → length t % 2 ≡ 0
    → (octets : List ℕ) × (from_hex t ≡ some octets)
      × (hex_upper octets ≡ t)
      × All (λ x. x < 256) octets
      × (length t ≡ 2 * length octets)
unfolding from_hex hex_upper
from_hex_total [] a even = ([], refl, refl, tt, refl)
from_hex_total (c ∷ []) a even = absurd (omega (arith, even))
from_hex_total (c ∷ d ∷ t) a even =
    let (h, eh, hh, ch, space) = hex_value c a.0 in
    let (l, el, hl, cl, _) = hex_value d (a.1).0 in
    let (octets, read, same, byte, size) = from_hex_total t (a.1).1 (omega (arith, even)) in
    (
      (16 * h + l) ∷ octets,
      from_hex_step c d t space ∙ rw (two_digits_of c d h l eh el hh hl, read) refl,
      octet_text octets (16 * h + l) h l (omega (arith, hl)) (omega (arith, hl)) ch cl same,
      (omega (arith, hh, hl), byte),
      omega (arith, size),
    )

length-swap_semi_octets : (t : Text) → length (swap_semi_octets t) ≡ length t
unfolding swap_semi_octets
length-swap_semi_octets [] = refl
length-swap_semi_octets (x ∷ []) = refl
length-swap_semi_octets (x ∷ y ∷ t) = omega (arith, length-swap_semi_octets t)

All-swap_semi_octets {κ} : (P : ℕ → Type κ) (t : Text) → All P t → All P (swap_semi_octets t)
unfolding swap_semi_octets
All-swap_semi_octets P [] a = tt
All-swap_semi_octets P (x ∷ []) a = a
All-swap_semi_octets P (x ∷ y ∷ t) a = ((a.1).0, (a.0, All-swap_semi_octets P t (a.1).1))

-- Swapping twice changes nothing.
pub swap_semi_octets-twice : (t : Text) → swap_semi_octets (swap_semi_octets t) ≡ t
unfolding swap_semi_octets
swap_semi_octets-twice [] = refl
swap_semi_octets-twice (x ∷ []) = refl
swap_semi_octets-twice (x ∷ y ∷ t) = ap (λ r. x ∷ y ∷ r) (swap_semi_octets-twice t)

-- Decimal digits.
abbrev pub IsDigits : Text → Type 0
IsDigits t = All (λ c. is_digit c ≡ true) t

keep-IsDigits : (t : Text) → IsDigits t → keep (λ c. not (c == b'F')) t ≡ t
keep-IsDigits [] a = refl
keep-IsDigits (c ∷ t) a = ground (arith, a.0, keep-IsDigits t a.1)

hex-IsDigits : (t : Text) → IsDigits t → All (λ c. is_hex_digit c ≡ true) t
hex-IsDigits [] a = tt
hex-IsDigits (c ∷ t) a = (ground (arith, a.0), hex-IsDigits t a.1)

lstrip_plus-IsDigits : (t : Text) → IsDigits t → lstrip_plus t ≡ t
unfolding lstrip_plus
lstrip_plus-IsDigits [] a = refl
lstrip_plus-IsDigits (c ∷ t) a = ground (arith, a.0)

plus-IsDigits : (t : Text) → IsDigits t → starts_with t (b'+' ∷ []) ≡ false
unfolding starts_with
plus-IsDigits [] a = refl
plus-IsDigits (c ∷ t) a = ground (arith, a.0)

-- The digits as `_encode_address` pads them: to an even number, by "F".
abbrev padded : Text → Text
padded digits = if length digits % 2 == 0 then digits else digits ++ (b'F' ∷ [])

module _ (digits : Text) (decimal : IsDigits digits) where
  length-padded : length (padded digits) ≡ 2 * ((length digits + 1) / 2)
  length-padded = elim (Bool-cases (length digits % 2 == 0)) [
    | inl e ↦ rw e (ground (arith, e))
    | inr e ↦ rw e (ground (arith, e, length-append digits (b'F' ∷ [])))
  ]

  padded-hex : All (λ c. is_hex_digit c ≡ true) (padded digits)
  padded-hex = elim (Bool-cases (length digits % 2 == 0)) [
    | inl e ↦ rw e (hex-IsDigits digits decimal)
    | inr e ↦ rw e (
        All-append (λ c. is_hex_digit c ≡ true) digits (b'F' ∷ []) (hex-IsDigits digits decimal)
          (refl, tt))
  ]

  take-padded : take (length digits) (padded digits) ≡ digits
  take-padded = elim (Bool-cases (length digits % 2 == 0)) [
    | inl e ↦
        rw e (
          ap (λ r. take (length digits) r) (sym (append-nil digits)) ∙ take-length_append digits [])
    | inr e ↦ rw e (take-length_append digits (b'F' ∷ []))
  ]

  -- The octets of the padded digits, semi-octets swapped.
  bcd_total :
      (bcd : List ℕ) × (from_hex (swap_semi_octets (padded digits)) ≡ some bcd)
      × (hex_upper bcd ≡ swap_semi_octets (padded digits))
      × All (λ x. x < 256) bcd
      × (length bcd ≡ (length digits + 1) / 2)
  bcd_total =
      let size = length-swap_semi_octets (padded digits) in
      let (bcd, read, same, byte, count) =
        from_hex_total (swap_semi_octets (padded digits))
          (All-swap_semi_octets (λ c. is_hex_digit c ≡ true) (padded digits) padded-hex)
          (omega (arith, size, length-padded)) in
      (bcd, read, same, byte, omega (arith, size, count, length-padded))

  decode_digits :
      (toa : ℕ) (bcd : List ℕ)
      → hex_upper bcd ≡ swap_semi_octets (padded digits)
      → ((toa / 16 % 8) == 5) ≡ false
      → decode_address (toa ∷ bcd) (length digits)
        ≡ some (if toa / 16 % 8 == 1 then b'+' ∷ digits else digits)
  unfolding decode_address
  decode_digits toa bcd same h =
      rw
        (h, same, swap_semi_octets-twice (padded digits), take-padded, keep-IsDigits digits decimal)
        refl

-- A telephone number: decimal digits, with "+" in front of an international one.
abbrev pub number_of : Bool → Text → Text
number_of international digits = if international then b'+' ∷ digits else digits

abbrev pub toa_of : Bool → ℕ
toa_of international = if international then 0x91 else 0x81

front_octets :
    (digits : Text) (toa : ℕ)
    → length digits ≤ 255
    → toa < 256
    → to_bytes (length digits ∷ toa ∷ []) ≡ some (length digits ∷ toa ∷ [])
front_octets digits toa size small = to_bytes-All _ (omega (arith, size), (small, tt))

lstrip_plus-number : (digits : Text) → IsDigits digits → lstrip_plus (b'+' ∷ digits) ≡ digits
unfolding lstrip_plus
lstrip_plus-number digits a = lstrip_plus-IsDigits digits a

-- A number of at most 255 decimal digits, with "+" in front or not, is written as the count of
-- its digits, the type of number and octets, half as many as digits, rounded up; and decoding
-- the type and the octets by the count gives the number back.
pub decode_address-encode_address :
    (international : Bool) (digits : Text)
    → IsDigits digits
    → length digits ≤ 255
    → (bcd : List ℕ) × (encode_address (number_of international digits)
        ≡ some (length digits ∷ toa_of international ∷ bcd))
      × (decode_address (toa_of international ∷ bcd) (length digits)
          ≡ some (number_of international digits))
      × All (λ x. x < 256) bcd
      × (length bcd ≡ (length digits + 1) / 2)
unfolding encode_address
decode_address-encode_address true digits a size =
    let (bcd, read, same, byte, count) = bcd_total digits a in
    let strip : lstrip_plus (b'+' ∷ digits) ≡ digits = lstrip_plus-number digits a in
    (
      bcd,
      rw
          (
            strip,
            starts_with-append (b'+' ∷ []) digits,
            front_octets digits 0x91 size (omega arith),
            read,
          )
          refl,
      decode_digits digits a 0x91 bcd same refl,
      byte,
      count,
    )
decode_address-encode_address false digits a size =
    let (bcd, read, same, byte, count) = bcd_total digits a in
    (
      bcd,
      rw
          (
            lstrip_plus-IsDigits digits a,
            plus-IsDigits digits a,
            front_octets digits 0x81 size (omega arith),
            read,
          )
          refl,
      decode_digits digits a 0x81 bcd same refl,
      byte,
      count,
    )

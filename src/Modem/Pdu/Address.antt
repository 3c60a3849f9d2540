-- ===== src/Modem/Pdu/Address.antt =====
-- src/sim_monitor/modem/pdu.py: telephone numbers as address octets.
use sim_connectivity_monitor.Prelude.{
  ℕ, ◌*◌, ◌/◌, ◌%◌, not, Option, none, some, List, [], ◌∷◌, ◌++◌, Text, length, take, keep,
  starts_with, ◌==◌, if◌then◌else◌,
}
use sim_connectivity_monitor.Prelude.Failing.{◌>>=◌}
use sim_connectivity_monitor.Modem.Pdu.Alphabet.{septets_to_text}
use sim_connectivity_monitor.Modem.Pdu.Septets.{unpack_septets}
use sim_connectivity_monitor.Modem.Pdu.Hex.{to_bytes, hex_upper, from_hex, swap_semi_octets}

-- `_unpack_gsm7`.
unfoldable pub unpack_gsm7 : List ℕ → ℕ → ℕ → Text
unfolding unpack_septets septets_to_text
unpack_gsm7 octets septet_count skip_bits =
    septets_to_text (unpack_septets octets septet_count skip_bits)

-- `_decode_address`; bits 4 to 6 of the first octet are the type of number.
unfoldable pub decode_address : List ℕ → ℕ → Option Text
unfolding unpack_gsm7 hex_upper swap_semi_octets
decode_address [] length_digits = none
decode_address (toa ∷ number) length_digits =
    let alphanumeric = unpack_gsm7 number (length_digits * 4 / 7) 0 in
    let digits = take length_digits (swap_semi_octets (hex_upper number)) in
    let decimal = keep (λ c. not (c == b'F')) digits in
    if toa / 16 % 8 == 5
    then some alphanumeric
    else some (if toa / 16 % 8 == 1 then b'+' ∷ decimal else decimal)

-- `number.lstrip("+")`.
unfoldable pub lstrip_plus : Text → Text
lstrip_plus [] = []
lstrip_plus (c ∷ s) = let rest = lstrip_plus s in if c == b'+' then rest else c ∷ s

-- `_encode_address`; `bytes` refuses more than 255 digits, and `bytes.fromhex` what is no digit.
unfoldable pub encode_address : Text → Option (List ℕ)
encode_address number =
    let digits = lstrip_plus number in
    let toa = if starts_with number (b'+' ∷ []) then 0x91 else 0x81 in
    let even = if length digits % 2 == 0 then digits else digits ++ (b'F' ∷ []) in
    do
      front ← to_bytes (length digits ∷ toa ∷ [])
      bcd ← from_hex (swap_semi_octets even)
      some (front ++ bcd)

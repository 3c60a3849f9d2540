-- ===== src/Modem/Pdu/HexLaws.antt =====
-- Hexadecimal texts are read back, and `bytes` refuses exactly what is no octet.
use sim_connectivity_monitor.Prelude.{
  ℕ, ◌+◌, ◌*◌, ◌/◌, ◌%◌, ◌<◌, ◌≡◌, refl, ap, ◌∙◌, false, some, List, [], ◌∷◌, Text, length, All,
  arith,
}
use sim_connectivity_monitor.Modem.Pdu.Hex.{
  to_bytes, hex_digit, hex_upper, digit_value, two_digits, from_hex, is_hex_space, put_front,
}

pub to_bytes-All : (xs : List ℕ) → All (λ x. x < 256) xs → to_bytes xs ≡ some xs
unfolding to_bytes
to_bytes-All [] a = refl
to_bytes-All (x ∷ xs) a = ground (arith, a.0, to_bytes-All xs a.1)

digit_value-hex_digit : (n : ℕ) → n < 16 → digit_value (hex_digit n) ≡ some n
unfolding digit_value
digit_value-hex_digit n h = ground arith

hex_digit-not_space : (n : ℕ) → n < 16 → is_hex_space (hex_digit n) ≡ false
hex_digit-not_space n h = ground arith

pub two_digits_of :
    (c d high low : ℕ)
    → digit_value c ≡ some high
    → digit_value d ≡ some low
    → high < 16
    → low < 16
    → two_digits 16 c d ≡ some (16 * high + low)
unfolding two_digits
two_digits_of c d high low p q h k = ground (arith, p, q)

octet-digits : (x : ℕ) → x < 256 → two_digits 16 (hex_digit (x / 16)) (hex_digit (x % 16)) ≡ some x
octet-digits x h =
    two_digits_of _ _ (x / 16) (x % 16) (digit_value-hex_digit (x / 16) (omega arith))
      (digit_value-hex_digit (x % 16) (omega arith)) (omega arith) (omega arith)
    ∙ ap (λ n. some n) (omega arith)

pub from_hex_step :
    (c d : ℕ) (s : Text)
    → is_hex_space c ≡ false
    → from_hex (c ∷ d ∷ s) ≡ put_front (two_digits 16 c d) (from_hex s)
unfolding from_hex
from_hex_step c d s h = ground (arith, h)

-- `bytes.fromhex` reads back what `bytes.hex` writes.
pub from_hex-hex_upper : (xs : List ℕ) → All (λ x. x < 256) xs → from_hex (hex_upper xs) ≡ some xs
unfolding hex_upper from_hex
from_hex-hex_upper [] a = refl
from_hex-hex_upper (x ∷ xs) a =
    from_hex_step (hex_digit (x / 16)) (hex_digit (x % 16)) (hex_upper xs)
      (hex_digit-not_space (x / 16) (omega (arith, a.0)))
    ∙ rw (octet-digits x a.0, from_hex-hex_upper xs a.1) refl

pub length-hex_upper : (xs : List ℕ) → length (hex_upper xs) ≡ 2 * length xs
unfolding hex_upper
length-hex_upper [] = omega arith
length-hex_upper (x ∷ xs) = omega (arith, length-hex_upper xs)

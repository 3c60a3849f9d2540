-- ===== src/Modem/Pdu/Packing.antt =====
-- The packing loops write and read the digits of one number, and packed septets are read back.
use mathlib.Core.Path.{subst}
use sim_connectivity_monitor.Prelude.{
  ℕ, zero, suc, ◌+◌, ◌-◌, ◌*◌, ◌/◌, ◌%◌, ◌^◌, ◌<◌, ◌≤◌, ◌≡◌, ◌⊎◌, inl, inr, refl, ap, ◌∙◌, sym,
  List, [], ◌∷◌, length, All, arith,
}
use sim_connectivity_monitor.Prelude.Bits.{or_shifted, pow_suc, double}
use sim_connectivity_monitor.Modem.Pdu.Septets.{drain, pack_loop, unpack_loop}
use sim_connectivity_monitor.Modem.Pdu.Digits.{value, digits_of, digits_of_cong}

drain_done :
    (width fuel bits nbits : ℕ) → nbits < width → drain width fuel bits nbits ≡ ([], bits, nbits)
unfolding drain
drain_done width zero bits nbits h = refl
drain_done width (suc fuel) bits nbits h = ground arith

drain_round :
    (width fuel bits nbits : ℕ)
    → width ≤ nbits
    → nbits - width < width
    → 1 ≤ fuel
    → drain width fuel bits nbits ≡ (bits % 2 ^ width ∷ [], bits / 2 ^ width, nbits - width)
unfolding drain
drain_round width zero bits nbits h k f = absurd (omega arith)
drain_round width (suc fuel) bits nbits h k f =
    ground (arith, drain_done width fuel (bits / 2 ^ width) (nbits - width) k)

-- An item `x` of `item` bits, put above `bits`, and what stands above the item.
above : (x r item p : ℕ) → (x + item * r) * p ≡ x * p + item * (r * p)
above x r item p = omega arith

pub below_top : (x p n : ℕ) → x < suc n → x * p ≤ n * p
below_top x p n h = grind arith

pub pack_loop-digits :
    (septets : List ℕ) (bits nbits : ℕ)
    → All (λ s. s < 128) septets
    → nbits < 8
    → bits < 2 ^ nbits
    → pack_loop septets bits nbits
      ≡ digits_of 256 ((nbits + 7 * length septets + 7) / 8) (bits + value 128 septets * 2 ^ nbits)
unfolding pack_loop digits_of value
pack_loop-digits [] bits zero a h k = refl
pack_loop-digits [] bits (suc nbits) a h k = rw one (ground arith)
  where
    one : (suc nbits + 0 + 7) / 8 ≡ 1
    one = omega arith
pack_loop-digits (s ∷ septets) bits zero a h k = rw (or_shifted 0 bits s k) (
    pack_loop-digits septets (bits + s * 1) 7 a.1 (omega arith) (omega (arith, a.0))
    ∙ digits_of_cong 256 _ _ _ _ (omega arith) (omega arith))
pack_loop-digits (s ∷ septets) bits (suc nbits) a h k =
    rw (or_shifted (suc nbits) bits s k, round, count, low, high)
      (ap (λ r. b % 256 ∷ r)
        (ap (λ n. pack_loop septets (b / 256) n) left
          ∙ pack_loop-digits septets (b / 256) nbits a.1 (omega arith) fits))
  where
    b : ℕ
    b = bits + s * 2 ^ suc nbits

    left : suc nbits + 7 - 8 ≡ nbits
    left = omega arith

    round :
        drain 8 (suc nbits + 7) b (suc nbits + 7) ≡ (b % 2 ^ 8 ∷ [], b / 2 ^ 8, suc nbits + 7 - 8)
    round =
        drain_round 8 (suc nbits + 7) b (suc nbits + 7) (omega arith) (omega arith) (omega arith)

    count :
        (suc nbits + 7 * suc (length septets) + 7) / 8 ≡ suc ((nbits + 7 * length septets + 7) / 8)
    count = omega arith

    fits : b / 256 < 2 ^ nbits
    fits = omega (arith, pow_suc nbits, below_top s (2 ^ suc nbits) 127 a.0)

    whole :
        bits + (s + 128 * value 128 septets) * 2 ^ suc nbits
        ≡ b + 256 * (value 128 septets * 2 ^ nbits)
    whole =
        omega
          (arith, above s (value 128 septets) 128 (2 ^ suc nbits), double (value 128 septets) nbits)

    low : (bits + (s + 128 * value 128 septets) * 2 ^ suc nbits) % 256 ≡ b % 256
    low = omega (arith, whole)

    high :
        (bits + (s + 128 * value 128 septets) * 2 ^ suc nbits) / 256
        ≡ b / 256 + value 128 septets * 2 ^ nbits
    high = omega (arith, whole)

-- The loop over `octets` reads the digits of the number they make with the bits before them.
unfoldable pub ReadsDigits : List ℕ → Type 0
ReadsDigits octets =
    (c d : ℕ)
    → c < 2 ^ d
    → d < 7
    → unpack_loop octets c d
      ≡ digits_of 128 ((d + 8 * length octets) / 7) (c + value 256 octets * 2 ^ d)

unpack_one :
    (x : ℕ) (octets : List ℕ) (bits nbits : ℕ)
    → x < 256
    → nbits < 6
    → bits < 2 ^ nbits
    → ReadsDigits octets
    → unpack_loop (x ∷ octets) bits nbits
      ≡ digits_of 128
          ((nbits + 8 * suc (length octets)) / 7)
          (bits + (x + 256 * value 256 octets) * 2 ^ nbits)
unfolding unpack_loop digits_of ReadsDigits
unpack_one x octets bits nbits hx h k rest =
    rw (or_shifted nbits bits x k, round, count, low, high)
      (ap (λ r. b % 128 ∷ r)
        (ap (λ n. unpack_loop octets (b / 128) n) left
          ∙ rest (b / 128) (suc nbits) fits (omega arith)))
  where
    b : ℕ
    b = bits + x * 2 ^ nbits

    left : nbits + 8 - 7 ≡ suc nbits
    left = omega arith

    round : drain 7 (nbits + 8) b (nbits + 8) ≡ (b % 2 ^ 7 ∷ [], b / 2 ^ 7, nbits + 8 - 7)
    round = drain_round 7 (nbits + 8) b (nbits + 8) (omega arith) (omega arith) (omega arith)

    count : (nbits + 8 * suc (length octets)) / 7 ≡ suc ((suc nbits + 8 * length octets) / 7)
    count = omega arith

    fits : b / 128 < 2 ^ suc nbits
    fits = omega (arith, pow_suc nbits, below_top x (2 ^ nbits) 255 hx)

    whole :
        bits + (x + 256 * value 256 octets) * 2 ^ nbits
        ≡ b + 128 * (value 256 octets * 2 ^ suc nbits)
    whole =
        omega (arith, above x (value 256 octets) 256 (2 ^ nbits), double (value 256 octets) nbits)

    low : (bits + (x + 256 * value 256 octets) * 2 ^ nbits) % 128 ≡ b % 128
    low = omega (arith, whole)

    high :
        (bits + (x + 256 * value 256 octets) * 2 ^ nbits) / 128
        ≡ b / 128 + value 256 octets * 2 ^ suc nbits
    high = omega (arith, whole)

unpack_two :
    (x : ℕ) (octets : List ℕ) (bits : ℕ)
    → x < 256
    → bits < 64
    → ReadsDigits octets
    → unpack_loop (x ∷ octets) bits 6
      ≡ digits_of 128 ((6 + 8 * suc (length octets)) / 7) (bits + (x + 256 * value 256 octets) * 64)
unfolding unpack_loop digits_of ReadsDigits
unpack_two x octets bits hx k rest =
    rw (or_shifted 6 bits x k, count, low, high, low2, high2)
      (ap (λ r. b % 128 ∷ b / 128 % 128 ∷ r)
        (rest (b / 128 / 128) 0 (omega arith) (omega arith)
          ∙ digits_of_cong 128 _ _ _ _ (omega arith) (omega arith)))
  where
    b : ℕ
    b = bits + x * 64

    count : (6 + 8 * suc (length octets)) / 7 ≡ suc (suc ((8 * length octets) / 7))
    count = omega arith

    low : (bits + (x + 256 * value 256 octets) * 64) % 128 ≡ b % 128
    low = omega arith

    high : (bits + (x + 256 * value 256 octets) * 64) / 128 ≡ b / 128 + 128 * value 256 octets
    high = omega arith

    low2 : (b / 128 + 128 * value 256 octets) % 128 ≡ b / 128 % 128
    low2 = omega arith

    high2 : (b / 128 + 128 * value 256 octets) / 128 ≡ b / 128 / 128 + value 256 octets
    high2 = omega arith

pub unpack_loop-digits : (octets : List ℕ) → All (λ x. x < 256) octets → ReadsDigits octets
unfolding ReadsDigits unpack_loop digits_of value
unpack_loop-digits [] a c d h k = rw none_left refl
  where
    none_left : (d + 0) / 7 ≡ 0
    none_left = omega arith
unpack_loop-digits (x ∷ octets) a c d h k = elim (last_or_not d k) [
  | inl e ↦ unpack_one x octets c d a.0 e h (unpack_loop-digits octets a.1)
  | inr e ↦ sixth (unpack_loop-digits octets a.1) e
]
  where
    sixth :
        ReadsDigits octets
        → d ≡ 6
        → unpack_loop (x ∷ octets) c d
          ≡ digits_of 128
              ((d + 8 * suc (length octets)) / 7)
              (c + (x + 256 * value 256 octets) * 2 ^ d)
    sixth rest e =
        subst
          (λ n.
            unpack_loop (x ∷ octets) c n
            ≡ digits_of 128 ((n + 8 * suc (length octets)) / 7)
                (c + (x + 256 * value 256 octets) * 2 ^ n))
          (sym e) (unpack_two x octets c a.0 (subst (λ n. c < 2 ^ n) e h) rest)

    last_or_not : (n : ℕ) → n < 7 → (n < 6) ⊎ (n ≡ 6)
    last_or_not n l = grind arith

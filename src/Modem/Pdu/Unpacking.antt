-- ===== src/Modem/Pdu/Unpacking.antt =====
-- Septets packed behind a header are read back by `_unpack_gsm7`.
use native.Mathlib.Nat.{one-le-pow, pow-le-pow_right}
use sim_connectivity_monitor.Prelude.{
  ℕ, zero, suc, ◌+◌, ◌-◌, ◌*◌, ◌/◌, ◌^◌, ◌<◌, ◌≤◌, ◌≡◌, refl, ap, ◌∙◌, List, [], ◌∷◌, ◌++◌, take,
  drop, length, length-append, All, All-append, arith,
}
use sim_connectivity_monitor.Prelude.Bits.{pow_suc, double}
use sim_connectivity_monitor.Modem.Pdu.Septets.{pack_gsm7_with_offset, unpack_septets}
use sim_connectivity_monitor.Modem.Pdu.Digits.{
  value, digits_of, shift_down, take-digits_of, drop-digits_of, digits_of-septets, digits_of_cong,
  value-digits_of, value-septets_bound, step_7, step_8,
}
use sim_connectivity_monitor.Modem.Pdu.Packing.{pack_loop-digits, unpack_loop-digits, ReadsDigits}

shifted_below : (b a x : ℕ) → x < 2 ^ a → x * 2 ^ b < 2 ^ (b + a)
shifted_below zero a x h = rw zero_plus (omega (arith, h))
  where
    zero_plus : 0 + a ≡ a
    zero_plus = omega arith
shifted_below (suc b) a x h =
    rw suc_plus (omega (arith, double x b, pow_suc (b + a), shifted_below b a x h))
  where
    suc_plus : suc b + a ≡ suc (b + a)
    suc_plus = omega arith

scaled : (b a x : ℕ) → x * 2 ^ a * 2 ^ b ≡ x * 2 ^ (b + a)
scaled zero a x = omega (arith, ap (λ n. x * 2 ^ n) zero_plus)
  where
    zero_plus : 0 + a ≡ a
    zero_plus = omega arith
scaled (suc b) a x =
    omega
      (arith, double (x * 2 ^ a) b, scaled b a x, ap (λ n. x * 2 ^ n) suc_plus, double x (b + a))
  where
    suc_plus : suc b + a ≡ suc (b + a)
    suc_plus = omega arith

digits_of-IsByte : (n v : ℕ) → All (λ x. x < 256) (digits_of 256 n v)
unfolding digits_of
digits_of-IsByte zero v = tt
digits_of-IsByte (suc n) v = (omega arith, digits_of-IsByte n (v / 256))

length-digits_of : (base n v : ℕ) → length (digits_of base n v) ≡ n
unfolding digits_of
length-digits_of base zero v = refl
length-digits_of base (suc n) v = omega (arith, length-digits_of base n (v / base))

value-append :
    (xs ys : List ℕ) → value 256 (xs ++ ys) ≡ value 256 xs + value 256 ys * 2 ^ (8 * length xs)
unfolding value
value-append [] ys = omega arith
value-append (x ∷ xs) ys =
    omega (arith, value-append xs ys, ap (λ p. value 256 ys * p) (step_8 (length xs)))

value-bytes_bound : (xs : List ℕ) → All (λ x. x < 256) xs → value 256 xs < 2 ^ (8 * length xs)
unfolding value
value-bytes_bound [] a = omega arith
value-bytes_bound (x ∷ xs) a = omega (arith, a.0, step_8 (length xs), value-bytes_bound xs a.1)

shift_down-above : (k low v : ℕ) → low < 2 ^ (7 * k) → shift_down 128 k (low + v * 2 ^ (7 * k)) ≡ v
unfolding shift_down
shift_down-above zero low v h = omega (arith, h)
shift_down-above (suc k) low v h =
    ap (λ x. shift_down 128 k x) high ∙ shift_down-above k (low / 128) v (omega (arith, step_7 k))
  where
    high : (low + v * 2 ^ (7 * suc k)) / 128 ≡ low / 128 + v * 2 ^ (7 * k)
    high = omega (arith, ap (λ p. v * p) (step_7 k))

module _ (septets : List ℕ) (fill : ℕ) (septet : All (λ s. s < 128) septets) (h : fill < 8) where
  -- The number that the packed septets make: that of the septets, `fill` bits up.
  packed : ℕ
  packed = value 128 septets * 2 ^ fill

  octets : ℕ
  octets = (fill + 7 * length septets + 7) / 8

  pack-digits : pack_gsm7_with_offset septets fill ≡ digits_of 256 octets packed
  unfolding pack_gsm7_with_offset packed octets
  pack-digits =
      pack_loop-digits septets 0 fill septet h (one-le-pow fill 2 (omega arith))
      ∙ digits_of_cong 256 _ _ _ _ refl (omega arith)

  packed_bound : packed < 2 ^ (8 * octets)
  unfolding packed octets
  packed_bound = omega (
    arith,
    shifted_below fill (7 * length septets) (value 128 septets)
        (value-septets_bound septets septet),
    pow-le-pow_right {n = 2} (omega arith) (rounded_up),
  )
    where
      rounded_up : fill + 7 * length septets ≤ 8 * ((fill + 7 * length septets + 7) / 8)
      rounded_up = omega arith

  value-pack : value 256 (pack_gsm7_with_offset septets fill) ≡ value 128 septets * 2 ^ fill
  unfolding packed
  value-pack = ap (λ r. value 256 r) pack-digits ∙ value-digits_of octets packed packed_bound

  -- The octets that `_pack_gsm7_with_offset` writes: bytes, and just as many as the bits need.
  pub pack-IsByte : All (λ x. x < 256) (pack_gsm7_with_offset septets fill)
  pack-IsByte = rw pack-digits (digits_of-IsByte octets packed)

  pub length-pack :
      length (pack_gsm7_with_offset septets fill) ≡ (fill + 7 * length septets + 7) / 8
  unfolding octets
  length-pack = ap (λ r. length r) pack-digits ∙ length-digits_of 256 octets packed

  -- Septets below 128 that are packed with fewer than 8 fill bits, behind octets that the fill
  -- bits bring to a boundary between septets, are read back by the unpacking of as many septets
  -- from that boundary on.
  pub unpack-pack :
      (header : List ℕ) (k : ℕ)
      → All (λ x. x < 256) header
      → 8 * length header + fill ≡ 7 * k
      → unpack_septets (header ++ pack_gsm7_with_offset septets fill) (length septets) (7 * k)
        ≡ septets
  unfolding unpack_septets ReadsDigits
  unpack-pack header k byte aligned =
      ap (λ r. take (length septets) (drop (7 * k / 7) r))
        (unpack_loop-digits ud ud-IsByte 0 0 (omega arith) (omega arith)
          ∙ digits_of_cong 128 _ _ _ _ refl total)
      ∙ ap (λ n. take (length septets) (drop n (digits_of 128 count number))) skipped
      ∙ ap (λ r. take (length septets) r) (drop-digits_of 128 k count (count - k) number enough.0)
      ∙ take-digits_of 128 (length septets) (count - k) (shift_down 128 k number) enough.1
      ∙ ap (λ v. digits_of 128 (length septets) v) shifted
      ∙ digits_of-septets septets septet
    where
      ud : List ℕ
      ud = header ++ pack_gsm7_with_offset septets fill

      ud-IsByte : All (λ x. x < 256) ud
      ud-IsByte = All-append (λ x. x < 256) header _ byte pack-IsByte

      number : ℕ
      number = value 256 header + value 128 septets * 2 ^ (7 * k)

      count : ℕ
      count = (0 + 8 * length ud) / 7

      total : 0 + value 256 ud * 2 ^ 0 ≡ number
      total = omega (
        arith,
        value-append header (pack_gsm7_with_offset septets fill),
        ap (λ v. v * 2 ^ (8 * length header)) value-pack,
        scaled (8 * length header) fill (value 128 septets),
        ap (λ n. value 128 septets * 2 ^ n) aligned,
      )

      skipped : 7 * k / 7 ≡ k
      skipped = omega arith

      enough : (count ≡ k + (count - k)) × (length septets ≤ count - k)
      enough =
          omega
            (arith, length-append header (pack_gsm7_with_offset septets fill), length-pack, aligned)

      shifted : shift_down 128 k number ≡ value 128 septets
      shifted = shift_down-above k (value 256 header) (value 128 septets) (
          omega (
            arith,
            value-bytes_bound header byte,
            pow-le-pow_right {n = 2} (omega arith) {i = 8 * length header} {j = 7 * k}
                (omega (arith, aligned)),
          ))

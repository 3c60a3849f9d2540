-- ===== src/Modem/Pdu/Digits.antt =====
-- Numbers and their digits in a base, lowest first: what the packing loops are compared with.
use sim_connectivity_monitor.Prelude.{
  ℕ, zero, suc, ◌+◌, ◌∙◌, ◌*◌, ◌/◌, ◌%◌, ◌^◌, ◌<◌, ◌≤◌, ◌≡◌, refl, ap, List, [], ◌∷◌, take, drop,
  length, All, arith,
}
use native.Mathlib.Numerals.{towards_suc}

-- The number that a list of digits stands for.
unfoldable pub value : ℕ → List ℕ → ℕ
value base [] = 0
value base (x ∷ xs) = x + base * value base xs

-- The lowest `n` digits of a number.
unfoldable pub digits_of : ℕ → ℕ → ℕ → List ℕ
digits_of base zero v = []
digits_of base (suc n) v = v % base ∷ digits_of base n (v / base)

-- `v` without its lowest `n` digits.
unfoldable pub shift_down : ℕ → ℕ → ℕ → ℕ
shift_down base zero v = v
shift_down base (suc n) v = shift_down base n (v / base)

pub take-digits_of : (base n k v : ℕ) → n ≤ k → take n (digits_of base k v) ≡ digits_of base n v
unfolding digits_of
take-digits_of base zero k v h = refl
take-digits_of base (suc n) zero v h = absurd (omega arith)
take-digits_of base (suc n) (suc k) v h =
    ap (λ r. v % base ∷ r) (take-digits_of base n k (v / base) (omega arith))

pub drop-digits_of :
    (base n k m v : ℕ)
    → k ≡ n + m
    → drop n (digits_of base k v) ≡ digits_of base m (shift_down base n v)
unfolding digits_of shift_down
drop-digits_of base zero k m v h = rw whole refl
  where
    whole : k ≡ m
    whole = omega arith
drop-digits_of base (suc n) zero m v h = absurd (omega arith)
drop-digits_of base (suc n) (suc k) m v h = drop-digits_of base n k m (v / base) (omega arith)

pub step_7 : (n : ℕ) → 2 ^ (7 * suc n) ≡ 128 * 2 ^ (7 * n)
step_7 n = ap (λ e. 2 ^ e) (expand n) ∙ simp towards_suc (omega arith)
  where
    expand : (k : ℕ) → 7 * suc k ≡ 7 * k + 7
    expand k = omega arith

pub step_8 : (n : ℕ) → 2 ^ (8 * suc n) ≡ 256 * 2 ^ (8 * n)
step_8 n = ap (λ e. 2 ^ e) (expand n) ∙ simp towards_suc (omega arith)
  where
    expand : (k : ℕ) → 8 * suc k ≡ 8 * k + 8
    expand k = omega arith

pub digits_of_cong : (base n k v w : ℕ) → n ≡ k → v ≡ w → digits_of base n v ≡ digits_of base k w
digits_of_cong base n k v w h e = rw (h, e) refl

-- The digits of the septets are the septets again.
pub digits_of-septets :
    (xs : List ℕ) → All (λ x. x < 128) xs → digits_of 128 (length xs) (value 128 xs) ≡ xs
unfolding value digits_of
digits_of-septets [] a = refl
digits_of-septets (x ∷ xs) a = rw (low, high, digits_of-septets xs a.1) refl
  where
    low : (x + 128 * value 128 xs) % 128 ≡ x
    low = omega (arith, a.0)

    high : (x + 128 * value 128 xs) / 128 ≡ value 128 xs
    high = omega (arith, a.0)

-- The value of enough octets of `v` is `v`.
pub value-digits_of : (n v : ℕ) → v < 2 ^ (8 * n) → value 256 (digits_of 256 n v) ≡ v
unfolding value digits_of
value-digits_of zero v h = omega arith
value-digits_of (suc n) v h = omega (arith, value-digits_of n (v / 256) (omega (arith, step_8 n)))

pub value-septets_bound : (xs : List ℕ) → All (λ x. x < 128) xs → value 128 xs < 2 ^ (7 * length xs)
unfolding value
value-septets_bound [] a = omega arith
value-septets_bound (x ∷ xs) a = omega (arith, a.0, step_7 (length xs), value-septets_bound xs a.1)

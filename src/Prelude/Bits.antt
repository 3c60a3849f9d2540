-- ===== src/Prelude/Bits.antt =====
-- Python's `|` of numbers whose bits do not overlap.
use Prim.Native.Nat.{
  ℕ, zero, suc, ◌+◌, ◌*◌, ◌/◌, ◌%◌, ◌^◌, ◌≤◌, ◌<◌, max, bit_or, digits, bit_or-bitwise,
}
use mathlib.Core.Path.{◌≡◌, refl, ap}
use native.Mathlib.Omega.{arith}

-- The law of the lowest bit, from the digits that the native operation stands for.
digits_enough :
    (f g x y : ℕ) → x ≤ f → x ≤ g → digits (λ b. b) max f x y ≡ digits (λ b. b) max g x y
digits_enough zero zero x y hf hg = refl
digits_enough (suc f) zero zero y hf hg = refl
digits_enough (suc f) zero (suc x) y hf hg = absurd (omega arith)
digits_enough zero (suc g) zero y hf hg = refl
digits_enough zero (suc g) (suc x) y hf hg = absurd (omega arith)
digits_enough (suc f) (suc g) zero y hf hg = refl
digits_enough (suc f) (suc g) (suc x) y hf hg =
    omega (arith, digits_enough f g (suc x / 2) (y / 2) (omega arith) (omega arith))

or_zero : (y : ℕ) → bit_or 0 y ≡ y
or_zero y = bit_or-bitwise 0 y

or_step : (x y : ℕ) → bit_or x y ≡ bit_or (x / 2) (y / 2) * 2 + max (x % 2) (y % 2)
or_step zero y = omega (arith, or_zero y, or_zero (y / 2))
or_step (suc x) y = omega (
  arith,
  digits_enough x (suc x / 2) (suc x / 2) (y / 2) (omega arith) (omega arith),
  bit_or-bitwise (suc x) y,
  bit_or-bitwise (suc x / 2) (y / 2),
)

pub pow_suc : (n : ℕ) → 2 ^ suc n ≡ 2 * 2 ^ n
pow_suc n = omega arith

pub double : (y n : ℕ) → y * 2 ^ suc n ≡ 2 * (y * 2 ^ n)
double y n = omega (arith, ap (λ p. y * p) (pow_suc n))

-- A number below 2 ^ n and one whose lowest n bits are zero: `|` adds them.
pub or_shifted : (n x y : ℕ) → x < 2 ^ n → bit_or x (y * 2 ^ n) ≡ x + y * 2 ^ n
or_shifted zero zero y h = omega (arith, or_zero (y * 1))
or_shifted zero (suc x) y h = absurd (omega arith)
or_shifted (suc n) x y h = omega (
  arith,
  or_step x (y * 2 ^ suc n),
  double y n,
  ap (λ z. bit_or (x / 2) z) half,
  or_shifted n (x / 2) y (omega (arith, pow_suc n)),
)
  where
    half : y * 2 ^ suc n / 2 ≡ y * 2 ^ n
    half = omega (arith, double y n)

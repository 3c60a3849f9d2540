-- ===== src/Prelude/Decimal.antt =====
-- Decimal numbers in texts: `str(n)`, `int(s)` and `s.isdigit()` in ASCII.
use Prim.Native.Nat.{ℕ, zero, suc, ◌+◌, ◌-◌, ◌*◌, ◌/◌, ◌%◌, ◌<◌}
use mathlib.Core.Path.{◌≡◌, refl, ◌∙◌}
use mathlib.Core.Bool.{Bool, true, false, ◌&&◌}
use mathlib.Core.List.{[], ◌∷◌, ◌++◌}
use native.Mathlib.Omega.{arith}
use sim_connectivity_monitor.Prelude.Tests.{ltb, if◌then◌else◌, Bool-cases}
use mathlib.Core.Logic.{inl, inr}
use sim_connectivity_monitor.Prelude.Texts.{Text, is_digit}

-- A text of digits only, perhaps empty.
unfoldable pub all_digits : Text → Bool
all_digits [] = true
all_digits (c ∷ s) = is_digit c && all_digits s

-- `s.isdigit()`, which no empty text is.
unfoldable pub is_number : Text → Bool
unfolding all_digits
is_number [] = false
is_number (c ∷ s) = is_digit c && all_digits s

-- `int(s)` of digits, behind those already read.
unfoldable pub number_from : ℕ → Text → ℕ
number_from n [] = n
number_from n (c ∷ s) = number_from (n * 10 + (c - b'0')) s

-- `str(n)`, with fuel.
unfoldable pub decimal_digits : ℕ → ℕ → Text
decimal_digits zero n = []
decimal_digits (suc fuel) n =
    let front = decimal_digits fuel (n / 10) in
    if ltb n 10 then (n + b'0') ∷ [] else front ++ ((n % 10 + b'0') ∷ [])

-- One more than the number is enough fuel.
unfoldable pub decimal : ℕ → Text
unfolding decimal_digits
decimal n = decimal_digits (suc n) n

number_from-append :
    (a c : ℕ) (s : Text) → number_from a (s ++ (c ∷ [])) ≡ number_from a s * 10 + (c - b'0')
unfolding number_from
number_from-append a c [] = refl
number_from-append a c (d ∷ s) = number_from-append (a * 10 + (d - b'0')) c s

all_digits-append :
    (s : Text) (c : ℕ) → all_digits s ≡ true → is_digit c ≡ true → all_digits (s ++ (c ∷ [])) ≡ true
unfolding all_digits
all_digits-append [] c h k = ground (arith, k)
all_digits-append (d ∷ s) c h k = ground (arith, all_digits-append s c, h, k)

number_from-digits : (fuel n : ℕ) → n < fuel → number_from 0 (decimal_digits fuel n) ≡ n
unfolding decimal_digits number_from
number_from-digits zero n h = absurd (omega (arith, h))
number_from-digits (suc fuel) n h = elim (Bool-cases (ltb n 10)) [
  | inl e ↦ rw e (omega arith)
  | inr e ↦ rw e (
      number_from-append 0 (n % 10 + b'0') (decimal_digits fuel (n / 10))
      ∙ rw (number_from-digits fuel (n / 10) (ground (arith, h, e))) (omega arith))
]

-- A number is read back from its decimal text.
pub number_from-decimal : (n : ℕ) → number_from 0 (decimal n) ≡ n
unfolding decimal
number_from-decimal n = number_from-digits (suc n) n (omega arith)

digits-all_digits : (fuel n : ℕ) → n < fuel → all_digits (decimal_digits fuel n) ≡ true
unfolding decimal_digits all_digits
digits-all_digits zero n h = absurd (omega (arith, h))
digits-all_digits (suc fuel) n h = elim (Bool-cases (ltb n 10)) [
  | inl e ↦ rw e (ground (arith, e))
  | inr e ↦ rw e (
      all_digits-append (decimal_digits fuel (n / 10)) (n % 10 + b'0')
        (digits-all_digits fuel (n / 10) (ground (arith, h, e))) (ground arith))
]

pub decimal-all_digits : (n : ℕ) → all_digits (decimal n) ≡ true
unfolding decimal
decimal-all_digits n = digits-all_digits (suc n) n (omega arith)

-- No number is written as an empty text.
pub decimal-front : (n : ℕ) → (c : ℕ) × (s : Text) × (decimal n ≡ c ∷ s)
unfolding decimal decimal_digits
decimal-front n = elim (Bool-cases (ltb n 10)) [
  | inl e ↦ (n + b'0', [], rw e refl)
  | inr e ↦ rw e (front_of (decimal_digits n (n / 10)) (n % 10 + b'0'))
]
  where
    front_of : (s : Text) (d : ℕ) → (c : ℕ) × (t : Text) × (s ++ (d ∷ []) ≡ c ∷ t)
    front_of [] d = (d, [], refl)
    front_of (c ∷ s) d = (c, s ++ (d ∷ []), refl)

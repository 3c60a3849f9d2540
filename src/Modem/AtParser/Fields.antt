-- ===== src/Modem/AtParser/Fields.antt =====
-- What is spelled in front of a text is read, and the rest is left.
use sim_connectivity_monitor.Prelude.{
  ℕ, ◌≡◌, refl, ap, ◌∙◌, Bool, true, false, some, [], ◌∷◌, ◌++◌, Text, All, is_digit, all_digits,
  number_from, decimal, decimal-front, decimal-all_digits, number_from-decimal, lstrip,
  starts_with-append, drop-length_append, arith,
}
use sim_connectivity_monitor.Modem.AtParser.Scan.{
  literal, span, read_number, number, not_quote, quoted,
}

pub literal-append : (p s : Text) → literal p (p ++ s) ≡ some s
unfolding literal
literal-append p s = rw (starts_with-append p s, drop-length_append p s) refl

pub span-append :
    (p : ℕ → Bool) (front : Text) (c : ℕ) (rest : Text)
    → All (λ x. p x ≡ true) front
    → p c ≡ false
    → span p (front ++ (c ∷ rest)) ≡ (front, c ∷ rest)
unfolding span
span-append p [] c rest a h = rw h refl
span-append p (x ∷ front) c rest a h = rw (a.0, span-append p front c rest a.1 h) refl

pub span-All : (p : ℕ → Bool) (s : Text) → All (λ x. p x ≡ true) s → span p s ≡ (s, [])
unfolding span
span-All p [] a = refl
span-All p (x ∷ s) a = rw (a.0, span-All p s a.1) refl

All-digits : (s : Text) → all_digits s ≡ true → All (λ x. is_digit x ≡ true) s
unfolding all_digits
All-digits [] h = tt
All-digits (c ∷ s) h = (ground (arith, h), All-digits s (ground (arith, h)))

read_front :
    (s : Text) (d : ℕ) (t rest : Text)
    → s ≡ d ∷ t
    → read_number (s, rest) ≡ some (number_from 0 s, rest)
read_front s d t rest e = rw e refl

lstrip-front : (d : ℕ) (s : Text) → is_digit d ≡ true → lstrip (d ∷ s) ≡ d ∷ s
unfolding lstrip
lstrip-front d s h = ground (arith, h)

lstrip-digits :
    (s : Text) (d : ℕ) (t rest : Text)
    → s ≡ d ∷ t
    → all_digits s ≡ true
    → lstrip (s ++ rest) ≡ s ++ rest
unfolding all_digits
lstrip-digits [] d t rest e h = cc
lstrip-digits (x ∷ s) d t rest e h = lstrip-front x (s ++ rest) (ground (arith, h))

-- No blanks are in front of a number.
pub lstrip-decimal : (n : ℕ) (rest : Text) → lstrip (decimal n ++ rest) ≡ decimal n ++ rest
lstrip-decimal n rest =
    let (d, s, e) = decimal-front n in lstrip-digits (decimal n) d s rest e (decimal-all_digits n)

-- A number is read from its decimal text.
pub number-decimal :
    (n c : ℕ) (rest : Text)
    → is_digit c ≡ false
    → number (decimal n ++ (c ∷ rest)) ≡ some (n, c ∷ rest)
unfolding number
number-decimal n c rest h =
    let (d, s, e) = decimal-front n in
    ap read_number
      (span-append is_digit (decimal n) c rest (All-digits (decimal n) (decimal-all_digits n)) h)
    ∙ read_front (decimal n) d s (c ∷ rest) e
    ∙ rw (number_from-decimal n) refl

-- A text without quotes is read from between its quotes.
pub quoted-append :
    (s rest : Text)
    → All (λ x. not_quote x ≡ true) s
    → quoted (34 ∷ (s ++ (34 ∷ rest))) ≡ some (s, rest)
unfolding quoted
quoted-append s rest a = rw (span-append not_quote s 34 rest a refl) refl

-- ===== src/Traffic/Line/Spelled.antt =====
-- How the words of a line are spelled, and what that says of them.
use sim_connectivity_monitor.Prelude.{
  ℕ, ◌≡◌, refl, ap, ◌∙◌, true, false, not, ◌||◌, All-append, Option, none, some, List, [], ◌∷◌,
  ◌++◌, map, Text, All, any, is_empty, is_space, is_digit, is_lower, is_upper, is_number,
  all_digits, decimal, decimal-front, decimal-all_digits, number_from-decimal, lower, to_lower,
  ◌==◌, arith,
}
use sim_connectivity_monitor.Traffic.Line.{is_key_char, fields_of, count}
use sim_connectivity_monitor.Traffic.Line.Words.{IsWord, IsBare, fields_of-keyed}

abbrev pub IsKey : Text → Type 0
IsKey key = All (λ c. is_key_char c ≡ true) key

abbrev pub keyed : Text × Text → Text
keyed (key, value) = key ++ (b'=' ∷ value)

-- A key of the characters of keys, and a value that is a word.
abbrev pub IsEntry : Text × Text → Type 0
IsEntry (key, value) =
    ((is_empty key ≡ false) × (any (λ c. not (is_key_char c)) key ≡ false)) × IsWord value

abbrev pub optional_word : Option Text → List Text → List Text
optional_word none words = words
optional_word (some word) words = word ∷ words

-- A protocol is in lower case, a state in upper case with underscores, and addresses have no blanks.
abbrev pub IsProto : Text → Type 0
IsProto s = All (λ c. is_lower c ≡ true) s × (is_empty s ≡ false)

abbrev pub IsState : Option Text → Type 0
IsState none = Unit
IsState (some s) = All (λ c. (is_upper c || c == b'_') ≡ true) s × (any is_upper s ≡ true)

abbrev pub IsSpaceless : Text → Type 0
IsSpaceless s = All (λ c. is_space c ≡ false) s

All-map : {P Q : ℕ → Type 0} → ((c : ℕ) → P c → Q c) → (s : Text) → All P s → All Q s
All-map f [] a = tt
All-map f (c ∷ s) a = (f c a.0, All-map f s a.1)

All-digits : (s : Text) → all_digits s ≡ true → All (λ c. is_digit c ≡ true) s
unfolding all_digits
All-digits [] h = tt
All-digits (c ∷ s) h = (ground (arith, h), All-digits s (ground (arith, h)))

pub decimal-is_number : (n : ℕ) → is_number (decimal n) ≡ true
unfolding all_digits is_number
decimal-is_number n = let (c, s, e) = decimal-front n in go (decimal n) e (decimal-all_digits n)
  where
    go : {c : ℕ} {t : Text} (s : Text) → s ≡ c ∷ t → all_digits s ≡ true → is_number s ≡ true
    go [] e h = cc
    go (d ∷ s) e h = h

pub decimal-IsWord : (n : ℕ) → IsWord (decimal n)
decimal-IsWord n =
    let (c, s, e) = decimal-front n in
    (
      All-map (λ c h. ground (arith, h)) (decimal n)
          (All-digits (decimal n) (decimal-all_digits n)),
      rw e refl,
    )

pub decimal-IsBare : (n : ℕ) → IsBare (decimal n)
decimal-IsBare n =
    All-map (λ c h. ground (arith, h)) (decimal n) (All-digits (decimal n) (decimal-all_digits n))

pub lower-IsSpaceless : (s : Text) → All (λ c. is_lower c ≡ true) s → IsSpaceless s
lower-IsSpaceless = All-map (λ c h. ground (arith, h))

pub lower-IsBare : (s : Text) → All (λ c. is_lower c ≡ true) s → IsBare s
lower-IsBare = All-map (λ c h. ground (arith, h))

pub lower_same : (s : Text) → All (λ c. is_lower c ≡ true) s → lower s ≡ s
unfolding lower to_lower
lower_same [] a = refl
lower_same (c ∷ s) a = ground (arith, a.0, lower_same s a.1)

pub state-IsSpaceless : (s : Text) → IsState (some s) → IsSpaceless s
state-IsSpaceless s h = All-map (λ c k. ground (arith, k)) s h.0

pub state-IsBare : (s : Text) → IsState (some s) → IsBare s
state-IsBare s h = All-map (λ c k. ground (arith, k)) s h.0

pub state_no_lower :
    (s : Text) → All (λ c. (is_upper c || c == b'_') ≡ true) s → any is_lower s ≡ false
state_no_lower [] a = refl
state_no_lower (c ∷ s) a = ground (arith, a.0, state_no_lower s a.1)

pub count-decimal : (n : ℕ) → count (decimal n) ≡ some n
unfolding count
count-decimal n = rw (decimal-is_number n, number_from-decimal n) refl

IsKey-of_any : (key : Text) → any (λ c. not (is_key_char c)) key ≡ false → IsKey key
IsKey-of_any [] h = tt
IsKey-of_any (c ∷ key) h = (ground (arith, h), IsKey-of_any key (ground (arith, h)))

keyed-IsWord : (e : Text × Text) → IsEntry e → IsWord (keyed e)
keyed-IsWord ([], value) h = cc
keyed-IsWord (a ∷ key, value) h = (
  All-append (λ c. is_space c ≡ false) (a ∷ key) (b'=' ∷ value)
      (All-map (λ c e. ground (arith, e)) (a ∷ key) (IsKey-of_any (a ∷ key) h.0.1)) (refl, h.1.0),
  refl,
)

pub IsWord-entries :
    (es : List (Text × Text)) (ws : List Text)
    → All IsEntry es
    → All IsWord ws
    → All IsWord (map keyed es ++ ws)
IsWord-entries [] ws a b = b
IsWord-entries (e ∷ es) ws a b = (keyed-IsWord e a.0, IsWord-entries es ws a.1 b)

-- The entries are the fields among their words.
pub fields_of-entries :
    (es : List (Text × Text)) (ws : List Text)
    → All IsEntry es
    → fields_of (map keyed es ++ ws) ≡ es ++ fields_of ws
fields_of-entries [] ws a = refl
fields_of-entries (([], value) ∷ es) ws a = cc
fields_of-entries ((c ∷ key, value) ∷ es) ws a =
    fields_of-keyed c key value _ (IsKey-of_any (c ∷ key) a.0.0.1) a.0.1.1
    ∙ ap (λ fields. (c ∷ key, value) ∷ fields) (fields_of-entries es ws a.1)

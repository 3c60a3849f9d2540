-- ===== src/Traffic/Line/Words.antt =====
-- The words of a line, and the fields among them.
use sim_connectivity_monitor.Prelude.{
  ℕ, ◌≡◌, refl, ap, ◌∙◌, true, false, none, some, List, [], ◌∷◌, ◌++◌, append-nil, append_assoc,
  Text, codes, All, is_empty, is_space, rstrip, contains, starts_with, ◌==◌, if◌then◌else◌, arith,
  Bool-cases, inl, inr,
}
use sim_connectivity_monitor.Traffic.Line.{
  words_from, split_words, is_key_char, field_from, fields_of,
}

-- Words with a blank between them.
abbrev pub spaced_behind : List Text → Text
spaced_behind [] = []
spaced_behind (w ∷ ws) = 32 ∷ (w ++ spaced_behind ws)

unfoldable pub spaced : List Text → Text
spaced [] = []
spaced (w ∷ ws) = w ++ spaced_behind ws

abbrev pub IsWord : Text → Type 0
IsWord w = All (λ c. is_space c ≡ false) w × (is_empty w ≡ false)

-- A word without an equals sign, so that it is no field.
abbrev pub IsBare : Text → Type 0
IsBare w = All (λ c. (c == b'=') ≡ false) w

words_from-word :
    (w : Text) (ws : List Text)
    → All (λ c. is_space c ≡ false) w
    → words_from (w ++ spaced_behind ws) ≡ (w, split_words (spaced_behind ws))
unfolding words_from split_words
words_from-word [] [] a = refl
words_from-word [] (v ∷ ws) a = refl
words_from-word (c ∷ w) ws a = rw (a.0, words_from-word w ws a.1) refl

split_words-word :
    (w : Text) (ws : List Text)
    → IsWord w
    → split_words (w ++ spaced_behind ws) ≡ w ∷ split_words (spaced_behind ws)
split_words-word [] ws h = cc
split_words-word (c ∷ w) ws h = unfold split_words in rw (words_from-word (c ∷ w) ws h.0) refl

split_words-blank : (s : Text) → split_words (32 ∷ s) ≡ split_words s
unfolding split_words words_from
split_words-blank s = refl

split_words-behind : (ws : List Text) → All IsWord ws → split_words (spaced_behind ws) ≡ ws
split_words-behind [] a = unfold split_words words_from in refl
split_words-behind (w ∷ ws) a =
    split_words-blank (w ++ spaced_behind ws)
    ∙ split_words-word w ws a.0
    ∙ ap (λ x. w ∷ x) (split_words-behind ws a.1)

pub split_words-spaced : (ws : List Text) → All IsWord ws → split_words (spaced ws) ≡ ws
unfolding spaced
split_words-spaced [] a = unfold split_words words_from in refl
split_words-spaced (w ∷ ws) a =
    split_words-word w ws a.0 ∙ ap (λ x. w ∷ x) (split_words-behind ws a.1)

rstrip_step :
    (c : ℕ) (r s : Text)
    → words_from r ≡ words_from s
    → words_from (elim r [ [] ↦ if is_space c then [] else c ∷ [] | d ∷ t ↦ c ∷ d ∷ t ])
      ≡ words_from (c ∷ s)
unfolding words_from
rstrip_step c [] s e = elim (Bool-cases (is_space c)) [
  | inl h ↦ rw (h, ← e) refl
  | inr h ↦ rw (h, h, ← e) refl
]
rstrip_step c (d ∷ r) s e = rw (← e) refl

-- Blanks at the end make no word.
words_from-rstrip : (s : Text) → words_from (rstrip s) ≡ words_from s
unfolding rstrip
words_from-rstrip [] = refl
words_from-rstrip (c ∷ s) = rstrip_step c (rstrip s) s (words_from-rstrip s)

pub split_words-rstrip : (s : Text) → split_words (rstrip s) ≡ split_words s
unfolding split_words
split_words-rstrip s = rw (words_from-rstrip s) refl

not_equals : (c : ℕ) → is_key_char c ≡ true → (c == b'=') ≡ false
not_equals c h = ground (arith, h)

field_from-keyed :
    (a : ℕ) (key rest value : Text)
    → All (λ c. is_key_char c ≡ true) rest
    → is_empty value ≡ false
    → field_from (a ∷ key) (rest ++ (b'=' ∷ value)) ≡ some (a ∷ (key ++ rest), value)
unfolding field_from
field_from-keyed a key [] value h k = rw (k, append-nil) refl
field_from-keyed a key (c ∷ rest) value h k =
    rw (not_equals c h.0, h.0, field_from-keyed a (key ++ (c ∷ [])) rest value h.1 k, append_assoc)
      refl

pub fields_of-keyed :
    (a : ℕ) (key value : Text) (ws : List Text)
    → All (λ c. is_key_char c ≡ true) (a ∷ key)
    → is_empty value ≡ false
    → fields_of ((a ∷ (key ++ (b'=' ∷ value))) ∷ ws) ≡ (a ∷ key, value) ∷ fields_of ws
unfolding fields_of field_from
fields_of-keyed a key value ws h k =
    rw (not_equals a h.0, h.0, field_from-keyed a [] key value h.1 k) refl

field_from-bare : (w key : Text) → IsBare w → field_from key w ≡ none
unfolding field_from
field_from-bare [] key a = refl
field_from-bare (c ∷ w) key a = rw a.0 (field_from-bare w _ a.1)

pub fields_of-bare : (w : Text) (ws : List Text) → IsBare w → fields_of (w ∷ ws) ≡ fields_of ws
unfolding fields_of
fields_of-bare w ws a = rw (field_from-bare w [] a) refl

pub contains-bare : (w : Text) → IsBare w → contains w (codes "=") ≡ false
unfolding contains starts_with
contains-bare [] a = refl
contains-bare (c ∷ w) a = ground (arith, a.0, contains-bare w a.1)

-- ===== src/Traffic/Line/Front.antt =====
-- The front of a line without a time stamp and an event: the words before the fields.
use sim_connectivity_monitor.Prelude.{
  ℕ, ◌≡◌, refl, sym, ap, ◌∙◌, true, false, ◌||◌, Option, none, some, List, [], ◌∷◌, ◌++◌, Text,
  codes, All, any, is_space, is_lower, is_upper, is_number, decimal, lstrip, rstrip, strip,
  contains, starts_with, ◌==◌, if◌then◌else◌, arith,
}
use sim_connectivity_monitor.Modem.AtParser.Scan.{literal}
use sim_connectivity_monitor.Traffic.Line.{
  behind_stamp, stamp, event_of, split_words, head_word, head_from, parse_words, parse_line,
}
use sim_connectivity_monitor.Traffic.Line.Words.{split_words-rstrip, contains-bare}
use sim_connectivity_monitor.Traffic.Line.Spelled.{
  IsProto, IsState, optional_word, decimal-is_number, decimal-IsBare, lower-IsBare, lower_same,
  state-IsBare, state_no_lower,
}

head_word-number :
    (tok : Text) (p s : Option Text) → is_number tok ≡ true → head_word tok (p, s) ≡ (p, s)
unfolding head_word
head_word-number tok p s h = ground (arith, h)

head_word-proto : (s : Text) → IsProto s → head_word s (none, none) ≡ (some s, none)
unfolding head_word starts_with is_number
head_word-proto [] h = cc
head_word-proto (c ∷ s) h = ground (arith, h.0.0, lower_same (c ∷ s) h.0)

pub head_from-proto :
    (s : Text) (ws : List Text)
    → IsProto s
    → head_from (none, none) (s ∷ ws) ≡ head_from (some s, none) ws
unfolding head_from
head_from-proto s ws h = rw (contains-bare s (lower-IsBare s h.0), head_word-proto s h) refl

pub head_from-number :
    (n : ℕ) (p s : Option Text) (ws : List Text)
    → head_from (p, s) (decimal n ∷ ws) ≡ head_from (p, s) ws
unfolding head_from
head_from-number n p s ws =
    rw
      (
        contains-bare (decimal n) (decimal-IsBare n),
        head_word-number (decimal n) p s (decimal-is_number n),
      )
      refl

head_word-state :
    (p s : Text)
    → All (λ c. (is_upper c || c == b'_') ≡ true) s
    → any is_upper s ≡ true
    → head_word s (some p, none) ≡ (some p, some s)
unfolding head_word starts_with is_number
head_word-state p [] a h = cc
head_word-state p (c ∷ s) a h = ground (arith, a.0, h, state_no_lower (c ∷ s) a)

pub head_from-state :
    (p : Text) (s : Option Text) (word : Text) (words : List Text)
    → IsState s
    → contains word (codes "=") ≡ true
    → head_from (some p, none) (optional_word s (word ∷ words)) ≡ (some p, s)
unfolding head_from
head_from-state p none word words h e = rw e refl
head_from-state p (some s) word words h e =
    rw (contains-bare s (state-IsBare s h), head_word-state p s h.0 h.1, e) refl

not_bracket : (c : ℕ) → is_lower c ≡ true → (c == b'[') ≡ false
not_bracket c h = ground (arith, h)

not_space : (c : ℕ) → is_lower c ≡ true → is_space c ≡ false
not_space c h = ground (arith, h)

rstrip-front : (c : ℕ) (s : Text) → is_lower c ≡ true → rstrip (c ∷ s) ≡ c ∷ rstrip s
unfolding rstrip
rstrip-front c s h = go (rstrip s)
  where
    go :
        (r : Text)
        → (elim r as (λ _. Text) [ [] ↦ if is_space c then [] else c ∷ [] | d ∷ t ↦ c ∷ d ∷ t ])
          ≡ c ∷ r
    go [] = ground (arith, h)
    go (d ∷ r) = refl

strip-front : (c : ℕ) (s : Text) → is_lower c ≡ true → strip (c ∷ s) ≡ c ∷ rstrip s
unfolding strip lstrip
strip-front c s h = rw (not_space c h) (rstrip-front c s h)

literal-lower :
    (p : Text) (c : ℕ) (s : Text) → is_lower c ≡ true → literal (b'[' ∷ p) (c ∷ s) ≡ none
unfolding literal starts_with
literal-lower p c s h = rw (not_bracket c h) refl

stamp-lower : (c : ℕ) (s : Text) → is_lower c ≡ true → stamp (c ∷ s) ≡ none
unfolding stamp
stamp-lower c s h = rw (literal-lower [] c s h) refl

event_of-lower : (c : ℕ) (s : Text) → is_lower c ≡ true → event_of (c ∷ s) ≡ none
unfolding event_of
event_of-lower c s h =
    rw
      (
        literal-lower (codes "NEW]") c s h,
        literal-lower (codes "UPDATE]") c s h,
        literal-lower (codes "DESTROY]") c s h,
      )
      refl

-- A line that begins with a small letter has no time stamp and no event.
behind-lower :
    (read_time : Text → ℕ) (c : ℕ) (s : Text)
    → is_lower c ≡ true
    → behind_stamp read_time (c ∷ s) (stamp (c ∷ s))
      ≡ parse_words read_time none none (split_words (c ∷ s))
behind-lower read_time c s h = rw (stamp-lower c s h, event_of-lower c s h) refl

pub parse_line-lower :
    (read_time : Text → ℕ) (front rest : Text)
    → IsProto front
    → parse_line read_time (front ++ rest)
      ≡ parse_words read_time none none (split_words (front ++ rest))
unfolding parse_line
parse_line-lower read_time [] rest h = cc
parse_line-lower read_time (c ∷ s) rest h =
    ap (λ line. behind_stamp read_time line (stamp line)) (strip-front c (s ++ rest) h.0.0)
    ∙ behind-lower read_time c (rstrip (s ++ rest)) h.0.0
    ∙ ap (λ line. parse_words read_time none none (split_words line))
        (sym (rstrip-front c (s ++ rest) h.0.0))
    ∙ ap (parse_words read_time none none) (split_words-rstrip (c ∷ (s ++ rest)))

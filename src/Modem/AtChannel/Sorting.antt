-- ===== src/Modem/AtChannel/Sorting.antt =====
-- The lines of an answer are sorted into the payload and the unsolicited lines.
use sim_connectivity_monitor.Prelude.{
  ◌≡◌, refl, ◌∙◌, Bool, true, false, List, [], ◌∷◌, ◌++◌, append_assoc, append-nil, Text, All, keep,
  Bool-cases, inl, inr,
}
use sim_connectivity_monitor.Modem.AtChannel.{
  Response, payload, command_error, Role, skipped, final_ok, final_error, unsolicited, part,
  role_of, read_from, read_response,
}

abbrev pub is_part : Role → Bool
is_part part = true
is_part _ = false

abbrev pub is_unsolicited : Role → Bool
is_unsolicited unsolicited = true
is_unsolicited _ = false

abbrev pub is_final : Role → Bool
is_final final_ok = true
is_final final_error = true
is_final _ = false

-- How an answer ends at a line.
abbrev pub ended : Role → Text → List Text → Response
ended final_ok line lines = payload lines
ended _ line lines = command_error line

keep-step :
    (p : Text → Bool) (xs : List Text) (l : Text) (before : List Text)
    → (xs ++ keep p (l ∷ [])) ++ keep p before ≡ xs ++ keep p (l ∷ before)
keep-step p xs l before = elim (Bool-cases (p l)) [
  | inl e ↦ rw e (append_assoc xs (l ∷ []) (keep p before))
  | inr e ↦ rw (e, append-nil xs) refl
]

module _ (command : Text) where
  abbrev pub parts : List Text → List Text
  parts before = keep (λ line. is_part (role_of command line)) before

  abbrev pub asides : List Text → List Text
  asides before = keep (λ line. is_unsolicited (role_of command line)) before

  read_from-final :
      (lines urcs : List Text) (line : Text) (rest : List Text) (r : Role)
      → role_of command line ≡ r
      → is_final r ≡ true
      → read_from command lines urcs (line ∷ rest)
        ≡ record { response = ended r line lines; urcs = urcs; left = rest }
  unfolding read_from
  read_from-final lines urcs line rest final_ok e h = rw (e, read_from) refl
  read_from-final lines urcs line rest final_error e h = rw (e, read_from) refl
  read_from-final lines urcs line rest skipped e h = cc
  read_from-final lines urcs line rest unsolicited e h = cc
  read_from-final lines urcs line rest part e h = cc

  -- What a line in between adds to the payload and to the unsolicited lines.
  read_from-between :
      (lines urcs : List Text) (line : Text) (rest : List Text) (r : Role)
      → role_of command line ≡ r
      → is_final r ≡ false
      → read_from command lines urcs (line ∷ rest)
        ≡ read_from command (lines ++ parts (line ∷ [])) (urcs ++ asides (line ∷ [])) rest
  unfolding read_from
  read_from-between lines urcs line rest skipped e h =
      rw (e, append-nil lines, append-nil urcs, read_from) refl
  read_from-between lines urcs line rest unsolicited e h = rw (e, append-nil lines, read_from) refl
  read_from-between lines urcs line rest part e h = rw (e, append-nil urcs, read_from) refl
  read_from-between lines urcs line rest final_ok e h = cc
  read_from-between lines urcs line rest final_error e h = cc

  read_from-sorts :
      (lines urcs before : List Text) (line : Text) (rest : List Text)
      → All (λ l. is_final (role_of command l) ≡ false) before
      → is_final (role_of command line) ≡ true
      → read_from command lines urcs (before ++ (line ∷ rest)) ≡ record {
        response = ended (role_of command line) line (lines ++ parts before);
        urcs = urcs ++ asides before;
        left = rest;
      }
  read_from-sorts lines urcs [] line rest a h =
      rw (append-nil lines, append-nil urcs)
        (read_from-final lines urcs line rest (role_of command line) refl h)
  read_from-sorts lines urcs (l ∷ before) line rest a h =
      read_from-between lines urcs l (before ++ (line ∷ rest)) (role_of command l) refl a.0
      ∙ read_from-sorts (lines ++ parts (l ∷ [])) (urcs ++ asides (l ∷ [])) before line rest a.1 h
      ∙ rw
          (
            keep-step (λ x. is_part (role_of command x)) lines l before,
            keep-step (λ x. is_unsolicited (role_of command x)) urcs l before,
          )
          refl

-- An answer up to its first final line: with OK, the payload is the lines before that are none of
-- empty, an echo or unsolicited; with an error, that line is raised. The unsolicited lines before it
-- went to the handler, each list in the order of the lines, and what follows is not read.
pub read_response-sorts :
    (command : Text) (before : List Text) (line : Text) (rest : List Text)
    → All (λ l. is_final (role_of command l) ≡ false) before
    → is_final (role_of command line) ≡ true
    → read_response command (before ++ (line ∷ rest)) ≡ record {
      response = ended (role_of command line) line (parts command before);
      urcs = asides command before;
      left = rest;
    }
unfolding read_response
read_response-sorts command before line rest a h =
    read_from-sorts command [] [] before line rest a h

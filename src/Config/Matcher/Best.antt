-- ===== src/Config/Matcher/Best.antt =====
-- The profile that src/sim_monitor/config/matcher.py selects is a best match.
use mathlib.Core.List.{Memᴰ}
use mathlib.Core.List.Memᴰ.{head, tail}
use mathlib.Core.Path.{subst}
use sim_connectivity_monitor.Prelude.{
  ℕ, ◌<◌, ◌≡◌, ◌≢◌, ◌⊎◌, refl, sym, ap, ◌∙◌, inl, inr, Bool, true, false, Option, none, some, List,
  [], ◌∷◌, Text, arith, All, All-append, All-of_append, Bool-cases, text_lt, ltb_ℤ, text_lt-asym,
  text_lt-ge_trans, sort_by, All-sort_by, All-of_sort_by, IsSorted, IsStrictWeak, sort_by-IsSorted,
}
use sim_connectivity_monitor.Config.Schema.{Profile}
use sim_connectivity_monitor.Config.Matcher.{
  MatchResult, Rank, Candidate, normalize_iccid, pattern_match, rank_lt, candidate_lt, candidate,
  profile_candidates, candidates, first_result, match_profile,
}

rank_lt-asym : (a b : Rank) → rank_lt a b ≡ true → rank_lt b a ≡ false
unfolding rank_lt
rank_lt-asym a b h = ground (arith, text_lt-asym a.name b.name)

rank_lt-ge_trans : (a b c : Rank) → rank_lt a b ≡ false → rank_lt b c ≡ false → rank_lt a c ≡ false
unfolding rank_lt
rank_lt-ge_trans a b c h k = ground (arith, text_lt-ge_trans a.name b.name c.name)

candidate_order : IsStrictWeak candidate_lt
candidate_order = record {
  asym = λ a b. rank_lt-asym a.0 b.0;
  ge_trans = λ a b c. rank_lt-ge_trans a.0 b.0 c.0;
}

candidate_order_irrefl : (c : Candidate) → candidate_lt c c ≡ false
candidate_order_irrefl c = elim (Bool-cases (rank_lt c.0 c.0)) [
  | inl e ↦ rank_lt-asym c.0 c.0 e
  | inr e ↦ e
]

-- A profile of the list, one of its patterns, and how the pattern matches.
pub record Origin (iccid : Text) (ps : List Profile) (c : Candidate) : Type 0 where
  pub profile : Profile
  pub pattern : Text
  pub found : Bool × ℕ
  pub is_profile : Memᴰ profile ps
  pub is_pattern : Memᴰ pattern profile.match_spec.iccid_patterns
  pub matches : pattern_match iccid pattern ≡ some found
  pub is_candidate : c ≡ candidate profile pattern found

module _ (iccid : Text) (P : Candidate → Type 0) where
  -- To prove something of each candidate, prove it of each match.
  profile_candidates-All :
      (p : Profile) (pats : List Text)
      → ((pat : Text) (m : Bool × ℕ)
          → Memᴰ pat pats
          → pattern_match iccid pat ≡ some m
          → P (candidate p pat m))
      → All P (profile_candidates iccid p pats)
  unfolding profile_candidates
  profile_candidates-All p [] h = tt
  profile_candidates-All p (pat ∷ pats) h =
      go (pattern_match iccid pat) refl (profile_candidates-All p pats (λ q m i. h q m (tail i)))
    where
      go :
          (o : Option (Bool × ℕ))
          → pattern_match iccid pat ≡ o
          → All P (profile_candidates iccid p pats)
          → All P (profile_candidates iccid p (pat ∷ pats))
      go none e r = rw (e, profile_candidates) r
      go (some m) e r = rw (e, profile_candidates) (h pat m (head refl) e, r)

  -- What holds of every candidate holds of every match.
  tail_candidates :
      (p : Profile) (q : Text) (pats : List Text)
      → All P (profile_candidates iccid p (q ∷ pats))
      → All P (profile_candidates iccid p pats)
  unfolding profile_candidates
  tail_candidates p q pats a = go (pattern_match iccid q) refl
    where
      go :
          (o : Option (Bool × ℕ))
          → pattern_match iccid q ≡ o
          → All P (profile_candidates iccid p pats)
      go none e = rw (e, profile_candidates) at a
      go (some m) e =
          let b : P (candidate p q m) × All P (profile_candidates iccid p pats) =
            rw (e, profile_candidates) at a in
          b.1

  of_profile_candidates :
      (p : Profile) (pats : List Text) (pat : Text) (m : Bool × ℕ)
      → All P (profile_candidates iccid p pats)
      → Memᴰ pat pats
      → pattern_match iccid pat ≡ some m
      → P (candidate p pat m)
  unfolding profile_candidates
  of_profile_candidates p [] pat m a i e = elim i [ ]
  of_profile_candidates p (q ∷ pats) pat m a (head h) e =
      let b : P (candidate p q m) × All P (profile_candidates iccid p pats) =
        rw (rw h at e, profile_candidates) at a in
      rw h b.0
  of_profile_candidates p (q ∷ pats) pat m a (tail i) e =
      of_profile_candidates p pats pat m (tail_candidates p q pats a) i e

  candidates-All :
      (ps : List Profile)
      → ((p : Profile) (pat : Text) (m : Bool × ℕ)
          → Memᴰ p ps
          → Memᴰ pat p.match_spec.iccid_patterns
          → pattern_match iccid pat ≡ some m
          → P (candidate p pat m))
      → All P (candidates iccid ps)
  unfolding candidates
  candidates-All [] h = tt
  candidates-All (p ∷ ps) h =
      All-append P (profile_candidates iccid p p.match_spec.iccid_patterns) (candidates iccid ps)
        (profile_candidates-All p p.match_spec.iccid_patterns (λ pat m. h p pat m (head refl)))
        (candidates-All ps (λ q pat m i. h q pat m (tail i)))

  of_candidates :
      (ps : List Profile) (p : Profile) (pat : Text) (m : Bool × ℕ)
      → All P (candidates iccid ps)
      → Memᴰ p ps
      → Memᴰ pat p.match_spec.iccid_patterns
      → pattern_match iccid pat ≡ some m
      → P (candidate p pat m)
  unfolding candidates
  of_candidates [] p pat m a i j e = elim i [ ]
  of_candidates (q ∷ ps) p pat m a (head h) j e =
      let (l, r) =
        All-of_append P (profile_candidates iccid q q.match_spec.iccid_patterns)
          (candidates iccid ps) a in
      of_profile_candidates p p.match_spec.iccid_patterns pat m (rw h l) j e
  of_candidates (q ∷ ps) p pat m a (tail i) j e =
      let (l, r) =
        All-of_append P (profile_candidates iccid q q.match_spec.iccid_patterns)
          (candidates iccid ps) a in
      of_candidates ps p pat m r i j e

-- How a match of one profile is before a match of another: an exact one before a prefix, then the
-- longer one, then the lower priority number, then the name.
abbrev pub Precedes : Bool × ℕ → Profile → Bool × ℕ → Profile → Type 0
Precedes m p n q =
    (m.0 ≡ true × n.0 ≡ false)
    ⊎ (m.0 ≡ n.0
        × (n.1 < m.1
            ⊎ (m.1 ≡ n.1
                × (ltb_ℤ p.match_spec.priority q.match_spec.priority ≡ true
                    ⊎ (ltb_ℤ q.match_spec.priority p.match_spec.priority ≡ false
                        × text_lt p.name q.name ≡ true)))))

not-Precedes :
    (p q : Profile) (pat pat' : Text) (m n : Bool × ℕ)
    → rank_lt (candidate p pat m).0 (candidate q pat' n).0 ≡ false
    → ¬ Precedes m p n q
unfolding rank_lt
not-Precedes p q pat pat' m n h k = ground (arith, k)

-- What `match_profile` has to return: a match of the list that no other match is ranked before.
pub record IsBest (iccid : Text) (ps : List Profile) (r : MatchResult) : Type 0 where
  pub prefix_len : ℕ
  pub is_profile : Memᴰ r.profile ps
  pub is_pattern : Memᴰ r.pattern r.profile.match_spec.iccid_patterns
  pub matches : pattern_match iccid r.pattern ≡ some (r.exact, prefix_len)
  pub best :
      (p : Profile) (pat : Text) (m : Bool × ℕ)
      → Memᴰ p ps
      → Memᴰ pat p.match_spec.iccid_patterns
      → pattern_match iccid pat ≡ some m
      → ¬ Precedes m p (r.exact, prefix_len) r.profile

module _ (iccid : Text) (ps : List Profile) where
  -- A match that no candidate is ranked before.
  IsBest-candidate :
      (p : Profile) (pat : Text) (m : Bool × ℕ)
      → Memᴰ p ps
      → Memᴰ pat p.match_spec.iccid_patterns
      → pattern_match iccid pat ≡ some m
      → All (λ d. candidate_lt d (candidate p pat m) ≡ false) (candidates iccid ps)
      → IsBest iccid ps (candidate p pat m).1
  IsBest-candidate p pat m i j e a = record {
    prefix_len = m.1;
    is_profile = i;
    is_pattern = j;
    matches = e;
    best = λ q pat' m' i' j' e'. not-Precedes q p pat' pat m' m (
        of_candidates iccid (λ d. candidate_lt d (candidate p pat m) ≡ false) ps q pat' m' a i' j'
          e');
  }

  IsBest-of :
      (l : List Candidate) (r : MatchResult)
      → IsSorted candidate_lt candidate_order l
      → All (Origin iccid ps) l
      → ((P : Candidate → Type 0) → All P l → All P (candidates iccid ps))
      → first_result l ≡ some r
      → IsBest iccid ps r
  IsBest-of [] r s o back e = cc
  IsBest-of (c ∷ l) r s o back e =
      let g = o.0 in
      let same : c.1 ≡ r = cc in
      let above : All (λ d. candidate_lt d c ≡ false) (candidates iccid ps) =
        back (λ d. candidate_lt d c ≡ false) (candidate_order_irrefl c, s.0) in
      subst (IsBest iccid ps) (ap (λ (d : Candidate). d.1) (sym g.is_candidate) ∙ same) (
        IsBest-candidate g.profile g.pattern g.found g.is_profile g.is_pattern g.matches
          (rw g.is_candidate at above))

-- If a profile is selected for an ICCID, then it is one of the profiles, the reported pattern is one
-- of its patterns and matches the normalized ICCID in the reported way, and no match of any pattern
-- of any profile is ranked before it: exact before prefix, then the longer prefix, then the lower
-- priority number, then the name.
pub match_profile-IsBest :
    (raw : Text) (ps : List Profile) (r : MatchResult)
    → match_profile raw ps ≡ some r
    → IsBest (normalize_iccid raw) ps r
unfolding match_profile
match_profile-IsBest raw ps r h =
    let iccid = normalize_iccid raw in
    IsBest-of iccid ps (sort_by candidate_lt (candidates iccid ps)) r
      (sort_by-IsSorted candidate_lt candidate_order (candidates iccid ps))
      (All-sort_by candidate_lt (Origin iccid ps) (candidates iccid ps) (
        candidates-All iccid (Origin iccid ps) ps (λ p pat m i j e. record {
          profile = p;
          pattern = pat;
          found = m;
          is_profile = i;
          is_pattern = j;
          matches = e;
          is_candidate = refl;
        })))
      (λ P. All-of_sort_by candidate_lt P (candidates iccid ps)) h

none-of_first : (l : List Candidate) → first_result l ≡ none → All (λ _. ⊥) l
none-of_first [] h = tt
none-of_first (c ∷ l) h = cc

-- If no profile is selected, then no pattern of any profile matches the normalized ICCID.
match_profile-none :
    (raw : Text) (ps : List Profile) (p : Profile) (pat : Text) (m : Bool × ℕ)
    → match_profile raw ps ≡ none
    → Memᴰ p ps
    → Memᴰ pat p.match_spec.iccid_patterns
    → pattern_match (normalize_iccid raw) pat ≢ some m
unfolding match_profile
match_profile-none raw ps p pat m h i j e =
    let iccid = normalize_iccid raw in
    of_candidates iccid (λ _. ⊥) ps p pat m
      (All-of_sort_by candidate_lt (λ _. ⊥) (candidates iccid ps) (none-of_first _ h)) i j e

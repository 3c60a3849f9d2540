-- ===== src/Config/Matcher.antt =====
-- src/sim_monitor/config/matcher.py: which profile an ICCID selects.
mod Best
mod Tests
use sim_connectivity_monitor.Prelude.{
  ℕ, ◌+◌, ◌-◌, ◌≡◌, Bool, true, false, not, ◌&&◌, ◌||◌, Option, none, some, List, [], ◌∷◌, ◌++◌,
  Text, ltb, ◌==◌, if◌then◌else◌, length, keep, text_eq, text_lt, upper, strip, is_alnum, ends_with,
  drop_last, starts_with, ℤ, ltb_ℤ, sort_by, insert_by,
}
use sim_connectivity_monitor.Config.Schema.{Profile}

unfoldable pub normalize_iccid : Text → Text
unfolding upper strip ends_with drop_last
normalize_iccid raw =
    let s = keep is_alnum (upper (strip raw)) in if ends_with b'F' s then drop_last s else s

pub record MatchResult : Type 0 where
  pub profile : Profile
  pub pattern : Text
  pub exact : Bool

-- `(exact, prefix_len)`, if the pattern matches.
unfoldable pub pattern_match : Text → Text → Option (Bool × ℕ)
unfolding ends_with drop_last starts_with text_eq
pattern_match iccid pattern =
    if ends_with b'*' pattern
    then (let prefix = drop_last pattern in
        if starts_with iccid prefix then some (false, length prefix) else none)
    else if text_eq iccid pattern
    then some (true, length pattern)
    else none

-- The sort key; the second part is compared the other way round, as its negative.
pub record Rank : Type 0 where
  pub inexact : Bool
  pub prefix_len : ℕ
  pub priority : ℤ
  pub name : Text

abbrev pub bool_lt : Bool → Bool → Bool
bool_lt false true = true
bool_lt _ _ = false

-- `a < b` on the key tuples.
unfoldable pub rank_lt : Rank → Rank → Bool
rank_lt a b =
    bool_lt a.inexact b.inexact
    || (not (bool_lt b.inexact a.inexact)
        && (ltb b.prefix_len a.prefix_len
            || (a.prefix_len == b.prefix_len
                && (ltb_ℤ a.priority b.priority
                    || (not (ltb_ℤ b.priority a.priority) && text_lt a.name b.name)))))

abbrev pub Candidate : Type 0
Candidate = Rank × MatchResult

abbrev pub candidate_lt : Candidate → Candidate → Bool
candidate_lt a b = rank_lt a.0 b.0

abbrev pub candidate : Profile → Text → Bool × ℕ → Candidate
candidate p pattern m = (
  record { inexact = not m.0; prefix_len = m.1; priority = p.match_spec.priority; name = p.name },
  record { profile = p; pattern = pattern; exact = m.0 },
)

-- The inner loop: the candidates of one profile.
unfoldable pub profile_candidates : Text → Profile → List Text → List Candidate
unfolding pattern_match
profile_candidates iccid p [] = []
profile_candidates iccid p (pattern ∷ patterns) =
    let rest = profile_candidates iccid p patterns in
    elim (pattern_match iccid pattern) [ none ↦ rest | some m ↦ candidate p pattern m ∷ rest ]

unfoldable pub candidates : Text → List Profile → List Candidate
unfolding profile_candidates
candidates iccid [] = []
candidates iccid (p ∷ ps) =
    profile_candidates iccid p p.match_spec.iccid_patterns ++ candidates iccid ps

abbrev pub first_result : List Candidate → Option MatchResult
first_result [] = none
first_result (c ∷ cs) = some c.1

unfoldable pub match_profile : Text → List Profile → Option MatchResult
unfolding normalize_iccid candidates sort_by insert_by rank_lt
match_profile raw profiles =
    first_result (sort_by candidate_lt (candidates (normalize_iccid raw) profiles))

-- ===== src/Config/Matcher/Tests.antt =====
-- Profiles and ICCIDs, and the matcher's theorems on them.
use sim_connectivity_monitor.Prelude.{◌≡◌, refl, false, none, some, [], ◌∷◌, List, Text, codes, pos}
use sim_connectivity_monitor.Config.Schema.{Profile}
use sim_connectivity_monitor.Config.Matcher.{MatchResult, normalize_iccid, match_profile}
use sim_connectivity_monitor.Config.Matcher.Best.{IsBest, match_profile-IsBest}

abbrev profile : Text → List Text → Profile
profile name patterns = record {
  name = name;
  match_spec = record { iccid_patterns = patterns; priority = pos 100 };
  pdp_contexts = [];
  pdp_variants = [];
  at_init = [];
  monitor = record { enabled = false; destinations = [] };
  fallback_test = record { airplane_seconds = 900; settle_seconds = 20 };
}

abbrev hologram : Profile
hologram = profile (codes "hologram") (codes "8944*" ∷ codes "*" ∷ [])

abbrev verizon : Profile
verizon = profile (codes "verizon") (codes "89445*" ∷ [])

abbrev selected : MatchResult
selected = record { profile = verizon; pattern = codes "89445*"; exact = false }

normalize_filler : normalize_iccid (codes " 8944-50f ") ≡ codes "894450"
unfolding normalize_iccid
normalize_filler = refl

longest_prefix : match_profile (codes "8944501F") (hologram ∷ verizon ∷ []) ≡ some selected
unfolding match_profile
longest_prefix = refl

match_profile-IsBest_example :
    IsBest (normalize_iccid (codes "8944501F")) (hologram ∷ verizon ∷ []) selected
match_profile-IsBest_example =
    match_profile-IsBest (codes "8944501F") (hologram ∷ verizon ∷ []) selected longest_prefix

unmatched : match_profile (codes "8901") (verizon ∷ []) ≡ none
unfolding match_profile
unmatched = refl

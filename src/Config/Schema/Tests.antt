-- ===== src/Config/Schema/Tests.antt =====
-- Context sets, and the theorems about their validation on them.
use sim_connectivity_monitor.Prelude.{
  ◌≡◌, refl, true, false, some, [], ◌∷◌, List, codes, map, length, keep,
}
use sim_connectivity_monitor.Config.Schema.{
  PdpContext, ipv4, no_auth, distinct, validate_context_set, bearer_of,
}
use sim_connectivity_monitor.Config.Schema.Contexts.{validate_context_set_sound}

abbrev plain : PdpContext
plain = record {
  cid = 1;
  apn = codes "hologram";
  pdp_type = ipv4;
  auth = no_auth;
  username = [];
  password = [];
  bearer = false;
}

abbrev promoted : List PdpContext
promoted = record plain { bearer = true } ∷ []

single_promoted : validate_context_set (plain ∷ []) ≡ some promoted
unfolding validate_context_set
single_promoted = refl

validate_context_set_sound_example :
    (distinct (map (λ (c : PdpContext). c.cid) promoted) ≡ true)
    × (map (λ (c : PdpContext). c.cid) promoted ≡ map (λ (c : PdpContext). c.cid) (plain ∷ []))
    × (length (keep (λ c. c.bearer) promoted) ≡ 1)
    × ((c : PdpContext) × (bearer_of promoted ≡ some c) × (c.bearer ≡ true))
validate_context_set_sound_example =
    validate_context_set_sound (plain ∷ []) promoted single_promoted

-- ===== src/Config/Schema/Contexts.antt =====
-- What the validation of a context set (`_validate_context_set`, src/sim_monitor/config/schema.py)
-- gives the daemon.
use sim_connectivity_monitor.Prelude.{
  ℕ, ◌+◌, ◌<◌, ◌≡◌, refl, inl, inr, true, some, List, [], ◌∷◌, map, length, keep, arith, Bool-cases,
}
use sim_connectivity_monitor.Config.Schema.{
  PdpContext, distinct, promote, validate_context_set, bearer_of, PdpVariant, Profile, variant_sets,
  context_sets,
}

length-promote : (cs : List PdpContext) → length (promote cs) ≡ length cs
unfolding promote
length-promote [] = refl
length-promote (c ∷ []) = ground arith
length-promote (c ∷ d ∷ cs) = refl

cids-promote :
    (cs : List PdpContext)
    → map (λ (c : PdpContext). c.cid) (promote cs) ≡ map (λ (c : PdpContext). c.cid) cs
unfolding promote
cids-promote [] = refl
cids-promote (c ∷ []) = ground arith
cids-promote (c ∷ d ∷ cs) = refl

find-of_keep :
    (cs : List PdpContext)
    → 0 < length (keep (λ c. c.bearer) cs)
    → (c : PdpContext) × (bearer_of cs ≡ some c) × (c.bearer ≡ true)
unfolding bearer_of
find-of_keep [] h = absurd (omega arith)
find-of_keep (c ∷ cs) h = elim (Bool-cases c.bearer) [
  | inl e ↦ (c, rw e, e)
  | inr e ↦ let (b, f, t) = find-of_keep cs (rw e at h) in (b, rw e f, t)
]

invert :
    (cs vs : List PdpContext)
    → validate_context_set cs ≡ some vs
    → (distinct (map (λ (c : PdpContext). c.cid) cs) ≡ true)
      × (promote cs ≡ vs)
      × (length (keep (λ c. c.bearer) (promote cs)) ≡ 1)
unfolding validate_context_set
invert cs vs h = (unfold distinct promote in ground arith, ground arith, ground arith)

-- A context set that passes the validation has distinct cids, those of the input in the same order,
-- exactly one bearer, and the search for the bearer finds it.
pub validate_context_set_sound :
    (cs vs : List PdpContext)
    → validate_context_set cs ≡ some vs
    → (distinct (map (λ (c : PdpContext). c.cid) vs) ≡ true)
      × (map (λ (c : PdpContext). c.cid) vs ≡ map (λ (c : PdpContext). c.cid) cs)
      × (length (keep (λ c. c.bearer) vs) ≡ 1)
      × ((c : PdpContext) × (bearer_of vs ≡ some c) × (c.bearer ≡ true))
validate_context_set_sound cs vs h =
    let (d, e, n) = invert cs vs h in
    let d' : distinct (map (λ (c : PdpContext). c.cid) (promote cs)) ≡ true =
      rw (cids-promote cs) d in
    (
      rw e at d',
      rw e at (cids-promote cs),
      rw e at n,
      rw e at (find-of_keep (promote cs) (omega (arith, n))),
    )

-- A profile has one context set to try for its own contexts and one for each variant.
pub length-context_sets : (p : Profile) → length (context_sets p) ≡ length p.pdp_variants + 1
unfolding context_sets
length-context_sets p = omega (arith, go 0 p.pdp_variants)
  where
    go : (i : ℕ) (vs : List PdpVariant) → length (variant_sets i vs) ≡ length vs
    go i [] = refl
    go i (v ∷ vs) = omega (arith, go (i + 1) vs)

-- ===== src/Config/Schema.antt =====
-- src/sim_monitor/config/schema.py: the profile models that the daemon works with. A model is a
-- record; a validator returns the value that it leaves, or `none` where it raises `ValueError`.
mod Contexts
mod Tests
use sim_connectivity_monitor.Prelude.{
  ℕ, zero, suc, ◌+◌, Bool, true, false, not, ◌&&◌, ◌||◌, Option, none, some, List, [], ◌∷◌, ◌++◌,
  map, length, any, is_empty, keep, find, Text, ℤ, ltb, leb, ◌==◌, if◌then◌else◌,
}

pub data PdpType : Type 0 where
  ipv4 ipv6 ipv4v6 : PdpType

pub data AuthType : Type 0 where
  no_auth pap chap : AuthType

pub record PdpContext : Type 0 where
  pub cid : ℕ
  pub apn : Text
  pub pdp_type : PdpType
  pub auth : AuthType
  pub username : Text
  pub password : Text
  pub bearer : Bool

abbrev pub needs_credentials : AuthType → Bool
needs_credentials no_auth = false
needs_credentials _ = true

-- `Field(ge=1, le=16)` and `_auth_requires_credentials`.
unfoldable pub validate_context : PdpContext → Option PdpContext
validate_context c =
    if leb 1 c.cid && leb c.cid 16 && not (needs_credentials c.auth && is_empty c.username)
    then some c
    else none

pub record MatchSpec : Type 0 where
  pub iccid_patterns : List Text
  pub priority : ℤ

pub record FallbackTestConfig : Type 0 where
  pub airplane_seconds : ℕ
  pub settle_seconds : ℕ

-- The part of the heartbeat configuration that the daemon reads.
pub record MonitorConfig : Type 0 where
  pub enabled : Bool
  pub destinations : List Text

pub record PdpVariant : Type 0 where
  pub name : Text
  pub pdp_contexts : List PdpContext

pub record Profile : Type 0 where
  pub name : Text
  pub match_spec : MatchSpec
  pub pdp_contexts : List PdpContext
  pub pdp_variants : List PdpVariant
  pub at_init : List Text
  pub monitor : MonitorConfig
  pub fallback_test : FallbackTestConfig

pub record DaemonConfig : Type 0 where
  pub registration_timeout_seconds : ℕ
  pub fallback_to_default_profile : Bool
  pub telemetry_interval_seconds : ℕ
  pub reset_on_ppp_interface : Bool
  pub ppp_reset_max_attempts : ℕ

-- `len(set(cids)) == len(cids)`.
unfoldable pub distinct : List ℕ → Bool
distinct [] = true
distinct (c ∷ cs) = not (any (λ d. d == c) cs) && distinct cs

-- A single context is made the bearer where none is marked.
unfoldable pub promote : List PdpContext → List PdpContext
promote (c ∷ []) = if c.bearer then c ∷ [] else record c { bearer = true } ∷ []
promote cs = cs

unfoldable pub validate_context_set : List PdpContext → Option (List PdpContext)
unfolding distinct promote
validate_context_set contexts =
    let promoted = promote contexts in
    if not (distinct (map (λ (c : PdpContext). c.cid) contexts))
    then none
    else if length (keep (λ c. c.bearer) promoted) == 1
    then some promoted
    else none

-- How a context set is named in the log: `default`, the variant's name, or `variant-<i + 1>`.
pub data VariantLabel : Type 0 where
  primary : VariantLabel
  named : Text → VariantLabel
  numbered : ℕ → VariantLabel

abbrev pub variant_label : ℕ → Text → VariantLabel
variant_label i [] = numbered (i + 1)
variant_label i (c ∷ cs) = named (c ∷ cs)

pub variant_sets : ℕ → List PdpVariant → List (VariantLabel × List PdpContext)
variant_sets i [] = []
variant_sets i (v ∷ vs) = (variant_label i v.name, v.pdp_contexts) ∷ variant_sets (i + 1) vs

unfoldable pub context_sets : Profile → List (VariantLabel × List PdpContext)
unfolding variant_sets
context_sets p = (primary, p.pdp_contexts) ∷ variant_sets 0 p.pdp_variants

-- `next(c for c in contexts if c.bearer)`; `none` is the `StopIteration`.
unfoldable pub bearer_of : List PdpContext → Option PdpContext
bearer_of cs = find (λ c. c.bearer) cs

-- `Profile.bearer_context`.
unfoldable pub bearer_context : Profile → Option PdpContext
unfolding bearer_of
bearer_context p = bearer_of p.pdp_contexts

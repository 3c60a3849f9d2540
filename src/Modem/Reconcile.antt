-- ===== src/Modem/Reconcile.antt =====
-- src/sim_monitor/modem/pdp_reconcile.py, with `ActualPdpContext` of modem/at_parser.py.
pub mod Exact
mod Tests
use sim_connectivity_monitor.Prelude.{
  ℕ, Bool, true, false, not, ◌&&◌, ◌||◌, Option, none, some, List, [], ◌∷◌, ◌++◌, Text, codes, ltb,
  ◌==◌, is_none, if◌then◌else◌, text_eq, lower, sort_by, insert_by, dict_get, dict_set, dict_keys,
}
use sim_connectivity_monitor.Config.Schema.{PdpType, ipv4, ipv6, ipv4v6, PdpContext}

pub record ActualPdpContext : Type 0 where
  pub cid : ℕ
  pub pdp_type : Text
  pub apn : Text

pub data Action : Type 0 where
  define_context : PdpContext → Action
  delete_context : ℕ → Action

-- The literal that the configuration and the modem use for a type.
abbrev pub pdp_type_text : PdpType → Text
pdp_type_text ipv4 = codes "IPv4"
pdp_type_text ipv6 = codes "IPv6"
pdp_type_text ipv4v6 = codes "IPv4v6"

unfoldable pub matches : ActualPdpContext → PdpContext → Bool
unfolding text_eq lower
matches actual desired =
    text_eq actual.pdp_type (pdp_type_text desired.pdp_type)
    && text_eq (lower actual.apn) (lower desired.apn)

-- `{c.cid: c for c in …}`: of two contexts with one cid the later one stays.
module _ {A : Type 0} (cid : A → ℕ) where
  unfoldable pub index_from : List (ℕ × A) → List A → List (ℕ × A)
  index_from m [] = m
  index_from m (c ∷ cs) = index_from (dict_set (cid c) c m) cs

abbrev pub by_cid : List PdpContext → List (ℕ × PdpContext)
by_cid = index_from (λ c. c.cid) []

abbrev pub actual_by_cid : List ActualPdpContext → List (ℕ × ActualPdpContext)
actual_by_cid = index_from (λ c. c.cid) []

unfoldable pub deletions : List (ℕ × PdpContext) → List ℕ → List Action
deletions desired [] = []
deletions desired (cid ∷ cids) =
    let rest = deletions desired cids in
    if is_none (dict_get cid desired) then delete_context cid ∷ rest else rest

-- Whether a desired context has to be written over what the modem has.
abbrev pub differs : Option ActualPdpContext → PdpContext → Bool
differs none d = true
differs (some a) d = not (matches a d)

abbrev pub define_one : Option PdpContext → Option ActualPdpContext → List Action → List Action
define_one none existing rest = rest
define_one (some d) existing rest = if differs existing d then define_context d ∷ rest else rest

unfoldable pub definitions :
    List (ℕ × ActualPdpContext) → List (ℕ × PdpContext) → List ℕ → List Action
definitions actual desired [] = []
definitions actual desired (cid ∷ cids) =
    define_one (dict_get cid desired) (dict_get cid actual) (definitions actual desired cids)

unfoldable pub reconcile : List ActualPdpContext → List PdpContext → List Action
unfolding index_from deletions definitions sort_by insert_by dict_get dict_set matches
reconcile actual desired =
    let wanted = by_cid desired in
    let present = actual_by_cid actual in
    deletions wanted (sort_by ltb (dict_keys present))
    ++ definitions present wanted (sort_by ltb (dict_keys wanted))

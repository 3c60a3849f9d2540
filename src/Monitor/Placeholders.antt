-- ===== src/Monitor/Placeholders.antt =====
-- src/sim_monitor/monitor/placeholders.py: the substitution of tokens such as {iccid} in templates.
pub mod Pieces
pub mod Body
pub mod Paths
pub mod Fields
pub mod Tests
pub mod BodyTests
use sim_connectivity_monitor.Prelude.{
  ℕ, zero, suc, Bool, true, false, ◌||◌, Option, none, some, List, [], ◌∷◌, ◌++◌, Text, text_eq,
  length, is_digit, is_lower, ◌==◌, if◌then◌else◌,
}

-- The values of the names; None has none. A template takes them as texts.
abbrev pub Values : Type 0 → Type 0
Values V = List (Text × Option V)

abbrev pub Context : Type 0
Context = Values Text

-- `[a-z0-9_]`.
abbrev pub is_name_char : ℕ → Bool
is_name_char c = is_lower c || is_digit c || c == b'_'

-- The characters of a name from here on, up to a closing brace.
unfoldable pub name_tail : Text → Option Text
name_tail [] = none
name_tail (c ∷ s) =
    let rest = name_tail s in
    if c == b'}'
    then some []
    else if is_name_char c
    then elim rest [ none ↦ none | some name ↦ some (c ∷ name) ]
    else none

-- The name of `TOKEN_RE` behind an opening brace.
unfoldable pub token : Text → Option Text
unfolding name_tail
token [] = none
token (c ∷ s) =
    if is_lower c then (elim (name_tail s) [ none ↦ none | some name ↦ some (c ∷ name) ]) else none

-- `context.get`, with a name that is missing apart from one without a value.
unfoldable pub lookup : {V : Type 0} → Text → Values V → Option (Option V)
unfolding text_eq
lookup name [] = none
lookup name ((other, value) ∷ context) =
    let later = lookup name context in if text_eq other name then some value else later

-- A text with the unknown names.
abbrev pub Rendered : Type 0
Rendered = Text × List Text

abbrev pub in_front : Text → Rendered → Rendered
in_front front (text, unknown) = (front ++ text, unknown)

module _ (context : Context) where
  -- `_sub`, before what follows.
  unfoldable pub put_token : Text → Rendered → Rendered
  unfolding lookup
  put_token name (text, unknown) = elim (lookup name context) [
    | some (some value) ↦ (value ++ text, unknown)
    | some none ↦ (text, unknown)
    | none ↦ (b'{' ∷ name ++ (b'}' ∷ text), name ∷ unknown)
  ]

  -- `TOKEN_RE.sub` from here on, with `skip` characters that belong to a match.
  unfoldable pub render_from : ℕ → Text → Rendered
  unfolding put_token token
  render_from skip [] = ([], [])
  render_from (suc skip) (c ∷ s) = render_from skip s
  render_from zero (c ∷ s) = elim (c == b'{') [
    | false ↦ in_front (c ∷ []) (render_from zero s)
    | true ↦ elim (token s) [
      | none ↦ in_front (c ∷ []) (render_from zero s)
      | some name ↦ put_token name (render_from (suc (length name)) s)
    ]
  ]

  -- `render`; the unknown names in the order of the template.
  unfoldable pub render : Text → Rendered
  unfolding render_from
  render template = render_from zero template

  -- The headers of `render_request`, in their order, with the unknown names.
  unfoldable pub render_headers : List (Text × Text) → List (Text × Text) × List Text
  unfolding render
  render_headers [] = ([], [])
  render_headers ((key, value) ∷ headers) =
      let v = render value in
      let rest = render_headers headers in ((key, v.0) ∷ rest.0, v.1 ++ rest.1)

  -- `render_request`; a name may be listed as unknown more than once.
  unfoldable pub render_request :
      Text → List (Text × Text) → Text → Text × List (Text × Text) × Text × List Text
  unfolding render_headers
  render_request url headers body =
      let u = render url in
      let h = render_headers headers in let b = render body in (u.0, h.0, b.0, u.1 ++ h.1 ++ b.1)

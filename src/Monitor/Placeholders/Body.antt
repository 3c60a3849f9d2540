-- ===== src/Monitor/Placeholders/Body.antt =====
-- src/sim_monitor/monitor/placeholders.py, `render_body_fields`: a JSON body that is put together from
-- fields with paths. `V` are the values of a JSON object other than objects, such as numbers and
-- texts; the values of the context are of this kind.
use sim_connectivity_monitor.Prelude.{
  Option, none, some, List, [], ◌∷◌, Text, text_eq, ◌==◌, if◌then◌else◌,
}
use sim_connectivity_monitor.Monitor.Placeholders.{Values, lookup}

-- A JSON object: its entries in their order.
pub data Object (V : Type 0) : Type 0 where
  empty : Object V
  with_leaf : Text → V → Object V → Object V
  with_object : Text → Object V → Object V → Object V

-- What an object has under a name.
pub data Entry (V : Type 0) : Type 0 where
  absent : Entry V
  leaf : V → Entry V
  object : Object V → Entry V

pub data FieldKind : Type 0 where
  placeholder static : FieldKind

pub record BodyField : Type 0 where
  pub path : Text
  pub value : Text
  pub kind : FieldKind

-- `path.split(".")`: the first part and the others.
unfoldable pub split_dots : Text → Text × List Text
split_dots [] = ([], [])
split_dots (c ∷ s) =
    let rest = split_dots s in if c == b'.' then ([], rest.0 ∷ rest.1) else (c ∷ rest.0, rest.1)

module _ {V : Type 0} where
  -- `node.get(name)`.
  unfoldable pub entry : Text → Object V → Entry V
  unfolding text_eq
  entry name empty = absent
  entry name (with_leaf other v rest) =
      let later = entry name rest in if text_eq other name then leaf v else later
  entry name (with_object other child rest) =
      let later = entry name rest in if text_eq other name then object child else later

  -- `node[name] = value`: in its place if the name is there, at the end otherwise.
  unfoldable pub put : Text → V → Object V → Object V
  unfolding text_eq
  put name value empty = with_leaf name value empty
  put name value (with_leaf other v rest) =
      let later = put name value rest in
      if text_eq other name then with_leaf name value rest else with_leaf other v later
  put name value (with_object other child rest) =
      let later = put name value rest in
      if text_eq other name then with_leaf name value rest else with_object other child later

  -- `node.setdefault(name, {})`, and `change` on what is there, if it is an object.
  unfoldable pub descend : Text → (Object V → Object V) → Object V → Object V
  unfolding text_eq
  descend name change empty = with_object name (change empty) empty
  descend name change (with_leaf other v rest) =
      let later = descend name change rest in
      if text_eq other name then with_leaf other v rest else with_leaf other v later
  descend name change (with_object other child rest) =
      let later = descend name change rest in
      if text_eq other name
      then with_object other (change child) rest
      else with_object other child later

  -- `_set_path`, with the first part and the others.
  unfoldable pub set_path : Text → List Text → V → Object V → Object V
  unfolding put descend
  set_path name [] value o = put name value o
  set_path name (next ∷ parts) value o = descend name (set_path next parts value) o

  abbrev pub or_no_value : Option (Option V) → Option V
  or_no_value none = none
  or_no_value (some value) = value

  -- A field with no value is left out.
  unfoldable pub put_field : Text × List Text → Option V → Object V → Object V
  unfolding set_path
  put_field path none o = o
  put_field path (some value) o = set_path path.0 path.1 value o

  module _ (literal : Text → V) (context : Values V) where
    -- The value of a field; an unknown placeholder has none.
    unfoldable pub resolved : BodyField → Option V
    unfolding lookup
    resolved field = elim field.kind [
      | placeholder ↦ or_no_value (lookup field.value context)
      | static ↦ some (literal field.value)
    ]

    unfoldable pub set_field : BodyField → Object V → Object V
    unfolding resolved split_dots put_field
    set_field field o = put_field (split_dots field.path) (resolved field) o

    -- The loop over the fields.
    unfoldable pub body_from : Object V → List BodyField → Object V
    unfolding set_field
    body_from o [] = o
    body_from o (field ∷ fields) = body_from (set_field field o) fields

    -- `render_body_fields`; `dumps` is `json.dumps`.
    unfoldable pub render_body_fields : (Object V → Text) → List BodyField → Text
    unfolding body_from
    render_body_fields dumps fields = dumps (body_from empty fields)

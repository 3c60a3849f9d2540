-- ===== src/Monitor/Placeholders/BodyTests.antt =====
-- A structured body with a path inside an object, an unknown placeholder and a field behind a value.
use mathlib.Core.List.{Memᴰ}
use sim_connectivity_monitor.Prelude.{
  ◌≡◌, refl, none, some, List, [], ◌∷◌, Text, text_eq, codes, All, false,
}
use sim_connectivity_monitor.Monitor.Placeholders.{Values}
use sim_connectivity_monitor.Monitor.Placeholders.Body.{
  empty, with_leaf, with_object, placeholder, static, BodyField, split_dots, body_from, resolved,
  set_path,
}
use sim_connectivity_monitor.Monitor.Placeholders.Paths.{expected, is_prefix, look, nothing}
use sim_connectivity_monitor.Monitor.Placeholders.Fields.{look_field, AreApart, look-body_from}

-- The values here are texts.
abbrev as_value : Text → Text
as_value s = s

abbrev known : Values Text
known = (codes "rsrp", some (codes "-90")) ∷ (codes "ip", none) ∷ []

abbrev fields : List BodyField
fields =
    record { path = codes "sim.name"; value = codes "field"; kind = static }
    ∷ record { path = codes "sim.rsrp"; value = codes "rsrp"; kind = placeholder }
    ∷ record { path = codes "ip"; value = codes "ip"; kind = placeholder }
    ∷ []

body_of_fields :
    body_from as_value known empty fields
    ≡ with_object
        (codes "sim")
        (with_leaf (codes "name") (codes "field") (with_leaf (codes "rsrp") (codes "-90") empty))
        empty
unfolding body_from
body_of_fields = refl

-- A field behind a value is dropped, and a value in place of an object takes its place.
occupied :
    set_path (codes "a") (codes "b" ∷ []) (codes "x") (with_leaf (codes "a") (codes "y") empty)
    ≡ with_leaf (codes "a") (codes "y") empty
unfolding set_path
occupied = refl

replaced :
    set_path (codes "a") [] (codes "x") (with_object (codes "a") empty empty)
    ≡ with_leaf (codes "a") (codes "x") empty
unfolding set_path
replaced = refl

fields-AreApart : AreApart fields
unfolding is_prefix split_dots text_eq
fields-AreApart = (((refl, refl), ((refl, refl), tt)), (((refl, refl), tt), (tt, tt)))

look-body_from_example :
    ((f : BodyField)
      → Memᴰ f fields
      → look_field f (body_from as_value known empty fields) ≡ expected (resolved as_value known f))
    × ((n : Text) (ns : List Text)
        → All (λ f. is_prefix (split_dots f.path).0 (split_dots f.path).1 n ns ≡ false) fields
        → look n ns (body_from as_value known empty fields) ≡ nothing)
look-body_from_example = look-body_from as_value known fields fields-AreApart

-- ===== src/Monitor/Placeholders/Fields.antt =====
-- src/sim_monitor/monitor/placeholders.py: a JSON body has the values of its fields at their paths.
use mathlib.Core.List.{Memᴰ}
use mathlib.Core.List.Memᴰ.{head, tail}
use sim_connectivity_monitor.Prelude.{◌≡◌, refl, ◌∙◌, false, List, [], ◌∷◌, Text, All}
use sim_connectivity_monitor.Monitor.Placeholders.{Values}
use sim_connectivity_monitor.Monitor.Placeholders.Body.{
  Object, empty, BodyField, split_dots, resolved, set_field, body_from,
}
use sim_connectivity_monitor.Monitor.Placeholders.Paths.{
  Found, nothing, is_prefix, look, expected, look-empty, look-put_field_other, look-put_field,
}

-- The path of the first field is not a beginning of that of the second.
abbrev pub Spares : BodyField → BodyField → Type 0
Spares f g =
    is_prefix (split_dots f.path).0 (split_dots f.path).1 (split_dots g.path).0
      (split_dots g.path).1
    ≡ false

-- No path of a field is a beginning of another's.
abbrev pub AreApart : List BodyField → Type 0
AreApart [] = Unit
AreApart (f ∷ fields) = All (λ g. Spares f g × Spares g f) fields × AreApart fields

module _ {V : Type 0} where
  abbrev pub look_field : BodyField → Object V → Found V
  look_field f o = look (split_dots f.path).0 (split_dots f.path).1 o

  module _ (literal : Text → V) (context : Values V) where
    -- At a path of which no field's path is a beginning, the fields change nothing.
    look-body_from_other :
        (n : Text) (ns : List Text) (fields : List BodyField) (o : Object V)
        → All (λ f. is_prefix (split_dots f.path).0 (split_dots f.path).1 n ns ≡ false) fields
        → look n ns (body_from literal context o fields) ≡ look n ns o
    unfolding body_from set_field
    look-body_from_other n ns [] o a = refl
    look-body_from_other n ns (f ∷ fields) o a =
        look-body_from_other n ns fields (set_field literal context f o) a.1
        ∙ look-put_field_other _ (resolved literal context f) n ns o a.0

    All-spared :
        (f : BodyField) (fields : List BodyField)
        → All (λ g. Spares f g × Spares g f) fields
        → All (λ g. Spares g f) fields
    All-spared f [] a = tt
    All-spared f (g ∷ fields) a = (a.0.1, All-spared f fields a.1)

    All-nothing :
        (f : BodyField) (o : Object V) (fields : List BodyField)
        → All (λ g. Spares f g × Spares g f) fields
        → All (λ g. look_field g o ≡ nothing) fields
        → All (λ g. look_field g (set_field literal context f o) ≡ nothing) fields
    unfolding set_field
    All-nothing f o [] a h = tt
    All-nothing f o (g ∷ fields) a h = (
      look-put_field_other _ (resolved literal context f) _ _ o a.0.0 ∙ h.0,
      All-nothing f o fields a.1 h.1,
    )

    look-body_from_member :
        (fields : List BodyField) (o : Object V) (f : BodyField)
        → AreApart fields
        → All (λ g. look_field g o ≡ nothing) fields
        → Memᴰ f fields
        → look_field f (body_from literal context o fields) ≡ expected (resolved literal context f)
    unfolding body_from set_field
    look-body_from_member [] o f a h m = elim m [ ]
    look-body_from_member (g ∷ fields) o f a h (head e) = rw e (
        look-body_from_other _ _ fields (set_field literal context g o) (All-spared g fields a.0)
        ∙ look-put_field _ (resolved literal context g) o h.0)
    look-body_from_member (g ∷ fields) o f a h (tail m) =
        look-body_from_member fields (set_field literal context g o) f a.1
          (All-nothing g o fields a.0 h.1) m

    All-empty : (fields : List BodyField) → All (λ g. look_field g empty ≡ nothing) fields
    All-empty [] = tt
    All-empty (g ∷ fields) = (look-empty _ _, All-empty fields)

    -- In the body of fields of which no path is a beginning of another's, a field's path leads to
    -- its value, or to nothing if it has none; and a path of which no field's path is a beginning
    -- leads to nothing.
    pub look-body_from :
        (fields : List BodyField)
        → AreApart fields
        → ((f : BodyField)
            → Memᴰ f fields
            → look_field f (body_from literal context empty fields)
              ≡ expected (resolved literal context f))
          × ((n : Text) (ns : List Text)
              → All (λ f. is_prefix (split_dots f.path).0 (split_dots f.path).1 n ns ≡ false) fields
              → look n ns (body_from literal context empty fields) ≡ nothing)
    look-body_from fields a = (
      λ f m. look-body_from_member fields empty f a (All-empty fields) m,
      λ n ns h. look-body_from_other n ns fields empty h ∙ look-empty n ns,
    )

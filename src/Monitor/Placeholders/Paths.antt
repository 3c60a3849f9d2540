-- ===== src/Monitor/Placeholders/Paths.antt =====
-- src/sim_monitor/monitor/placeholders.py: what stands at the paths of a JSON body.
use sim_connectivity_monitor.Prelude.{
  ◌≡◌, ◌≢◌, refl, ap, ◌∙◌, Bool, true, false, ◌&&◌, Option, none, some, List, [], ◌∷◌, Text,
  text_eq, text_eq_refl, text_eq→≡, Bool-cases, inl, inr, if◌then◌else◌, arith,
}
use sim_connectivity_monitor.Monitor.Placeholders.Body.{
  Object, empty, with_leaf, with_object, Entry, absent, leaf, object, entry, put, descend, set_path,
  put_field,
}

-- What a path leads to: a value, a value before its end, or neither.
pub data Found (V : Type 0) : Type 0 where
  nothing blocked : Found V
  found : V → Found V

-- A path is a beginning of another one, or the same.
unfoldable pub is_prefix : Text → List Text → Text → List Text → Bool
is_prefix n [] m ms = text_eq n m
is_prefix n (x ∷ xs) m [] = false
is_prefix n (x ∷ xs) m (y ∷ ys) = text_eq n m && is_prefix x xs y ys

text_eq-same : (k n m : Text) → text_eq k n ≡ true → text_eq k m ≡ text_eq n m
text_eq-same k n m h = ap (λ x. text_eq x m) (text_eq→≡ k n h)

text_eq-join : (k n m : Text) → text_eq k m ≡ true → text_eq n m ≡ true → text_eq k n ≡ true
text_eq-join k n m h i = rw (text_eq→≡ k m h, text_eq→≡ n m i) (text_eq_refl m)

module _ {V : Type 0} where
  abbrev pub ends_at : Entry V → Found V
  ends_at absent = nothing
  ends_at (leaf v) = found v
  ends_at (object o) = nothing

  -- The rest of a path, from an entry that is not its last.
  abbrev pub onwards : (Object V → Found V) → Entry V → Found V
  onwards rest absent = nothing
  onwards rest (leaf v) = blocked
  onwards rest (object child) = rest child

  -- What stands at a path.
  unfoldable pub look : Text → List Text → Object V → Found V
  unfolding entry
  look name [] o = ends_at (entry name o)
  look name (next ∷ parts) o = onwards (look next parts) (entry name o)

  abbrev changed : (Object V → Object V) → Entry V → Entry V
  changed change absent = object (change empty)
  changed change (leaf v) = leaf v
  changed change (object o) = object (change o)

  entry-put :
      (n m : Text) (v : V) (o : Object V)
      → entry m (put n v o) ≡ (if text_eq n m then leaf v else entry m o)
  unfolding entry put
  entry-put n m v empty = refl
  entry-put n m v (with_leaf k w rest) =
      ground (arith, text_eq-same k n m, text_eq-join k n m, entry-put n m v rest)
  entry-put n m v (with_object k child rest) =
      ground (arith, text_eq-same k n m, text_eq-join k n m, entry-put n m v rest)

  entry-descend_same :
      (n : Text) (change : Object V → Object V) (o : Object V)
      → entry n (descend n change o) ≡ changed change (entry n o)
  unfolding entry descend
  entry-descend_same n change empty = rw (text_eq_refl n) refl
  entry-descend_same n change (with_leaf k w rest) =
      ground (arith, entry-descend_same n change rest)
  entry-descend_same n change (with_object k child rest) =
      ground (arith, entry-descend_same n change rest)

  entry-descend_other :
      (n m : Text) (change : Object V → Object V) (o : Object V)
      → text_eq n m ≡ false
      → entry m (descend n change o) ≡ entry m o
  unfolding entry descend
  entry-descend_other n m change empty h = rw h refl
  entry-descend_other n m change (with_leaf k w rest) h =
      ground (arith, h, text_eq-same k n m, entry-descend_other n m change rest h)
  entry-descend_other n m change (with_object k child rest) h =
      ground (arith, h, text_eq-same k n m, entry-descend_other n m change rest h)

  ends_at-changed :
      (change : Object V → Object V) (e : Entry V) → ends_at (changed change e) ≡ ends_at e
  ends_at-changed change absent = refl
  ends_at-changed change (leaf v) = refl
  ends_at-changed change (object o) = refl

  onwards-changed :
      (rest : Object V → Found V) (change : Object V → Object V)
      → rest (change empty) ≡ nothing
      → ((o : Object V) → rest (change o) ≡ rest o)
      → (e : Entry V) → onwards rest (changed change e) ≡ onwards rest e
  onwards-changed rest change h k absent = h
  onwards-changed rest change h k (leaf v) = refl
  onwards-changed rest change h k (object o) = k o

  pub look-empty : (n : Text) (ns : List Text) → look n ns empty ≡ nothing
  unfolding look
  look-empty n [] = refl
  look-empty n (x ∷ xs) = refl

  look-set_path_other :
      (a : Text) (parts : List Text) (n : Text) (ns : List Text) (v : V) (o : Object V)
      → is_prefix a parts n ns ≡ false
      → look n ns (set_path a parts v o) ≡ look n ns o
  unfolding look set_path is_prefix
  look-set_path_other a [] n [] v o h = rw (entry-put a n v o, h) refl
  look-set_path_other a [] n (x ∷ xs) v o h = rw (entry-put a n v o, h) refl
  look-set_path_other a (b ∷ bs) n [] v o h = elim (Bool-cases (text_eq a n)) [
    | inl e ↦
        rw (text_eq→≡ a n e, entry-descend_same n (set_path b bs v) o)
          (ends_at-changed (set_path b bs v) (entry n o))
    | inr e ↦ rw (entry-descend_other a n (set_path b bs v) o e) refl
  ]
  look-set_path_other a (b ∷ bs) n (x ∷ xs) v o h = elim (Bool-cases (text_eq a n)) [
    | inl e ↦
        rw (text_eq→≡ a n e, entry-descend_same n (set_path b bs v) o)
          (onwards-changed (look x xs) (set_path b bs v)
            (look-set_path_other b bs x xs v empty (rw e at h) ∙ look-empty x xs)
            (λ c. look-set_path_other b bs x xs v c (rw e at h)) (entry n o))
    | inr e ↦ rw (entry-descend_other a n (set_path b bs v) o e) refl
  ]

  nothing-blocked : {x : Found V} → x ≡ nothing → x ≢ blocked
  nothing-blocked h e = cc

  -- Setting a path that no value blocks.
  onwards-found :
      (rest : Object V → Found V) (change : Object V → Object V) (v : V)
      → ((o : Object V) → rest o ≢ blocked → rest (change o) ≡ found v)
      → rest empty ≢ blocked
      → (e : Entry V) → onwards rest e ≢ blocked
      → onwards rest (changed change e) ≡ found v
  onwards-found rest change v k h absent i = k empty h
  onwards-found rest change v k h (leaf w) i = absurd (i refl)
  onwards-found rest change v k h (object o) i = k o i

  look-set_path :
      (a : Text) (parts : List Text) (v : V) (o : Object V)
      → look a parts o ≢ blocked
      → look a parts (set_path a parts v o) ≡ found v
  unfolding look set_path
  look-set_path a [] v o h = rw (entry-put a a v o, text_eq_refl a) refl
  look-set_path a (b ∷ bs) v o h = rw (entry-descend_same a (set_path b bs v) o) (
      onwards-found (look b bs) (set_path b bs v) v (look-set_path b bs v)
        (λ e. nothing-blocked (look-empty b bs) e) (entry a o) h)

  abbrev pub expected : Option V → Found V
  expected none = nothing
  expected (some v) = found v

  pub look-put_field_other :
      (p : Text × List Text) (value : Option V) (n : Text) (ns : List Text) (o : Object V)
      → is_prefix p.0 p.1 n ns ≡ false
      → look n ns (put_field p value o) ≡ look n ns o
  unfolding put_field
  look-put_field_other p none n ns o h = refl
  look-put_field_other p (some v) n ns o h = look-set_path_other p.0 p.1 n ns v o h

  pub look-put_field :
      (p : Text × List Text) (value : Option V) (o : Object V)
      → look p.0 p.1 o ≡ nothing
      → look p.0 p.1 (put_field p value o) ≡ expected value
  unfolding put_field
  look-put_field p none o h = h
  look-put_field p (some v) o h = look-set_path p.0 p.1 v o (nothing-blocked h)

-- ===== src/Prelude/Dict.antt =====
-- Python's `dict` with number keys, as an association list in insertion order.
use Prim.Native.Nat.{ℕ}
use mathlib.Core.Path.{◌≡◌, refl, ◌∙◌, ap}
use mathlib.Core.Bool.{Bool, ◌||◌}
use mathlib.Core.Option.{Option, none, some}
use mathlib.Core.List.{List, [], ◌∷◌, map}
use native.Mathlib.Omega.{arith}
use sim_connectivity_monitor.Prelude.Tests.{◌==◌, if◌then◌else◌, is_some}
use sim_connectivity_monitor.Prelude.Lists.{any}
use sim_connectivity_monitor.Prelude.Sorting.{insert_by, sort_by}

module _ {ℓ} {V : Type ℓ} where
  unfoldable pub dict_get : ℕ → List (ℕ × V) → Option V
  dict_get k [] = none
  dict_get k ((j, v) ∷ m) = if j == k then some v else dict_get k m

  -- `m[k] = v`: in place for a key that is there, at the end otherwise.
  unfoldable pub dict_set : ℕ → V → List (ℕ × V) → List (ℕ × V)
  dict_set key new [] = (key, new) ∷ []
  dict_set key new ((j, old) ∷ rest) =
      if j == key then (j, new) ∷ rest else (j, old) ∷ dict_set key new rest

  -- `m.pop(k)`, of a dictionary that may have the key.
  unfoldable pub dict_remove : ℕ → List (ℕ × V) → List (ℕ × V)
  dict_remove k [] = []
  dict_remove k ((j, v) ∷ m) = if j == k then m else (j, v) ∷ dict_remove k m

  abbrev pub dict_keys : List (ℕ × V) → List ℕ
  dict_keys m = map (λ (e : ℕ × V). e.0) m

  pub get-set :
      (k j : ℕ) (v : V) (m : List (ℕ × V))
      → dict_get j (dict_set k v m) ≡ (if k == j then some v else dict_get j m)
  unfolding dict_get dict_set
  get-set k j v [] = refl
  get-set k j v ((i, w) ∷ m) = ground (arith, get-set k j v m)

  pub any-keys :
      (k : ℕ) (m : List (ℕ × V)) → any (λ j. j == k) (dict_keys m) ≡ is_some (dict_get k m)
  unfolding dict_get
  any-keys k [] = refl
  any-keys k ((j, v) ∷ m) = ground (arith, any-keys k m)

module _ {ℓ} {A : Type ℓ} (p : A → Bool) (lt : A → A → Bool) where
  any-insert_by : (x : A) (ys : List A) → any p (insert_by lt x ys) ≡ (p x || any p ys)
  unfolding insert_by
  any-insert_by x [] = refl
  any-insert_by x (y ∷ ys) = ground (arith, any-insert_by x ys)

  pub any-sort_by : (xs : List A) → any p (sort_by lt xs) ≡ any p xs
  unfolding sort_by
  any-sort_by [] = refl
  any-sort_by (x ∷ xs) = any-insert_by x (sort_by lt xs) ∙ ap (λ r. p x || r) (any-sort_by xs)

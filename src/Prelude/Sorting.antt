-- ===== src/Prelude/Sorting.antt =====
-- Python's `sorted(xs, key=…)`: a stable sort, by the strict order of the keys.
use mathlib.Core.Path.{◌≡◌, refl}
use mathlib.Core.Logic.{inl, inr}
use mathlib.Core.Bool.{Bool, true, false}
use mathlib.Core.List.{List, [], ◌∷◌}
use sim_connectivity_monitor.Prelude.Tests.{if◌then◌else◌, Bool-cases}
use sim_connectivity_monitor.Prelude.Lists.{All, length}
use Prim.Native.Nat.{suc}
use native.Mathlib.Omega.{arith}

module _ {ℓ} {A : Type ℓ} (lt : A → A → Bool) where
  -- Behind what is smaller, before what is equal.
  unfoldable pub insert_by : A → List A → List A
  insert_by x [] = x ∷ []
  insert_by x (y ∷ ys) = let rest = insert_by x ys in if lt y x then y ∷ rest else x ∷ y ∷ ys

  unfoldable pub sort_by : List A → List A
  sort_by [] = []
  sort_by (x ∷ xs) = insert_by x (sort_by xs)

-- The order of keys that a sort needs: no two elements are each before the other, and not being
-- before is transitive.
pub record IsStrictWeak {ℓ} {A : Type ℓ} (lt : A → A → Bool) : Type ℓ where
  pub asym : (x y : A) → lt x y ≡ true → lt y x ≡ false
  pub ge_trans : (x y z : A) → lt x y ≡ false → lt y z ≡ false → lt x z ≡ false

module _ {ℓ} {A : Type ℓ} (lt : A → A → Bool) where
  All-insert_by {κ} :
      (P : A → Type κ) (x : A) (ys : List A) → P x → All P ys → All P (insert_by lt x ys)
  unfolding insert_by
  All-insert_by P x [] p a = (p, a)
  All-insert_by P x (y ∷ ys) p a = elim (Bool-cases (lt y x)) [
    | inl e ↦ rw e (a.0, All-insert_by P x ys p a.1)
    | inr e ↦ rw e (p, a)
  ]

  All-of_insert_by {κ} :
      (P : A → Type κ) (x : A) (ys : List A) → All P (insert_by lt x ys) → P x × All P ys
  unfolding insert_by
  All-of_insert_by P x [] a = a
  All-of_insert_by P x (y ∷ ys) a = elim (Bool-cases (lt y x)) [
    | inl e ↦
        let b : P y × All P (insert_by lt x ys) = rw e at a in
        let (p, r) = All-of_insert_by P x ys b.1 in (p, (b.0, r))
    | inr e ↦ let b : P x × (P y × All P ys) = rw e at a in b
  ]

  length-insert_by : (x : A) (ys : List A) → length (insert_by lt x ys) ≡ suc (length ys)
  unfolding insert_by
  length-insert_by x [] = omega arith
  length-insert_by x (y ∷ ys) = ground (arith, length-insert_by x ys)

  pub length-sort_by : (xs : List A) → length (sort_by lt xs) ≡ length xs
  unfolding sort_by
  length-sort_by [] = refl
  length-sort_by (x ∷ xs) = omega (arith, length-insert_by x (sort_by lt xs), length-sort_by xs)

  -- What holds of all elements holds of all of the sorted list, and the other way round.
  pub All-sort_by {κ} : (P : A → Type κ) (xs : List A) → All P xs → All P (sort_by lt xs)
  unfolding sort_by
  All-sort_by P [] a = a
  All-sort_by P (x ∷ xs) a = All-insert_by P x (sort_by lt xs) a.0 (All-sort_by P xs a.1)

  pub All-of_sort_by {κ} : (P : A → Type κ) (xs : List A) → All P (sort_by lt xs) → All P xs
  unfolding sort_by
  All-of_sort_by P [] a = a
  All-of_sort_by P (x ∷ xs) a =
      let (p, r) = All-of_insert_by P x (sort_by lt xs) a in (p, All-of_sort_by P xs r)

module _ {ℓ} {A : Type ℓ} (lt : A → A → Bool) (o : IsStrictWeak lt) where
  -- A sorted list: nothing further on is before an element.
  abbrev pub IsSorted : List A → Type 0
  IsSorted [] = Unit
  IsSorted (x ∷ xs) = All (λ y. lt y x ≡ false) xs × IsSorted xs

  ge_of :
      (x y : A) (zs : List A)
      → lt y x ≡ false
      → All (λ z. lt z y ≡ false) zs
      → All (λ z. lt z x ≡ false) zs
  ge_of x y [] h a = tt
  ge_of x y (z ∷ zs) h a = (o.ge_trans z y x a.0 h, ge_of x y zs h a.1)

  insert_by-IsSorted : (x : A) (ys : List A) → IsSorted ys → IsSorted (insert_by lt x ys)
  unfolding insert_by
  insert_by-IsSorted x [] s = (tt, tt)
  insert_by-IsSorted x (y ∷ ys) s = elim (Bool-cases (lt y x)) [
    | inl e ↦ rw e (
      All-insert_by lt (λ z. lt z y ≡ false) x ys (o.asym y x e) s.0,
      insert_by-IsSorted x ys s.1,
    )
    | inr e ↦ rw e ((e, ge_of x y ys e s.0), s)
  ]

  pub sort_by-IsSorted : (xs : List A) → IsSorted (sort_by lt xs)
  unfolding sort_by
  sort_by-IsSorted [] = tt
  sort_by-IsSorted (x ∷ xs) = insert_by-IsSorted x (sort_by lt xs) (sort_by-IsSorted xs)

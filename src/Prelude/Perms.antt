-- ===== src/Prelude/Perms.antt =====
-- Lists in another order.
use mathlib.Core.Path.{sym, subst}
use mathlib.Core.Logic.{inl, inr}
use mathlib.Core.Bool.{Bool}
use mathlib.Core.List.{List, [], ◌∷◌, ◌++◌, Perm, Permᴰ, perm_middle, append_assoc, append-nil}
use mathlib.Core.List.Perm
use sim_connectivity_monitor.Prelude.Tests.{Bool-cases}
use sim_connectivity_monitor.Prelude.Lists.{All}
use sim_connectivity_monitor.Prelude.Sorting.{insert_by, sort_by}

module _ {ℓ} {A : Type ℓ} where
  append_comm-Perm : (x y : List A) → Perm (x ++ y) (y ++ x)
  append_comm-Perm [] y = subst (λ l. Perm y l) (sym (append-nil y)) (Perm.refl y)
  append_comm-Perm (a ∷ x) y =
      Perm.trans (Perm.cons a (append_comm-Perm x y)) (Perm.symm (perm_middle y x))

  pub front-Perm : (x y r : List A) → Perm (x ++ (y ++ r)) (y ++ (x ++ r))
  front-Perm x y r =
      subst (λ l. Perm l (y ++ (x ++ r))) (append_assoc x y r)
        (subst (λ l. Perm ((x ++ y) ++ r) l) (append_assoc y x r)
          (Perm.append_right r (append_comm-Perm x y)))

  pub ends-Perm : (rows x y : List A) → Perm ((rows ++ x) ++ y) ((rows ++ y) ++ x)
  ends-Perm rows x y =
      subst (λ l. Perm l ((rows ++ y) ++ x)) (sym (append_assoc rows x y))
        (subst (λ l. Perm (rows ++ (x ++ y)) l) (sym (append_assoc rows y x))
          (Perm.append_left rows (append_comm-Perm x y)))

  pub All-Permᴰ {κ} : (P : A → Type κ) {xs ys : List A} → Permᴰ xs ys → All P xs → All P ys
  All-Permᴰ P Permᴰ.nil a = a
  All-Permᴰ P (Permᴰ.cons e d) a = (subst P e a.0, All-Permᴰ P d a.1)
  All-Permᴰ P (Permᴰ.swap e f) a = (subst P f a.1.0, (subst P e a.0, a.1.1))
  All-Permᴰ P (Permᴰ.trans d₁ d₂) a = All-Permᴰ P d₂ (All-Permᴰ P d₁ a)

module _ {ℓ} {A : Type ℓ} (lt : A → A → Bool) where
  insert_by-Perm : (x : A) (xs : List A) → Perm (insert_by lt x xs) (x ∷ xs)
  unfolding insert_by
  insert_by-Perm x [] = Perm.refl (x ∷ [])
  insert_by-Perm x (y ∷ ys) = elim (Bool-cases (lt y x)) [
    | inl e ↦ rw e (Perm.trans (Perm.cons y (insert_by-Perm x ys)) (Perm.swap x y ys))
    | inr e ↦ rw e (Perm.refl (x ∷ y ∷ ys))
  ]

  pub sort_by-Perm : (xs : List A) → Perm (sort_by lt xs) xs
  unfolding sort_by
  sort_by-Perm [] = Perm.refl []
  sort_by-Perm (x ∷ xs) =
      Perm.trans (insert_by-Perm x (sort_by lt xs)) (Perm.cons x (sort_by-Perm xs))

-- ===== src/Modem/Pdu/Chunks.antt =====
-- The slices that `_encode_parts_gsm7` and `_encode_parts_ucs2` cut.
use mathlib.Core.Path.{subst}
use sim_connectivity_monitor.Prelude.{
  ℕ, zero, suc, ◌+◌, ◌-◌, ◌*◌, ◌≤◌, ◌≡◌, refl, sym, ap, ◌∙◌, List, [], ◌∷◌, ◌++◌, length, take,
  drop, All, All-of_append, take-append-drop, length-take, length-drop, arith,
}
use sim_connectivity_monitor.Modem.Pdu.Encode.{chunk_loop, chunks}

module _ {ℓ} {A : Type ℓ} where
  -- The slices put together.
  unfoldable pub joined_chunks : List (List A) → List A
  joined_chunks [] = []
  joined_chunks (c ∷ cs) = c ++ joined_chunks cs

module _ {ℓ} {A : Type ℓ} (n : ℕ) (hn : 1 ≤ n) where
  -- What is asked of the slices of `xs`.
  IsSlicing : List A → List (List A) → Type ℓ
  IsSlicing xs cs =
      (joined_chunks cs ≡ xs)
      × All (λ c. (1 ≤ length c) × (length c ≤ n)) cs
      × (length cs * n ≤ length xs + n - 1)
      × (length xs ≤ length cs * n)
      × (length xs ≡ 0 → length cs * n ≡ 0)

  chunk_loop-IsSlicing :
      (fuel : ℕ) (xs : List A) → length xs ≤ fuel → IsSlicing xs (chunk_loop fuel n xs)
  unfolding IsSlicing chunk_loop joined_chunks
  chunk_loop-IsSlicing zero [] h = (refl, tt, omega arith, omega arith, λ _. omega arith)
  chunk_loop-IsSlicing zero (x ∷ xs) h = absurd (omega arith)
  chunk_loop-IsSlicing (suc fuel) [] h = (refl, tt, omega arith, omega arith, λ _. omega arith)
  chunk_loop-IsSlicing (suc fuel) (x ∷ xs) h =
      let shorter = length-drop n (x ∷ xs) in
      let first = length-take n (x ∷ xs) in
      let (whole, sizes, upper, lower, empty) =
        chunk_loop-IsSlicing fuel (drop n (x ∷ xs)) (omega (arith, shorter)) in
      (
        ap (λ r. take n (x ∷ xs) ++ r) whole ∙ take-append-drop n (x ∷ xs),
        (omega (arith, first), sizes),
        ground (arith, upper, empty, shorter),
        ground (arith, lower, shorter),
        λ e. absurd (omega (arith, e)),
      )

  -- The slices are the list again, none is empty or longer than `n`, and there are just enough.
  pub chunks_lem :
      (xs : List A)
      → (joined_chunks (chunks n xs) ≡ xs)
        × All (λ c. (1 ≤ length c) × (length c ≤ n)) (chunks n xs)
        × (length xs ≤ length (chunks n xs) * n)
        × (length (chunks n xs) * n ≤ length xs + n - 1)
  unfolding chunks IsSlicing
  chunks_lem xs =
      let (whole, sizes, upper, lower, _) = chunk_loop-IsSlicing (length xs) xs (omega arith) in
      (whole, sizes, lower, upper)

  -- What holds of all items holds of all items of all slices.
  pub All-chunks {κ} : (P : A → Type κ) (xs : List A) → All P xs → All (All P) (chunks n xs)
  unfolding chunks joined_chunks
  All-chunks P xs a = each (chunks n xs) (subst (λ r. All P r) (sym (chunks_lem xs).0) a)
    where
      each : (cs : List (List A)) → All P (joined_chunks cs) → All (All P) cs
      each [] b = tt
      each (c ∷ cs) b =
          let (own, rest) = All-of_append P c (joined_chunks cs) b in (own, each cs rest)

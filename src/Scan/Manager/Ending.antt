-- ===== src/Scan/Manager/Ending.antt =====
-- A scan that has started ends, with all that its worker has done.
use mathlib.Core.Path.{subst}
use sim_connectivity_monitor.Prelude.{
  ℕ, ◌+◌, ◌≡◌, inl, inr, refl, sym, ap, ◌∙◌, Bool-cases, false, Option, none, some, some_inj, List,
  [], ◌∷◌, ◌++◌, append-nil, append_assoc, Text, arith,
}
use sim_connectivity_monitor.Scan.Manager.{
  Kind, Result, ScanState, Manager, Effect, progressed, added, summarised, launch, apply_effect,
  apply_effects, run_scan,
}

module _ {Checks : Type 0} where
  -- The progress and the results that effects bring.
  unfoldable pub moved : List (Effect Checks) → ℕ
  moved [] = 0
  moved (progressed n ∷ effects) = n + moved effects
  moved (added r ∷ effects) = moved effects
  moved (summarised y ∷ effects) = moved effects

  unfoldable pub found : List (Effect Checks) → List Result
  found [] = []
  found (progressed n ∷ effects) = found effects
  found (added r ∷ effects) = r ∷ found effects
  found (summarised y ∷ effects) = found effects

  progress-apply_effects :
      (effects : List (Effect Checks)) (s : ScanState Checks)
      → (apply_effects effects s).progress ≡ s.progress + moved effects
  unfolding apply_effects moved
  progress-apply_effects [] s = omega arith
  progress-apply_effects (progressed n ∷ effects) s =
      omega (arith, progress-apply_effects effects (apply_effect (progressed n) s))
  progress-apply_effects (added r ∷ effects) s =
      progress-apply_effects effects (apply_effect (added r) s)
  progress-apply_effects (summarised y ∷ effects) s =
      progress-apply_effects effects (apply_effect (summarised y) s)

  results-apply_effects :
      (effects : List (Effect Checks)) (s : ScanState Checks)
      → (apply_effects effects s).results ≡ s.results ++ found effects
  unfolding apply_effects found
  results-apply_effects [] s = sym (append-nil s.results)
  results-apply_effects (progressed n ∷ effects) s =
      results-apply_effects effects (apply_effect (progressed n) s)
  results-apply_effects (added r ∷ effects) s =
      results-apply_effects effects (apply_effect (added r) s)
      ∙ append_assoc s.results (r ∷ []) (found effects)
  results-apply_effects (summarised y ∷ effects) s =
      results-apply_effects effects (apply_effect (summarised y) s)

  error-apply_effects :
      (effects : List (Effect Checks)) (s : ScanState Checks)
      → (apply_effects effects s).error ≡ s.error
  unfolding apply_effects
  error-apply_effects [] s = refl
  error-apply_effects (progressed n ∷ effects) s =
      error-apply_effects effects (apply_effect (progressed n) s)
  error-apply_effects (added r ∷ effects) s = error-apply_effects effects (apply_effect (added r) s)
  error-apply_effects (summarised y ∷ effects) s =
      error-apply_effects effects (apply_effect (summarised y) s)

  fresh :
      (kind : Kind) (target : Text) (interface : Option Text) (total now : ℕ) (m n : Manager Checks)
      → launch kind target interface total now m ≡ some n
      → (n.state.progress ≡ 0) × (n.state.results ≡ []) × (n.state.error ≡ none)
  unfolding launch
  fresh kind target interface total now m n h = elim (Bool-cases m.state.running) [
    | inl busy ↦ absurd (cc (rw busy at h))
    | inr free ↦
        subst
          (λ (o : Manager Checks).
            (o.state.progress ≡ 0) × (o.state.results ≡ []) × (o.state.error ≡ none))
          (some_inj (rw free at h)) (refl, refl, refl)
  ]

  -- Let a scan be launched. Whatever its worker does, and whether it returns or raises, after it the
  -- state is not running, with the time of the end and the error, if there is one; the progress is
  -- the sum of the worker's, the results are the worker's in their order, and nothing of an earlier
  -- scan is left in them.
  pub scan_ends :
      (kind : Kind) (target : Text) (interface : Option Text) (total now later : ℕ)
      (m n : Manager Checks) (effects : List (Effect Checks)) (failure : Option Text)
      → launch kind target interface total now m ≡ some n
      → ((run_scan (effects, failure) later n.state).running ≡ false)
        × ((run_scan (effects, failure) later n.state).finished_at ≡ some later)
        × ((run_scan (effects, failure) later n.state).error ≡ failure)
        × ((run_scan (effects, failure) later n.state).progress ≡ moved effects)
        × ((run_scan (effects, failure) later n.state).results ≡ found effects)
  unfolding run_scan
  scan_ends kind target interface total now later m n effects failure h =
      let (progress, results, error) = fresh kind target interface total now m n h in
      go failure n.state progress results error
    where
      go :
          (failure : Option Text) (s : ScanState Checks)
          → s.progress ≡ 0
          → s.results ≡ []
          → s.error ≡ none
          → ((run_scan (effects, failure) later s).running ≡ false)
            × ((run_scan (effects, failure) later s).finished_at ≡ some later)
            × ((run_scan (effects, failure) later s).error ≡ failure)
            × ((run_scan (effects, failure) later s).progress ≡ moved effects)
            × ((run_scan (effects, failure) later s).results ≡ found effects)
      go none s p r e = (
        refl,
        refl,
        error-apply_effects effects s ∙ e,
        omega (arith, progress-apply_effects effects s, p),
        results-apply_effects effects s ∙ ap (λ l. l ++ found effects) r,
      )
      go (some text) s p r e = (
        refl,
        refl,
        refl,
        omega (arith, progress-apply_effects effects s, p),
        results-apply_effects effects s ∙ ap (λ l. l ++ found effects) r,
      )

-- ===== src/Modem/Pdu/HeaderLoop.antt =====
-- src/sim_monitor/modem/pdu.py: the loop over the information elements of a header comes to its end.
use sim_connectivity_monitor.Prelude.{
  ℕ, zero, suc, ◌+◌, ◌<◌, ◌≤◌, ◌≡◌, refl, Bool-cases, inl, inr, true, Option, none, some, List, [],
  ◌∷◌, ◌++◌, is_some, ltb, arith,
}
use sim_connectivity_monitor.Modem.Pdu.UserData.{Concat, element_at, udh_loop}

answers :
    {A B : Type 0} (o : Option A) (next : A → Option (Option B))
    → ((a : A) → is_some (next a) ≡ true)
    → is_some (elim o [ none ↦ some none | some a ↦ next a ]) ≡ true
answers none next h = refl
answers (some a) next h = h a

-- From any place, whatever the data and whatever was found before, the loop is over (by its test, or
-- by an IndexError) before a positive number of rounds that reaches past `end` is used up.
pub udh_loop-ends :
    (fuel : ℕ) (ud : List ℕ) (i end : ℕ) (concat : Option Concat) (ieis : List ℕ)
    → end < i + fuel
    → 1 ≤ fuel
    → is_some (udh_loop fuel ud i end concat ieis) ≡ true
unfolding udh_loop
udh_loop-ends zero ud i end concat ieis h p = absurd (omega (arith, p))
udh_loop-ends (suc fuel) ud i end concat ieis h p = elim (Bool-cases (ltb (i + 1) end)) [
  | inr stop ↦ rw stop refl
  | inl go ↦ rw go (
      answers (element_at ud i concat) _ (λ e.
        udh_loop-ends fuel ud (i + 2 + e.ielen) end e.concat (ieis ++ (e.iei ∷ []))
          (ground (arith, h, go)) (ground (arith, h, go))))
]

-- ===== src/Storage/TrafficFlows/Pruning.antt =====
-- What the pruning of traffic_flows keeps.
use sim_connectivity_monitor.Prelude.{
  ℕ, zero, suc, ◌-◌, ◌≡◌, refl, sym, ◌∙◌, Bool, true, false, not, ◌&&◌, List, [], ◌∷◌, any, keep,
  take, length, sort_by, any-sort_by, ◌==◌, Bool-cases, inl, inr, arith,
}
use sim_connectivity_monitor.Storage.TrafficFlows.{
  StoredFlow, FlowTable, is_expired, is_older, overflowing, prune_traffic_flows,
}
use sim_connectivity_monitor.Storage.TrafficFlows.Live.{
  is_live_in, is_live, any-ids_of, any-keep, HasFallingIds, HasIds, any_above, keep-HasFallingIds,
}

module _ {ℓ} {A : Type ℓ} (p : A → Bool) where
  any-take : (n : ℕ) (xs : List A) → any p (take n xs) ≡ true → any p xs ≡ true
  any-take zero xs h = cc
  any-take (suc n) [] h = h
  any-take (suc n) (x ∷ xs) h = ground (arith, any-take n xs)

-- Only closed rows overflow.
overflowing_closed :
    (max_rows i : ℕ) (rows : List StoredFlow)
    → any (λ j. j == i) (overflowing max_rows rows) ≡ true
    → any (λ r. r.id == i && not r.row.active) rows ≡ true
unfolding overflowing
overflowing_closed max_rows i rows h =
    sym (any-sort_by has is_older (keep closed rows) ∙ any-keep has closed rows)
    ∙ any-take has (length rows - max_rows) (sort_by is_older (keep closed rows))
        (sym (any-ids_of i _) ∙ h)
  where
    has : StoredFlow → Bool
    has r = r.id == i

    closed : StoredFlow → Bool
    closed r = not r.row.active

-- No row is both live and closed.
live_not_closed :
    (bound i : ℕ) (rows : List StoredFlow)
    → HasFallingIds bound rows
    → is_live_in i rows ≡ true
    → any (λ r. r.id == i && not r.row.active) rows ≡ false
live_not_closed bound i [] f h = refl
live_not_closed bound i (r ∷ rows) f h = elim (Bool-cases (r.id == i)) [
  | inl e ↦ ground (
    arith,
    any_above (λ s. s.row.active) r.id i rows f.1 (ground arith),
    any_above (λ s. not s.row.active) r.id i rows f.1 (ground arith),
  )
  | inr e ↦ ground (arith, live_not_closed r.id i rows f.1)
]

live_in-expired :
    (cutoff i : ℕ) (rows : List StoredFlow)
    → is_live_in i (keep (λ r. not (is_expired cutoff r)) rows) ≡ is_live_in i rows
live_in-expired cutoff i [] = refl
live_in-expired cutoff i (r ∷ rows) = ground (arith, live_in-expired cutoff i rows)

live_in-without :
    (gone : List ℕ) (i : ℕ) (rows : List StoredFlow)
    → is_live_in i (keep (λ r. not (any (λ j. j == r.id) gone)) rows)
      ≡ (is_live_in i rows && not (any (λ j. j == i) gone))
live_in-without gone i [] = refl
live_in-without gone i (r ∷ rows) = elim (Bool-cases (r.id == i)) [
  | inl e ↦
      let same : r.id ≡ i = ground arith in rw same (ground (arith, live_in-without gone i rows))
  | inr e ↦ ground (arith, live_in-without gone i rows)
]

spared :
    (max_rows bound i : ℕ) (rows : List StoredFlow)
    → HasFallingIds bound rows
    → (is_live_in i rows && not (any (λ j. j == i) (overflowing max_rows rows))) ≡ is_live_in i rows
spared max_rows bound i rows f = elim (Bool-cases (is_live_in i rows)) [
  | inr e ↦ rw e refl
  | inl e ↦ elim (Bool-cases (any (λ j. j == i) (overflowing max_rows rows))) [
    | inr g ↦ rw (e, g) refl
    | inl g ↦ cc (overflowing_closed max_rows i rows g, live_not_closed bound i rows f e)
  ]
]

-- Pruning takes no live row, and adds none.
pub is_live-prune :
    (cutoff max_rows i : ℕ) (t : FlowTable)
    → HasIds t
    → is_live i (prune_traffic_flows cutoff max_rows t) ≡ is_live i t
unfolding prune_traffic_flows
is_live-prune cutoff max_rows i t h =
    let rest = keep (λ r. not (is_expired cutoff r)) t.rows in
    live_in-without (overflowing max_rows rest) i rest
    ∙ spared max_rows (suc t.last_id) i rest (keep-HasFallingIds _ _ t.rows h)
    ∙ live_in-expired cutoff i t.rows

pub prune_traffic_flows-HasIds :
    (cutoff max_rows : ℕ) (t : FlowTable)
    → HasIds t
    → HasIds (prune_traffic_flows cutoff max_rows t)
unfolding prune_traffic_flows
prune_traffic_flows-HasIds cutoff max_rows t h =
    keep-HasFallingIds _ _ _ (keep-HasFallingIds (λ r. not (is_expired cutoff r)) _ t.rows h)

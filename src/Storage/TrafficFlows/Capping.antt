-- ===== src/Storage/TrafficFlows/Capping.antt =====
-- src/sim_monitor/storage/db.py: the cap on the rows of the traffic audit.
use sim_connectivity_monitor.Prelude.{
  ℕ, zero, suc, ◌+◌, ◌-◌, ◌≤◌, min, max, ◌≡◌, refl, Bool, true, not, List, [], ◌∷◌, any, keep, take,
  length, length-take, length-sort_by, ◌==◌, sort_by, insert_by, arith,
}
use sim_connectivity_monitor.Storage.TrafficFlows.{
  StoredFlow, FlowTable, ids_of, is_older, is_expired, overflowing, prune_traffic_flows,
}

module _ {ℓ} {A : Type ℓ} (p : A → Bool) where
  abbrev tally : List A → ℕ
  tally xs = length (keep p xs)

  tally-insert_by :
      (lt : A → A → Bool) (x : A) (ys : List A) → tally (insert_by lt x ys) ≡ tally (x ∷ ys)
  unfolding insert_by
  tally-insert_by lt x [] = refl
  tally-insert_by lt x (y ∷ ys) = ground (arith, tally-insert_by lt x ys)

  tally-sort_by : (lt : A → A → Bool) (xs : List A) → tally (sort_by lt xs) ≡ tally xs
  unfolding sort_by
  tally-sort_by lt [] = refl
  tally-sort_by lt (x ∷ xs) =
      ground (arith, tally-insert_by lt x (sort_by lt xs), tally-sort_by lt xs)

  tally-keep : (q : A → Bool) (xs : List A) → tally (keep q xs) ≤ tally xs
  tally-keep q [] = omega arith
  tally-keep q (x ∷ xs) = ground (arith, tally-keep q xs)

  tally-take : (n : ℕ) (xs : List A) → tally (take n xs) ≤ tally xs
  tally-take zero xs = omega arith
  tally-take (suc n) [] = omega arith
  tally-take (suc n) (x ∷ xs) = ground (arith, tally-take n xs)

  tally-not : (xs : List A) → tally xs + length (keep (λ x. not (p x)) xs) ≡ length xs
  tally-not [] = omega arith
  tally-not (x ∷ xs) = ground (arith, tally-not xs)

-- Rows whose ids are all among some ids are all counted by them.
tally_members :
    (among : ℕ → Bool) (rows : List StoredFlow)
    → ((i : ℕ) → any (λ j. j == i) (ids_of rows) ≡ true → among i ≡ true)
    → tally (λ (r : StoredFlow). among r.id) rows ≡ length rows
tally_members among [] h = refl
tally_members among (r ∷ rows) h =
    ground (arith, h r.id, tally_members among rows (λ i e. h i (ground (arith, e))))

abbrev closed : StoredFlow → Bool
closed r = not r.row.active

-- The overflow is as long as it has to be, or all of the closed flows.
overflow_counts :
    (max_rows : ℕ) (rows : List StoredFlow)
    → min (length rows - max_rows) (length (keep closed rows))
      ≤ tally (λ (r : StoredFlow). any (λ i. i == r.id) (overflowing max_rows rows)) rows
unfolding overflowing
overflow_counts max_rows rows = omega (
  arith,
  length-take (length rows - max_rows) sorted,
  length-sort_by is_older (keep closed rows),
  tally_members among oldest (λ i e. e),
  tally-take gone (length rows - max_rows) sorted,
  tally-sort_by gone is_older (keep closed rows),
  tally-keep gone closed rows,
)
  where
    sorted : List StoredFlow
    sorted = sort_by is_older (keep closed rows)

    oldest : List StoredFlow
    oldest = take (length rows - max_rows) sorted

    among : ℕ → Bool
    among i = any (λ j. j == i) (ids_of oldest)

    gone : StoredFlow → Bool
    gone r = among r.id

-- After the pruning there are at most as many rows as the cap says, or as there are active flows,
-- if these are more.
pub prune_traffic_flows-IsCapped :
    (cutoff max_rows : ℕ) (t : FlowTable)
    → length (prune_traffic_flows cutoff max_rows t).rows
      ≤ max max_rows (length (keep (λ (r : StoredFlow). r.row.active) t.rows))
unfolding prune_traffic_flows
prune_traffic_flows-IsCapped cutoff max_rows t = omega (
  arith,
  overflow_counts max_rows rest,
  tally-not (λ (r : StoredFlow). any (λ i. i == r.id) (overflowing max_rows rest)) rest,
  tally-not (λ (r : StoredFlow). r.row.active) rest,
  tally-keep (λ (r : StoredFlow). r.row.active) (λ r. not (is_expired cutoff r)) t.rows,
)
  where
    rest : List StoredFlow
    rest = keep (λ r. not (is_expired cutoff r)) t.rows

-- ===== src/Storage/TrafficFlows/Live.antt =====
-- Which rows of traffic_flows are flagged active, after each operation.
use sim_connectivity_monitor.Prelude.{
  ℕ, suc, ◌≤◌, ◌<◌, ◌≡◌, refl, ap, ◌∙◌, Bool, true, false, not, ◌&&◌, ◌||◌, List, [], ◌∷◌, any,
  keep, map, take, zero, length, sort_by, any-sort_by, length-sort_by, ◌==◌, if◌then◌else◌,
  Bool-cases, inl, inr, arith,
}
use sim_connectivity_monitor.Storage.TrafficFlows.{
  FlowRow, StoredFlow, FlowTable, Counters, with_id, add_traffic_flow, update_where,
  active_flow_ids, ids_of, is_newer, update_traffic_flow, close_flow, close_traffic_flows,
}

-- Whether the row of this id is flagged active.
abbrev pub is_live_in : ℕ → List StoredFlow → Bool
is_live_in i rows = any (λ r. r.id == i && r.row.active) rows

abbrev pub is_live : ℕ → FlowTable → Bool
is_live i t = is_live_in i t.rows

-- The ids fall from the newest row to the oldest, below a bound.
abbrev pub HasFallingIds : ℕ → List StoredFlow → Type 0
HasFallingIds bound [] = Unit
HasFallingIds bound (r ∷ rows) = (r.id < bound) × HasFallingIds r.id rows

-- No id is above the last that was given, and no two are the same.
abbrev pub HasIds : FlowTable → Type 0
HasIds t = HasFallingIds (suc t.last_id) t.rows

pub any_above :
    (q : StoredFlow → Bool) (bound i : ℕ) (rows : List StoredFlow)
    → HasFallingIds bound rows
    → bound ≤ i
    → any (λ r. r.id == i && q r) rows ≡ false
any_above q bound i [] h k = refl
any_above q bound i (r ∷ rows) h k =
    ground (arith, h.0, any_above q r.id i rows h.1 (omega (arith, h.0, k)))

HasFallingIds-weaken :
    (low high : ℕ) (rows : List StoredFlow)
    → low ≤ high
    → HasFallingIds low rows
    → HasFallingIds high rows
HasFallingIds-weaken low high [] k h = tt
HasFallingIds-weaken low high (r ∷ rows) k h = (omega (arith, h.0, k), h.1)

pub keep-HasFallingIds :
    (p : StoredFlow → Bool) (bound : ℕ) (rows : List StoredFlow)
    → HasFallingIds bound rows
    → HasFallingIds bound (keep p rows)
keep-HasFallingIds p bound [] h = tt
keep-HasFallingIds p bound (r ∷ rows) h = elim (Bool-cases (p r)) [
  | inl e ↦ rw e (h.0, keep-HasFallingIds p r.id rows h.1)
  | inr e ↦ rw e (
      HasFallingIds-weaken r.id bound (keep p rows) (omega (arith, h.0))
        (keep-HasFallingIds p r.id rows h.1))
]

map-HasFallingIds :
    (j : ℕ) (change : FlowRow → FlowRow) (bound : ℕ) (rows : List StoredFlow)
    → HasFallingIds bound rows
    → HasFallingIds bound (map (with_id j change) rows)
map-HasFallingIds j change bound [] h = tt
map-HasFallingIds j change bound (r ∷ rows) h = (h.0, map-HasFallingIds j change r.id rows h.1)

pub add_traffic_flow-HasIds :
    (row : FlowRow) (t : FlowTable) → HasIds t → HasIds (add_traffic_flow row t).0
unfolding add_traffic_flow
add_traffic_flow-HasIds row t h = (omega arith, h)

pub update_traffic_flow-HasIds :
    (i last_seen : ℕ) (n : Counters) (active : Bool) (t : FlowTable)
    → HasIds t
    → HasIds (update_traffic_flow i last_seen n active t)
unfolding update_traffic_flow
update_traffic_flow-HasIds i last_seen n active t h = map-HasFallingIds i _ _ t.rows h

pub close_traffic_flows-HasIds :
    (row_ids : List ℕ) (t : FlowTable) → HasIds t → HasIds (close_traffic_flows row_ids t)
unfolding close_traffic_flows
close_traffic_flows-HasIds [] t h = h
close_traffic_flows-HasIds (i ∷ row_ids) t h =
    close_traffic_flows-HasIds row_ids _ (map-HasFallingIds i _ _ t.rows h)

-- A new row is live as it says, and the others as before.
pub is_live-add :
    (i : ℕ) (row : FlowRow) (t : FlowTable)
    → is_live i (add_traffic_flow row t).0 ≡ ((suc t.last_id == i && row.active) || is_live i t)
unfolding add_traffic_flow
is_live-add i row t = refl

-- The id of a new row is not that of a live one.
pub is_live-next : (t : FlowTable) → HasIds t → is_live (suc t.last_id) t ≡ false
is_live-next t h =
    any_above (λ r. r.row.active) (suc t.last_id) (suc t.last_id) t.rows h (omega arith)

live_in-close :
    (i j : ℕ) (rows : List StoredFlow)
    → is_live_in i (map (with_id j close_flow) rows) ≡ (is_live_in i rows && not (j == i))
live_in-close i j [] = refl
live_in-close i j (r ∷ rows) = ground (arith, live_in-close i j rows)

-- A closed row is live no more.
pub is_live-close :
    (i : ℕ) (row_ids : List ℕ) (t : FlowTable)
    → is_live i (close_traffic_flows row_ids t) ≡ (is_live i t && not (any (λ j. j == i) row_ids))
unfolding close_traffic_flows
is_live-close i [] t = ground arith
is_live-close i (j ∷ row_ids) t =
    ground (arith, is_live-close i row_ids (update_where j close_flow t), live_in-close i j t.rows)

-- Whether there is a row of this id.
abbrev has_row : ℕ → List StoredFlow → Bool
has_row i rows = any (λ r. r.id == i) rows

has_row_of_live :
    (i : ℕ) (rows : List StoredFlow) → is_live_in i rows ≡ true → has_row i rows ≡ true
has_row_of_live i [] h = cc
has_row_of_live i (r ∷ rows) h = ground (arith, has_row_of_live i rows)

live_in-update :
    (i j : ℕ) (change : FlowRow → FlowRow) (active : Bool) (rows : List StoredFlow)
    → ((row : FlowRow) → (change row).active ≡ active)
    → is_live_in i (map (with_id j change) rows)
      ≡ (if j == i then has_row j rows && active else is_live_in i rows)
live_in-update i j change active [] h = ground arith
live_in-update i j change active (r ∷ rows) h =
    ground (arith, h r.row, live_in-update i j change active rows h)

-- A live row is as the update says, and the others as before.
pub is_live-update :
    (i j last_seen : ℕ) (n : Counters) (active : Bool) (t : FlowTable)
    → is_live j t ≡ true
    → is_live i (update_traffic_flow j last_seen n active t)
      ≡ (if j == i then active else is_live i t)
unfolding update_traffic_flow
is_live-update i j last_seen n active t l =
    live_in-update i j _ active t.rows (λ row. refl) ∙ rw (has_row_of_live j t.rows l) refl

module _ {ℓ} {A : Type ℓ} where
  pub any-keep : (p q : A → Bool) (xs : List A) → any p (keep q xs) ≡ any (λ x. p x && q x) xs
  any-keep p q [] = refl
  any-keep p q (x ∷ xs) = ground (arith, any-keep p q xs)

  length-keep : (p : A → Bool) (xs : List A) → length (keep p xs) ≤ length xs
  length-keep p [] = omega arith
  length-keep p (x ∷ xs) = ground (arith, length-keep p xs)

  take-all : (n : ℕ) (xs : List A) → length xs ≤ n → take n xs ≡ xs
  take-all zero [] h = refl
  take-all zero (x ∷ xs) h = absurd (omega (arith, h))
  take-all (suc n) [] h = refl
  take-all (suc n) (x ∷ xs) h = ap (λ r. x ∷ r) (take-all n xs (omega (arith, h)))

pub any-ids_of :
    (i : ℕ) (rows : List StoredFlow) → any (λ j. j == i) (ids_of rows) ≡ any (λ r. r.id == i) rows
any-ids_of i [] = refl
any-ids_of i (r ∷ rows) = ground (arith, any-ids_of i rows)

-- A query that reaches all rows finds the live ones.
pub active_flow_ids_lem :
    (limit i : ℕ) (t : FlowTable)
    → length t.rows ≤ limit
    → any (λ j. j == i) (active_flow_ids limit t) ≡ is_live i t
unfolding active_flow_ids
active_flow_ids_lem limit i t h =
    any-ids_of i (take limit sorted)
    ∙ ap (any has) (
        take-all limit sorted
          (omega (arith, h, length-sort_by is_newer kept, length-keep live t.rows)))
    ∙ any-sort_by has is_newer kept
    ∙ any-keep has live t.rows
  where
    has : StoredFlow → Bool
    has r = r.id == i

    live : StoredFlow → Bool
    live r = r.row.active

    kept : List StoredFlow
    kept = keep live t.rows

    sorted : List StoredFlow
    sorted = sort_by is_newer kept

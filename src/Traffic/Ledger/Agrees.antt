-- ===== src/Traffic/Ledger/Agrees.antt =====
-- The rows of traffic_flows that are flagged active are the rows that `_active` tracks: every step
-- of the bookkeeping keeps it so.
use sim_connectivity_monitor.Prelude.{
  ℕ, suc, ◌≡◌, refl, sym, ◌∙◌, Bool, true, false, not, ◌&&◌, Option, none, some, List, [], ◌∷◌, any,
  map, ◌==◌, if◌then◌else◌, dict_get, dict_remove, Option-cases, some_inj, ap, length, ◌≤◌,
  Bool-cases, Text, ℤ, inl, inr, arith,
}
use sim_connectivity_monitor.Storage.TrafficFlows.{
  FlowRow, FlowTable, add_traffic_flow, close_traffic_flows,
}
use sim_connectivity_monitor.Storage.TrafficFlows.Live.{
  is_live, HasIds, add_traffic_flow-HasIds, update_traffic_flow-HasIds, close_traffic_flows-HasIds,
  is_live-add, is_live-next, is_live-close, is_live-update, active_flow_ids_lem,
}
use sim_connectivity_monitor.Traffic.Flow.{FlowEvent}
use sim_connectivity_monitor.Traffic.Ledger.{
  Ledger, flow_row_of, counters, finish_flow, checkpoint_row, checkpoint, checkpoint_all, pop_all,
  close_stale, close_tracked, forget_stale,
}
use sim_connectivity_monitor.Traffic.Ledger.Tracked.{
  is_tracked, IsOneToOne, is_tracked-get, remove-absent, remove-IsOneToOne, is_tracked-remove,
  is_tracked-set, set-IsOneToOne,
}

pub record Agrees (l : Ledger) : Type 0 where
  pub ids : HasIds l.flows
  pub one_to_one : IsOneToOne l.active
  pub live : (i : ℕ) → is_live i l.flows ≡ is_tracked i l.active

live_of_get :
    (l : Ledger) (k v : ℕ) → Agrees l → dict_get k l.active ≡ some v → is_live v l.flows ≡ true
live_of_get l k v a g = a.live v ∙ is_tracked-get k v l.active g

-- A tracked row that ends, however the table is told.
untrack-Agrees :
    (l : Ledger) (k v : ℕ) (flows : FlowTable)
    → Agrees l
    → dict_get k l.active ≡ some v
    → HasIds flows
    → ((i : ℕ) → is_live i flows ≡ (is_live i l.flows && not (v == i)))
    → Agrees (record { active = dict_remove k l.active; flows = flows })
untrack-Agrees l k v flows a g ids ends = record {
  ids = ids;
  one_to_one = remove-IsOneToOne k l.active a.one_to_one;
  live = λ i. ends i ∙ rw (a.live i) (sym (is_tracked-remove i k v l.active a.one_to_one g));
}

close-Agrees :
    (l : Ledger) (k v : ℕ)
    → Agrees l
    → dict_get k l.active ≡ some v
    → Agrees
        (record { active = dict_remove k l.active; flows = close_traffic_flows (v ∷ []) l.flows })
close-Agrees l k v a g =
    untrack-Agrees l k v _ a g (close_traffic_flows-HasIds (v ∷ []) l.flows a.ids)
      (λ i. is_live-close i (v ∷ []) l.flows ∙ ground arith)

-- A new row that is not live.
add-Agrees :
    (l : Ledger) (row : FlowRow)
    → Agrees l
    → row.active ≡ false
    → Agrees (record l { flows = (add_traffic_flow row l.flows).0 })
add-Agrees l row a e = record {
  ids = add_traffic_flow-HasIds row l.flows a.ids;
  one_to_one = a.one_to_one;
  live = λ i. is_live-add i row l.flows ∙ ground (arith, e, a.live i);
}

-- The end of a flow keeps the agreement, if its row is not live.
pub finish_flow-Agrees :
    (row : Option FlowRow) (ct_id : Option ℕ) (ts : ℕ) (l : Ledger)
    → ((r : FlowRow) → row ≡ some r → r.active ≡ false)
    → Agrees l
    → Agrees (finish_flow row ct_id ts l).0
unfolding finish_flow
finish_flow-Agrees none none ts l h a = a
finish_flow-Agrees (some row) none ts l h a = add-Agrees l row a (h row refl)
finish_flow-Agrees none (some k) ts l h a = elim (Option-cases (dict_get k l.active)) [
  | inl e ↦ rw (e, remove-absent k l.active e) a
  | inr (v, e) ↦ rw e (close-Agrees l k v a e)
]
finish_flow-Agrees (some row) (some k) ts l h a = elim (Option-cases (dict_get k l.active)) [
  | inl e ↦ rw (e, remove-absent k l.active e) (add-Agrees l row a (h row refl))
  | inr (v, e) ↦ rw e (
      untrack-Agrees l k v _ a e
        (update_traffic_flow-HasIds v ts (counters row) false l.flows a.ids)
        (λ i.
          is_live-update i v ts (counters row) false l.flows (live_of_get l k v a e)
          ∙ ground arith))
]

tracked_again :
    (i v : ℕ) (m : List (ℕ × ℕ)) {live : Bool}
    → live ≡ is_tracked i m
    → is_tracked v m ≡ true
    → (if v == i then true else live) ≡ is_tracked i m
tracked_again i v m e h = elim (Bool-cases (v == i)) [
  | inl q ↦ let same : v ≡ i = ground arith in rw (q, ← same, h) refl
  | inr q ↦ rw (q, e) refl
]

checkpoint_row-Agrees :
    (ct_id : ℕ) (row : FlowRow) (now : ℕ) (l : Ledger)
    → row.active ≡ true
    → Agrees l
    → Agrees (checkpoint_row ct_id row (dict_get ct_id l.active) now l)
unfolding checkpoint_row add_traffic_flow
checkpoint_row-Agrees k row now l h a = elim (Option-cases (dict_get k l.active)) [
  | inl e ↦
      let fresh : is_tracked (suc l.flows.last_id) l.active ≡ false =
        sym (a.live (suc l.flows.last_id)) ∙ is_live-next l.flows a.ids in
      rw e (record {
        ids = add_traffic_flow-HasIds row l.flows a.ids;
        one_to_one = set-IsOneToOne k (suc l.flows.last_id) l.active a.one_to_one e fresh;
        live = λ i. ground (
          arith,
          is_live-add i row l.flows,
          a.live i,
          h,
          is_tracked-set i k (suc l.flows.last_id) l.active e,
        );
      })
  | inr (v, e) ↦ rw e (record {
    ids = update_traffic_flow-HasIds v now (counters row) true l.flows a.ids;
    one_to_one = a.one_to_one;
    live = λ i.
        is_live-update i v now (counters row) true l.flows (live_of_get l k v a e)
        ∙ tracked_again i v l.active (a.live i) (is_tracked-get k v l.active e);
  })
]

checkpoint-Agrees :
    (ct_id : Option ℕ) (row : Option FlowRow) (now : ℕ) (s : Ledger × List ℕ)
    → ((r : FlowRow) → row ≡ some r → r.active ≡ true)
    → Agrees s.0
    → Agrees (checkpoint ct_id row now s).0
unfolding checkpoint
checkpoint-Agrees none row now s h a = a
checkpoint-Agrees (some k) none now s h a = a
checkpoint-Agrees (some k) (some row) now s h a = checkpoint_row-Agrees k row now s.0 (h row refl) a

some_of_if : {x y : FlowRow} (b : Bool) → (if b then none else some x) ≡ some y → x ≡ y
some_of_if true e = cc
some_of_if false e = some_inj e

-- A row is as active as it was asked to be.
pub flow_row_of-active :
    (ifmap : List (Text × Text)) (ev : FlowEvent) (first_seen : ℤ) (last_seen : ℕ)
    (active include_local : Bool) (r : FlowRow)
    → flow_row_of ifmap ev first_seen last_seen active include_local ≡ some r
    → r.active ≡ active
unfolding flow_row_of
flow_row_of-active ifmap ev first_seen last_seen active include_local r e =
    sym (ap (λ (row : FlowRow). row.active) (some_of_if _ e))

-- A snapshot keeps the agreement.
pub checkpoint_all-Agrees :
    (ifmap : List (Text × Text)) (include_local : Bool) (now : ℕ) (snap : List FlowEvent)
    (s : Ledger × List ℕ)
    → Agrees s.0
    → Agrees (checkpoint_all ifmap include_local now snap s).0
unfolding checkpoint_all
checkpoint_all-Agrees ifmap include_local now [] s a = a
checkpoint_all-Agrees ifmap include_local now (ev ∷ snap) s a =
    checkpoint_all-Agrees ifmap include_local now snap _
      (checkpoint-Agrees ev.ct_id _ now s (flow_row_of-active ifmap ev _ now true include_local) a)

pop_all-Agrees :
    (keys : List ℕ) (l : Ledger)
    → Agrees l
    → Agrees (record {
      active = (pop_all keys l.active).1;
      flows = close_traffic_flows (pop_all keys l.active).0 l.flows;
    })
unfolding pop_all close_traffic_flows
pop_all-Agrees [] l a = a
pop_all-Agrees (k ∷ keys) l a = elim (Option-cases (dict_get k l.active)) [
  | inl e ↦ rw (e, remove-absent k l.active e) (pop_all-Agrees keys l a)
  | inr (v, e) ↦ rw e (pop_all-Agrees keys _ (close-Agrees l k v a e))
]

and-not : (b : Bool) → (b && not b) ≡ false
and-not true = refl
and-not false = refl

any-values :
    (i : ℕ) (m : List (ℕ × ℕ)) → any (λ j. j == i) (map (λ (e : ℕ × ℕ). e.1) m) ≡ is_tracked i m
any-values i [] = refl
any-values i (e ∷ m) = ground (arith, any-values i m)

-- The closing of all tracked flows leaves no row that is live.
pub close_tracked-Agrees : (l : Ledger) → Agrees l → Agrees (close_tracked l)
unfolding close_tracked
close_tracked-Agrees l a = record {
  ids = close_traffic_flows-HasIds _ l.flows a.ids;
  one_to_one = tt;
  live = λ i.
      is_live-close i _ l.flows
      ∙ rw (any-values i l.active, a.live i) (and-not (is_tracked i l.active));
}

-- The start of the source leaves no row that is live, if the query reaches all rows.
pub forget_stale-Agrees :
    (limit : ℕ) (l : Ledger)
    → HasIds l.flows
    → length l.flows.rows ≤ limit
    → Agrees (forget_stale limit l)
unfolding forget_stale
forget_stale-Agrees limit l h k = record {
  ids = close_traffic_flows-HasIds _ l.flows h;
  one_to_one = tt;
  live = λ i.
      is_live-close i _ l.flows
      ∙ rw (active_flow_ids_lem limit i l.flows k) (and-not (is_live i l.flows));
}

-- The closing of flows that a snapshot has not seen keeps the agreement.
pub close_stale-Agrees : (seen : List ℕ) (l : Ledger) → Agrees l → Agrees (close_stale seen l)
unfolding close_stale
close_stale-Agrees seen l a = pop_all-Agrees _ l a

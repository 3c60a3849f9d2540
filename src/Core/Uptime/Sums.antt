-- ===== src/Core/Uptime/Sums.antt =====
-- src/sim_monitor/core/uptime.py: the two sums and the outages account for the whole window.
use sim_connectivity_monitor.Prelude.{
  ℕ, ◌+◌, ◌-◌, ◌≤◌, min, max, ◌≡◌, refl, Bool, true, false, Option, none, some, List, [], ◌∷◌, ◌++◌,
  Text, arith,
}
use mathlib.Core.Path.{subst}
use sim_connectivity_monitor.Core.Uptime.{
  Edge, Episode, Tally, begin, spend, close, cross, step, run, finish, summarize, outage,
}

-- The edges come in ascending order, none before `from`.
unfoldable pub IsAscending : ℕ → List Edge → Type 0
IsAscending from [] = Unit
IsAscending from (e ∷ es) = from ≤ e.at × IsAscending e.at es

abbrev pub total_down : List Episode → ℕ
total_down [] = 0
total_down (e ∷ es) = e.duration_s + total_down es

-- How long the outage that is open has lasted.
abbrev pub open_down : Bool → Option ℕ → ℕ → ℕ
open_down true _ cursor = 0
open_down false none cursor = 0
open_down false (some from) cursor = cursor - from

abbrev pub IsOpen : Bool → Option ℕ → ℕ → Type 0
IsOpen true _ cursor = Unit
IsOpen false none cursor = ⊥
IsOpen false (some from) cursor = from ≤ cursor

-- The time up to the cursor is accounted for, and the time down is that of the outages, with the one
-- that is open.
abbrev Sound : ℕ → ℕ → ℕ → List Episode → Bool → ℕ → Option ℕ → Type 0
Sound t0 c d es up k s = (c + d + t0 ≡ k) × (total_down es + open_down up s k ≡ d) × IsOpen up s k

unfoldable pub IsTally : ℕ → Tally → Type 0
IsTally t0 t = Sound t0 t.connected_s t.down_s t.episodes t.cur_up t.cursor t.down_start

total_down-append :
    (es : List Episode) (e : Episode) → total_down (es ++ e ∷ []) ≡ total_down es + e.duration_s
total_down-append [] e = omega arith
total_down-append (x ∷ es) e = omega (arith, total_down-append es e)

module _ (t0 c d : ℕ) (es : List Episode) (k ts : ℕ) where
  spend-up :
      (s : Option ℕ) → Sound t0 c d es true k s → k ≤ ts → Sound t0 (c + (ts - k)) d es true ts s
  spend-up s (p, q, o) h = (omega (arith, p, h), q, tt)

  spend-down :
      (s : Option ℕ) → Sound t0 c d es false k s → k ≤ ts → Sound t0 c (d + (ts - k)) es false ts s
  spend-down none (p, q, o) h = absurd o
  spend-down (some from) (p, q, o) h =
      (omega (arith, p, h), omega (arith, q, o, h), omega (arith, o, h))

module _ (t0 c d : ℕ) (es : List Episode) (ts : ℕ) where
  go-down : (s : Option ℕ) → Sound t0 c d es true ts s → Sound t0 c d es false ts (some ts)
  go-down s (p, q, o) = (p, omega (arith, q), omega arith)

  close-down :
      (s : Option ℕ) (detail : Option Text) (ongoing : Bool)
      → Sound t0 c d es false ts s
      → Sound t0 c d (close s detail ts ongoing es) true ts none
  close-down none detail ongoing (p, q, o) = absurd o
  close-down (some from) detail ongoing (p, q, o) =
      (p, omega (arith, q, total_down-append es (outage from ts detail ongoing)), tt)

-- An edge that stands at or after the cursor.
step-IsTally :
    (t0 t1 : ℕ) (e : Edge) (t : Tally)
    → t.cursor ≤ min (max e.at t0) t1
    → IsTally t0 t
    → IsTally t0 (step t0 t1 e t)
unfolding step spend cross IsTally
step-IsTally t0 t1 e t h inv = go t.cur_up e.up refl refl
  where
    ts : ℕ
    ts = min (max e.at t0) t1

    known :
        (b : Bool)
        → t.cur_up ≡ b
        → Sound t0 t.connected_s t.down_s t.episodes b t.cursor t.down_start
    known b p =
        subst (λ x. Sound t0 t.connected_s t.down_s t.episodes x t.cursor t.down_start) p inv

    up :
        t.cur_up ≡ true
        → Sound t0 (t.connected_s + (ts - t.cursor)) t.down_s t.episodes true ts t.down_start
    up p = spend-up t0 t.connected_s t.down_s t.episodes t.cursor ts t.down_start (known true p) h

    down :
        t.cur_up ≡ false
        → Sound t0 t.connected_s (t.down_s + (ts - t.cursor)) t.episodes false ts t.down_start
    down p =
        spend-down t0 t.connected_s t.down_s t.episodes t.cursor ts t.down_start (known false p) h

    go : (b u : Bool) → t.cur_up ≡ b → e.up ≡ u → IsTally t0 (step t0 t1 e t)
    go true true p q = rw (p, q) (up p)
    go true false p q =
        rw (p, q)
          (go-down t0 (t.connected_s + (ts - t.cursor)) t.down_s t.episodes ts t.down_start (up p))
    go false true p q =
        rw (p, q)
          (close-down t0 t.connected_s (t.down_s + (ts - t.cursor)) t.episodes ts t.down_start
            t.down_detail false (down p))
    go false false p q = rw (p, q) (down p)

step-cursor : (t0 t1 : ℕ) (e : Edge) (t : Tally) → (step t0 t1 e t).cursor ≡ min (max e.at t0) t1
unfolding step
step-cursor t0 t1 e t = refl

run-IsTally :
    (t0 t1 from : ℕ) (es : List Edge) (t : Tally)
    → IsAscending from es
    → t.cursor ≡ min (max from t0) t1
    → IsTally t0 t
    → IsTally t0 (run t0 t1 es t) × ((run t0 t1 es t).cursor ≤ t1)
unfolding run IsAscending
run-IsTally t0 t1 from [] t h k inv = (inv, omega (arith, k))
run-IsTally t0 t1 from (e ∷ es) t h k inv =
    run-IsTally t0 t1 e.at es (step t0 t1 e t) h.1 (step-cursor t0 t1 e t)
      (step-IsTally t0 t1 e t (omega (arith, k, h.0)) inv)

abbrev Whole : ℕ → ℕ → Tally → Type 0
Whole t0 t1 t = (t.connected_s + t.down_s + t0 ≡ t1) × (total_down t.episodes ≡ t.down_s)

whole :
    (t0 c d : ℕ) (es : List Episode) (k : ℕ) (s : Option ℕ)
    → Sound t0 c d es true k s
    → (c + d + t0 ≡ k) × (total_down es ≡ d)
whole t0 c d es k s (p, q, o) = (p, omega (arith, q))

finish-Whole : (t0 t1 : ℕ) (t : Tally) → t.cursor ≤ t1 → IsTally t0 t → Whole t0 t1 (finish t1 t)
unfolding finish spend IsTally
finish-Whole t0 t1 t h inv = go t.cur_up refl
  where
    known :
        (b : Bool)
        → t.cur_up ≡ b
        → Sound t0 t.connected_s t.down_s t.episodes b t.cursor t.down_start
    known b p =
        subst (λ x. Sound t0 t.connected_s t.down_s t.episodes x t.cursor t.down_start) p inv

    go : (b : Bool) → t.cur_up ≡ b → Whole t0 t1 (finish t1 t)
    go true p = rw p (
        whole t0 (t.connected_s + (t1 - t.cursor)) t.down_s t.episodes t1 t.down_start
          (spend-up t0 t.connected_s t.down_s t.episodes t.cursor t1 t.down_start (known true p) h))
    go false p = rw p (
        whole t0 t.connected_s (t.down_s + (t1 - t.cursor)) _ t1 none (
          close-down t0 t.connected_s (t.down_s + (t1 - t.cursor)) t.episodes t1 t.down_start
            t.down_detail true
            (spend-down t0 t.connected_s t.down_s t.episodes t.cursor t1 t.down_start
              (known false p) h)))

begin-IsTally :
    (start_up : Bool) (t0 : ℕ) (detail : Option Text) → IsTally t0 (begin start_up t0 detail)
unfolding IsTally
begin-IsTally true t0 detail = (omega arith, omega arith, tt)
begin-IsTally false t0 detail = (omega arith, omega arith, omega arith)

-- For edges in ascending order, also before and after the window: the time connected and the time
-- down make up the window (which is empty if it ends before it starts), and the time down is the
-- sum of the durations of the outages that are listed.
pub summarize-accounts :
    (start_up : Bool) (edges : List Edge) (t0 t1 : ℕ) (detail : Option Text)
    → IsAscending 0 edges
    → ((summarize start_up edges t0 t1 detail).connected_s
          + (summarize start_up edges t0 t1 detail).down_s
          + t0
        ≡ max t0 t1)
      × (total_down (summarize start_up edges t0 t1 detail).episodes
          ≡ (summarize start_up edges t0 t1 detail).down_s)
unfolding summarize
summarize-accounts start_up edges t0 t1 detail h =
    let (inv, bound) =
      run-IsTally t0 (max t0 t1) 0 edges (begin start_up t0 detail) h (omega arith)
        (begin-IsTally start_up t0 detail) in
    finish-Whole t0 (max t0 t1) (run t0 (max t0 t1) edges (begin start_up t0 detail)) bound inv

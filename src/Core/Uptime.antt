-- ===== src/Core/Uptime.antt =====
-- src/sim_monitor/core/uptime.py. Times are whole numbers; the edges come in ascending order, as the
-- function asks, so that no difference is negative. The percentage, the count and the longest outage
-- are read off the sums and the list.
mod Sums
mod Tests
use sim_connectivity_monitor.Prelude.{
  ℕ, ◌+◌, ◌-◌, min, max, Bool, true, false, not, Option, none, some, List, [], ◌∷◌, ◌++◌, Text,
  bool_eq, ltb, if◌then◌else◌,
}

pub record Edge : Type 0 where
  pub at : ℕ
  pub up : Bool
  pub detail : Option Text

pub record Episode : Type 0 where
  pub start : ℕ
  pub end : ℕ
  pub duration_s : ℕ
  pub detail : Option Text
  pub ongoing : Bool

-- The variables of the loop; an outage that is open has its start and its reason.
pub record Tally : Type 0 where
  pub connected_s : ℕ
  pub down_s : ℕ
  pub episodes : List Episode
  pub cur_up : Bool
  pub cursor : ℕ
  pub down_start : Option ℕ
  pub down_detail : Option Text

abbrev pub begin : Bool → ℕ → Option Text → Tally
begin start_up t0 detail = record {
  connected_s = 0;
  down_s = 0;
  episodes = [];
  cur_up = start_up;
  cursor = t0;
  down_start = if start_up then none else some t0;
  down_detail = if start_up then none else detail;
}

-- The time since the cursor, to the side that the link is on.
unfoldable pub spend : ℕ → Tally → Tally
spend ts t =
    if t.cur_up
    then record t { connected_s = t.connected_s + (ts - t.cursor) }
    else record t { down_s = t.down_s + (ts - t.cursor) }

abbrev pub outage : ℕ → ℕ → Option Text → Bool → Episode
outage from to detail ongoing = record {
  start = from;
  end = to;
  duration_s = to - from;
  detail = detail;
  ongoing = ongoing;
}

abbrev pub close : Option ℕ → Option Text → ℕ → Bool → List Episode → List Episode
close none detail ts ongoing episodes = episodes
close (some from) detail ts ongoing episodes = episodes ++ outage from ts detail ongoing ∷ []

-- A transition that is none leaves the outage as it is.
unfoldable pub cross : ℕ → Edge → Tally → Tally
cross ts e t =
    if bool_eq e.up t.cur_up
    then t
    else if e.up
    then record t {
      episodes = close t.down_start t.down_detail ts false t.episodes;
      down_start = none;
      down_detail = none;
      cur_up = true;
    }
    else record t { down_start = some ts; down_detail = e.detail; cur_up = false }

unfoldable pub step : ℕ → ℕ → Edge → Tally → Tally
unfolding spend cross
step t0 t1 e t = let ts = min (max e.at t0) t1 in record (cross ts e (spend ts t)) { cursor = ts }

unfoldable pub run : ℕ → ℕ → List Edge → Tally → Tally
unfolding step
run t0 t1 [] t = t
run t0 t1 (e ∷ es) t = run t0 t1 es (step t0 t1 e t)

-- The tail to the end of the window.
unfoldable pub finish : ℕ → Tally → Tally
unfolding spend
finish t1 t =
    let spent = spend t1 t in
    if t.cur_up
    then spent
    else record spent { episodes = close t.down_start t.down_detail t1 true t.episodes }

unfoldable pub summarize : Bool → List Edge → ℕ → ℕ → Option Text → Tally
unfolding run finish
summarize start_up edges t0 t1 detail =
    finish (max t0 t1) (run t0 (max t0 t1) edges (begin start_up t0 detail))

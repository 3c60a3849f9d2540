-- ===== src/Monitor/Schedule.antt =====
-- src/sim_monitor/monitor/schedule.py, with `MonitorSchedule` of config/schema.py. The time zone
-- database is outside: `local` is the weekday, the hour and the minute that `now_utc` is in the
-- zone, or `none` for a zone that is not known.
mod Windows
mod Tests
use sim_connectivity_monitor.Prelude.{
  ℕ, ◌+◌, ◌-◌, ◌*◌, Bool, true, false, not, ◌&&◌, ◌||◌, Option, none, some, List, [], ◌∷◌, Text,
  any, ltb, leb, ◌==◌, if◌then◌else◌,
}

pub data Override : Type 0 where
  auto always never : Override

pub record MonitorSchedule : Type 0 where
  pub enabled : Bool
  pub days : List ℕ
  pub start : Text
  pub end : Text
  pub override : Override

-- `int(hours) * 60 + int(minutes)` of a text that has the schema's form, two digits, a colon and two
-- digits.
unfoldable pub minutes : Text → ℕ
minutes (a ∷ b ∷ _ ∷ c ∷ d ∷ []) = ((a - 48) * 10 + (b - 48)) * 60 + ((c - 48) * 10 + (d - 48))
minutes _ = 0

-- A window, which may wrap past midnight.
unfoldable pub in_window : ℕ → ℕ → ℕ → Bool
in_window start end minute =
    if leb start end then leb start minute && ltb minute end else leb start minute || ltb minute end

abbrev pub in_schedule : MonitorSchedule → Option (ℕ × ℕ × ℕ) → Bool
in_schedule s none = true
in_schedule s (some (weekday, hour, minute)) =
    if not (any (λ d. d == weekday) s.days)
    then false
    else in_window (minutes s.start) (minutes s.end) (hour * 60 + minute)

abbrev pub decide : Override → MonitorSchedule → Option (ℕ × ℕ × ℕ) → Bool
decide always s local = true
decide never s local = false
decide auto s local = if not s.enabled then true else in_schedule s local

unfoldable pub is_active : MonitorSchedule → Option (ℕ × ℕ × ℕ) → Bool
unfolding minutes in_window
is_active s local = decide s.override s local

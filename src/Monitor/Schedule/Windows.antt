-- ===== src/Monitor/Schedule/Windows.antt =====
-- src/sim_monitor/monitor/schedule.py: the windows of a day.
use sim_connectivity_monitor.Prelude.{
  ℕ, ◌+◌, ◌-◌, ◌*◌, ◌%◌, leb, if◌then◌else◌, ◌<◌, ◌≡◌, ◌≢◌, ◌↔◌, true, not, some, any, ◌==◌, arith,
}
use sim_connectivity_monitor.Monitor.Schedule.{MonitorSchedule, auto, minutes, in_window, is_active}

-- The windows from one minute to another and back part the day: at each minute exactly one of them
-- is active, unless the two minutes are the same.
in_window-parts : (a b minute : ℕ) → a ≢ b → in_window a b minute ≡ not (in_window b a minute)
unfolding in_window
in_window-parts a b minute h = ground arith

-- The distance on the clock from one minute of the day to another.
clock_distance :
    (a m : ℕ)
    → a < 1440
    → m < 1440
    → (m + (1440 - a)) % 1440 ≡ (if leb a m then m - a else m + (1440 - a))
clock_distance a m h k = ground (arith, h, k)

around :
    (a b m : ℕ)
    → a ≢ b
    → a < 1440
    → b < 1440
    → m < 1440
    → (in_window a b m ≡ true) ↔ ((m + (1440 - a)) % 1440 < (b + (1440 - a)) % 1440)
unfolding in_window
around a b m n h k l =
    rw (clock_distance a m h l, clock_distance a b h k) (ground (arith, n, h, k, l))

-- At a minute of a day whose weekday the schedule names, with the override on auto, the schedule
-- enabled, and a start and an end that are different times of the day, the heartbeat is active exactly when fewer minutes
-- have gone by on the clock since the start than go by from the start to the end, past midnight if
-- need be.
pub is_active_iff :
    (s : MonitorSchedule) (weekday hour minute : ℕ)
    → s.override ≡ auto
    → s.enabled ≡ true
    → any (λ d. d == weekday) s.days ≡ true
    → minutes s.start ≢ minutes s.end
    → minutes s.start < 1440
    → minutes s.end < 1440
    → hour * 60 + minute < 1440
    → (is_active s (some (weekday, hour, minute)) ≡ true) ↔ (
        (hour * 60 + minute + (1440 - minutes s.start)) % 1440
        < (minutes s.end + (1440 - minutes s.start)) % 1440)
unfolding is_active in_window
is_active_iff s weekday hour minute h k l n a b c =
    rw (h, k, l) (around (minutes s.start) (minutes s.end) (hour * 60 + minute) n a b c)

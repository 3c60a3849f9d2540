-- ===== src/Monitor/Schedule/Tests.antt =====
-- A night window, and the theorems on it.
use sim_connectivity_monitor.Prelude.{
  ◌+◌, ◌-◌, ◌*◌, ◌%◌, ◌<◌, ◌≡◌, ◌≢◌, ◌↔◌, arith, refl, true, some, [], ◌∷◌, codes,
}
use sim_connectivity_monitor.Monitor.Schedule.{MonitorSchedule, auto, minutes, is_active}
use sim_connectivity_monitor.Monitor.Schedule.Windows.{is_active_iff}

abbrev nights : MonitorSchedule
nights = record {
  enabled = true;
  days = 4 ∷ [];
  start = codes "22:30";
  end = codes "06:00";
  override = auto;
}

late_friday : is_active nights (some (4, 23, 0)) ≡ true
unfolding is_active
late_friday = refl

nights_differ : minutes nights.start ≢ minutes nights.end
unfolding minutes
nights_differ e = omega (arith, e)

start_in_day : minutes nights.start < 1440
unfolding minutes
start_in_day = omega arith

end_in_day : minutes nights.end < 1440
unfolding minutes
end_in_day = omega arith

is_active_iff_example : (is_active nights (some (4, 23, 0)) ≡ true) ↔ (
    (23 * 60 + 0 + (1440 - minutes (codes "22:30"))) % 1440
    < (minutes (codes "06:00") + (1440 - minutes (codes "22:30"))) % 1440)
is_active_iff_example =
    is_active_iff nights 4 23 0 refl refl refl nights_differ start_in_day end_in_day (omega arith)

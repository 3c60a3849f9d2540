-- ===== src/Traffic/Line/Tests.antt =====
-- The lines of the module's comment.
use sim_connectivity_monitor.Prelude.{
  true, false, decimal, ℕ, ◌≡◌, refl, none, some, strip, ◌++◌, Text, codes,
}
use sim_connectivity_monitor.Traffic.Flow.{destroyed, FlowEvent}
use sim_connectivity_monitor.Traffic.Line.{
  flow, broken, parse_line, stamp, event_of, split_words, parse_words, int_field, count,
}
use sim_connectivity_monitor.Traffic.Line.Printed.{Listed, printed}

-- A constant in place of the reading of time stamps.
abbrev no_clock : Text → ℕ
no_clock s = 7

abbrev closed_line : Text
closed_line =
    codes "[1656942980.634473        ]\t    [DESTROY] tcp      6 src=10.0.0.5 dst=142.250.72.14 "
    ++ codes "sport=48388 dport=443 packets=18 bytes=2214 src=142.250.72.14 dst=10.0.0.5 sport=443 "
    ++ codes "dport=48388 packets=16 bytes=8102 [ASSURED] delta-time=32 id=3735928559"

abbrev closed : FlowEvent
closed = record {
  proto = codes "tcp";
  src = codes "10.0.0.5";
  dst = codes "142.250.72.14";
  sport = some 48388;
  dport = some 443;
  orig_packets = 18;
  orig_bytes = 2214;
  reply_packets = 16;
  reply_bytes = 8102;
  event = some destroyed;
  ts = some 7;
  state = none;
  delta_time = some 32;
  ct_id = some 3735928559;
  icmp_type = none;
}

parse_closed : parse_line no_clock closed_line ≡ flow closed
unfolding parse_line strip stamp event_of split_words parse_words int_field count
parse_closed = refl

-- An id that is no number raises ValueError, which is not caught.
bad_id : parse_line no_clock (codes "tcp 6 src=a dst=b id=x") ≡ broken
unfolding parse_line strip stamp event_of split_words parse_words int_field count
bad_id = refl

abbrev ssh : Listed
ssh = record {
  proto = codes "tcp";
  number = 6;
  timeout = 431988;
  state = some (codes "ESTABLISHED");
  src = codes "10.0.0.5";
  dst = codes "1.2.3.4";
  sport = 51512;
  dport = 443;
  orig_packets = 12;
  orig_bytes = 2345;
  reply_src = codes "1.2.3.4";
  reply_dst = codes "10.0.0.5";
  reply_sport = 443;
  reply_dport = 51512;
  reply_packets = 10;
  reply_bytes = 8901;
  unreplied = false;
  assured = true;
  mark = 0;
  use_count = 1;
  delta_time = some 12;
  ct_id = 1443128772;
}

-- The line of the module's comment, but for blanks.
listed_line :
    printed ssh
    ≡ codes "tcp 6 431988 ESTABLISHED src=10.0.0.5 dst=1.2.3.4 sport=51512 dport=443 "
      ++ codes "packets=12 bytes=2345 src=1.2.3.4 dst=10.0.0.5 sport=443 dport=51512 "
      ++ codes "packets=10 bytes=8901 [ASSURED] mark=0 use=1 delta-time=12 id=1443128772"
unfolding printed decimal
listed_line = refl

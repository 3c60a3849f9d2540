-- ===== src/Traffic/Flow.antt =====
-- src/sim_monitor/traffic/parse.py: a flow, and its direction as the device sees it.
use sim_connectivity_monitor.Prelude.{
  ℕ, Bool, true, false, not, ◌&&◌, ◌||◌, Option, List, [], ◌∷◌, Text, codes, any, text_eq,
  starts_with, lower, leb, is_number, number_from, ◌==◌, if◌then◌else◌,
}

-- `event`: NEW, UPDATE or DESTROY.
pub data FlowKind : Type 0 where
  created updated destroyed : FlowKind

pub record FlowEvent : Type 0 where
  pub proto : Text
  pub src : Text
  pub dst : Text
  pub sport : Option ℕ
  pub dport : Option ℕ
  pub orig_packets : ℕ
  pub orig_bytes : ℕ
  pub reply_packets : ℕ
  pub reply_bytes : ℕ
  pub event : Option FlowKind
  pub ts : Option ℕ
  pub state : Option Text
  pub delta_time : Option ℕ
  pub ct_id : Option ℕ
  pub icmp_type : Option ℕ

-- `direction`: out, in, fwd or local.
pub data Direction : Type 0 where
  outbound inbound forwarded internal : Direction

abbrev pub is_internal : Direction → Bool
is_internal internal = true
is_internal _ = false

pub record ClassifiedFlow : Type 0 where
  pub direction : Direction
  pub remote_ip : Text
  pub remote_port : Option ℕ
  pub local_ip : Text
  pub local_port : Option ℕ
  pub bytes_sent : ℕ
  pub bytes_recv : ℕ
  pub packets_sent : ℕ
  pub packets_recv : ℕ

-- `_is_loopback`.
unfoldable pub is_loopback : Text → Bool
unfolding starts_with text_eq
is_loopback ip = starts_with ip (codes "127.") || text_eq ip (codes "::1")

-- `ip.split(".", 1)[0]`.
unfoldable pub before_dot : Text → Text
before_dot [] = []
before_dot (c ∷ s) = let rest = before_dot s in if c == b'.' then [] else c ∷ rest

-- `_is_multicast_or_broadcast`.
unfoldable pub is_multicast_or_broadcast : Text → Bool
unfolding before_dot is_number number_from starts_with text_eq lower
is_multicast_or_broadcast ip =
    text_eq ip (codes "255.255.255.255")
    || (is_number (before_dot ip)
        && leb 224 (number_from 0 (before_dot ip))
        && leb (number_from 0 (before_dot ip)) 239)
    || starts_with (lower ip) (codes "ff")

unfoldable pub is_among : Text → List Text → Bool
is_among ip ips = any (text_eq ip) ips

unfoldable pub src_local : FlowEvent → List Text → Bool
unfolding is_among is_loopback
src_local ev local_ips = is_among ev.src local_ips || is_loopback ev.src

unfoldable pub dst_local : FlowEvent → List Text → Bool
unfolding is_among is_loopback is_multicast_or_broadcast
dst_local ev local_ips =
    is_among ev.dst local_ips || is_loopback ev.dst || is_multicast_or_broadcast ev.dst

-- A flow that the other side has opened.
abbrev pub seen_from_dst : FlowEvent → ClassifiedFlow
seen_from_dst ev = record {
  direction = inbound;
  remote_ip = ev.src;
  remote_port = ev.sport;
  local_ip = ev.dst;
  local_port = ev.dport;
  bytes_sent = ev.reply_bytes;
  bytes_recv = ev.orig_bytes;
  packets_sent = ev.reply_packets;
  packets_recv = ev.orig_packets;
}

abbrev pub seen_from_src : Direction → FlowEvent → ClassifiedFlow
seen_from_src direction ev = record {
  direction = direction;
  remote_ip = ev.dst;
  remote_port = ev.dport;
  local_ip = ev.src;
  local_port = ev.sport;
  bytes_sent = ev.orig_bytes;
  bytes_recv = ev.reply_bytes;
  packets_sent = ev.orig_packets;
  packets_recv = ev.reply_packets;
}

unfoldable pub classify : FlowEvent → List Text → ClassifiedFlow
unfolding src_local dst_local
classify ev local_ips =
    let from_here = src_local ev local_ips in
    let to_here = dst_local ev local_ips in
    if to_here && not from_here
    then seen_from_dst ev
    else seen_from_src
        (if from_here && to_here then internal else if from_here then outbound else forwarded) ev

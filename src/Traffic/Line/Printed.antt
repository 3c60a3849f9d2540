-- ===== src/Traffic/Line/Printed.antt =====
-- A line of `conntrack -L -o id` is read as the flow that it is printed from.
use sim_connectivity_monitor.Prelude.{
  ℕ, Bool, true, false, Option, none, some, List, [], ◌∷◌, ◌++◌, map, Text, codes, decimal,
}
use sim_connectivity_monitor.Traffic.Flow.{FlowEvent}
use sim_connectivity_monitor.Traffic.Line.Words.{spaced, IsWord}
use sim_connectivity_monitor.Traffic.Line.Spelled.{keyed, optional_word, IsProto, IsState}

-- A flow of TCP or UDP as the kernel lists it, with the tuple of the reply.
pub record Listed : Type 0 where
  pub proto : Text
  pub number : ℕ
  pub timeout : ℕ
  pub state : Option Text
  pub src : Text
  pub dst : Text
  pub sport : ℕ
  pub dport : ℕ
  pub orig_packets : ℕ
  pub orig_bytes : ℕ
  pub reply_src : Text
  pub reply_dst : Text
  pub reply_sport : ℕ
  pub reply_dport : ℕ
  pub reply_packets : ℕ
  pub reply_bytes : ℕ
  pub unreplied : Bool
  pub assured : Bool
  pub mark : ℕ
  pub use_count : ℕ
  pub delta_time : Option ℕ
  pub ct_id : ℕ

-- One direction of a flow.
abbrev pub tuple : Text → Text → ℕ → ℕ → ℕ → ℕ → List (Text × Text)
tuple src dst sport dport packets bytes =
    (codes "src", src)
    ∷ (codes "dst", dst)
    ∷ (codes "sport", decimal sport)
    ∷ (codes "dport", decimal dport)
    ∷ (codes "packets", decimal packets)
    ∷ (codes "bytes", decimal bytes)
    ∷ []

abbrev pub original_of : Listed → List (Text × Text)
original_of l = tuple l.src l.dst l.sport l.dport l.orig_packets l.orig_bytes

abbrev pub reply_of : Listed → List (Text × Text)
reply_of l = tuple l.reply_src l.reply_dst l.reply_sport l.reply_dport l.reply_packets l.reply_bytes

abbrev pub elapsed : Option ℕ → List (Text × Text) → List (Text × Text)
elapsed none fields = fields
elapsed (some seconds) fields = (codes "delta-time", decimal seconds) ∷ fields

-- What stands behind both directions. The seconds since the start are there if the kernel takes
-- the time of each flow.
abbrev pub behind : Listed → Option ℕ → List (Text × Text)
behind l seconds =
    (codes "mark", decimal l.mark)
    ∷ (codes "use", decimal l.use_count)
    ∷ elapsed seconds ((codes "id", decimal l.ct_id) ∷ [])

abbrev pub flag : Bool → Text → List Text → List Text
flag true word words = word ∷ words
flag false word words = words

abbrev pub assured_words : Listed → List Text
assured_words l = flag l.assured (codes "[ASSURED]") (map keyed (behind l l.delta_time) ++ [])

abbrev pub reply_words : Listed → List Text
reply_words l = flag l.unreplied (codes "[UNREPLIED]") (map keyed (reply_of l) ++ assured_words l)

abbrev pub fields_words : Listed → List Text
fields_words l = map keyed (original_of l) ++ reply_words l

unfoldable pub printed : Listed → Text
unfolding spaced
printed l =
    spaced (l.proto ∷ decimal l.number ∷ decimal l.timeout ∷ optional_word l.state (fields_words l))

-- The flow that the line is about, as the collector sees it.
abbrev pub seen : Listed → FlowEvent
seen l = record {
  proto = l.proto;
  src = l.src;
  dst = l.dst;
  sport = some l.sport;
  dport = some l.dport;
  orig_packets = l.orig_packets;
  orig_bytes = l.orig_bytes;
  reply_packets = l.reply_packets;
  reply_bytes = l.reply_bytes;
  event = none;
  ts = none;
  state = l.state;
  delta_time = l.delta_time;
  ct_id = some l.ct_id;
  icmp_type = none;
}

pub record IsListed (l : Listed) : Type 0 where
  pub proto : IsProto l.proto
  pub state : IsState l.state
  pub src : IsWord l.src
  pub dst : IsWord l.dst
  pub reply_src : IsWord l.reply_src
  pub reply_dst : IsWord l.reply_dst

-- ===== src/Traffic/Line.antt =====
-- src/sim_monitor/traffic/parse.py: a line of conntrack. Digits and case are those of ASCII.
-- `read_time` is `float` of a time stamp; a number with a sign or underscores, which conntrack does
-- not write and `int` would take, counts as no number.
pub mod Words
pub mod Spelled
pub mod Front
pub mod Printed
pub mod Tests
use sim_connectivity_monitor.Prelude.{
  ℕ, ◌+◌, ◌%◌, Bool, true, false, ◌&&◌, ◌||◌, not, Option, none, some, List, [], ◌∷◌, ◌++◌, Text,
  codes, length, any, is_empty, is_space, is_digit, is_lower, is_upper, is_alnum, is_number,
  number_from, lower, strip, lstrip, contains, starts_with, text_eq, ◌==◌, if◌then◌else◌,
}
use sim_connectivity_monitor.Prelude.Failing.{◌>>=◌}
use sim_connectivity_monitor.Traffic.Flow.{FlowKind, created, updated, destroyed, FlowEvent}
use sim_connectivity_monitor.Modem.AtParser.Scan.{literal, span}

-- A line is a flow, or None, or raises ValueError.
pub data Line : Type 0 where
  flow : FlowEvent → Line
  junk : Line
  broken : Line

-- `line.split()`: the word that the text begins with, and the later ones.
abbrev pub word_before : Text → List Text → List Text
word_before [] words = words
word_before (c ∷ s) words = (c ∷ s) ∷ words

unfoldable pub words_from : Text → Text × List Text
words_from [] = ([], [])
words_from (c ∷ s) =
    let r = words_from s in if is_space c then ([], word_before r.0 r.1) else (c ∷ r.0, r.1)

unfoldable pub split_words : Text → List Text
unfolding words_from
split_words s = let r = words_from s in word_before r.0 r.1

-- `(?:\.\d+)?`.
unfoldable pub fraction : Text → Text × Text
unfolding span
fraction [] = ([], [])
fraction (c ∷ s) =
    let r = span is_digit s in
    if c == b'.' && not (is_empty r.0) then (c ∷ r.0, r.1) else ([], c ∷ s)

-- `_TS_RE`: the number, and what is behind the match.
unfoldable pub stamp : Text → Option (Text × Text)
unfolding literal span fraction lstrip
stamp line = do
  s ← literal (codes "[") line
  let digits = span is_digit s
  let part = fraction digits.1
  rest ← literal (codes "]") (lstrip part.1)
  if is_empty digits.0 then none else some (digits.0 ++ part.0, lstrip rest)

-- `_EVENT_RE`, for one event and the others after it.
abbrev pub event_or : FlowKind → Option Text → Option (FlowKind × Text) → Option (FlowKind × Text)
event_or kind none others = others
event_or kind (some rest) others = some (kind, lstrip rest)

unfoldable pub event_of : Text → Option (FlowKind × Text)
unfolding literal lstrip
event_of line = event_or created (literal (codes "[NEW]") line) (
    event_or updated (literal (codes "[UPDATE]") line)
      (event_or destroyed (literal (codes "[DESTROY]") line) none))

-- `tok.isupper()`.
abbrev pub is_upper_word : Text → Bool
is_upper_word tok = any is_upper tok && not (any is_lower tok)

abbrev pub Head : Type 0
Head = Option Text × Option Text

-- One word of the head, with the protocol and the state so far.
unfoldable pub head_word : Text → Head → Head
unfolding starts_with is_number lower
head_word tok (proto, state) =
    if starts_with tok (codes "[") || is_number tok then (proto, state) else elim proto [
      | none ↦ (some (lower tok), state)
      | some p ↦ (some p, if is_upper_word tok then some tok else state)
    ]

-- The loop over the words before the first field.
unfoldable pub head_from : Head → List Text → Head
unfolding head_word contains
head_from head [] = head
head_from head (tok ∷ toks) =
    let later = head_from (head_word tok head) toks in
    if contains tok (codes "=") then head else later

-- `[\w-]`.
abbrev pub is_key_char : ℕ → Bool
is_key_char c = is_alnum c || c == b'_' || c == b'-'

-- `_KV_RE` in a word, behind the characters of a key; a value goes to the end of its word, so that a
-- word has one field at most, and no field goes over the end of a word.
unfoldable pub field_from : Text → Text → Option (Text × Text)
field_from key [] = none
field_from key (c ∷ s) =
    let later = field_from (if is_key_char c then key ++ (c ∷ []) else []) s in
    if c == b'=' && not (is_empty key) && not (is_empty s) then some (key, s) else later

abbrev pub field_before : Option (Text × Text) → List (Text × Text) → List (Text × Text)
field_before none fields = fields
field_before (some field) fields = field ∷ fields

-- `_KV_RE.findall`.
unfoldable pub fields_of : List Text → List (Text × Text)
unfolding field_from
fields_of [] = []
fields_of (word ∷ words) = field_before (field_from [] word) (fields_of words)

-- A dictionary that is only read by key: the latest value of a key stands first.
abbrev pub Fields : Type 0
Fields = List (Text × Text)

unfoldable pub field : Text → Fields → Option Text
unfolding text_eq
field name [] = none
field name ((key, value) ∷ rest) =
    let older = field name rest in if text_eq key name then some value else older

-- `side`: before a tuple, in the original one, or in the reply.
pub data Side : Type 0 where
  before original answer : Side

pub record Parts : Type 0 where
  pub orig : Fields
  pub reply : Fields
  pub other : Fields
  pub ids : List Text
  pub side : Side

abbrev pub no_parts : Parts
no_parts = record { orig = []; reply = []; other = []; ids = []; side = before }

-- `_TUPLE_KEYS`.
abbrev pub tuple_keys : List Text
tuple_keys =
    codes "src"
    ∷ codes "dst"
    ∷ codes "sport"
    ∷ codes "dport"
    ∷ codes "type"
    ∷ codes "code"
    ∷ codes "id"
    ∷ codes "packets"
    ∷ codes "bytes"
    ∷ []

abbrev pub after_src : Side → Side
after_src before = original
after_src _ = answer

-- `side[key] = val`, with `flow` for a field outside of the tuples.
abbrev pub put_side : Side → Text × Text → Parts → Parts
put_side before entry p = record p { other = entry ∷ p.other; side = before }
put_side original entry p = record p { orig = entry ∷ p.orig; side = original }
put_side answer entry p = record p { reply = entry ∷ p.reply; side = answer }

unfoldable pub put_part : Text × Text → Parts → Parts
unfolding text_eq
put_part (key, val) p =
    if text_eq key (codes "id")
    then record p { ids = val ∷ p.ids }
    else if text_eq key (codes "src")
    then put_side (after_src p.side) (key, val) p
    else if any (text_eq key) tuple_keys
    then put_side p.side (key, val) p
    else record p { other = (key, val) ∷ p.other }

-- The loop over the fields.
unfoldable pub parts_from : Parts → List (Text × Text) → Parts
unfolding put_part
parts_from p [] = p
parts_from p (entry ∷ entries) = parts_from (put_part entry p) entries

-- `_int` of a value.
unfoldable pub count : Text → Option ℕ
unfolding is_number number_from
count s = if is_number s then some (number_from 0 s) else none

unfoldable pub int_field : Text → Fields → Option ℕ
unfolding field
int_field name fields = do s ← field name fields; count s

abbrev pub count_or_zero : Option ℕ → ℕ
count_or_zero none = 0
count_or_zero (some n) = n

-- `ct_id`: the outer option is whether `int` takes the last id.
abbrev pub last_id : List Text → Option (Option ℕ)
last_id [] = some none
last_id (latest ∷ ids) =
    if (length ids + 1) % 2 == 1 then (do n ← count latest; some (some n)) else some none

abbrev pub line_with : (Option ℕ → FlowEvent) → Option (Option ℕ) → Line
line_with make none = broken
line_with make (some ct_id) = flow (make ct_id)

module _ (read_time : Text → ℕ) where
  abbrev pub flow_of :
      Option Text
      → Option FlowKind
      → Text
      → Option Text
      → Parts
      → Text
      → Text
      → Option ℕ
      → FlowEvent
  flow_of ts event proto state p src dst ct_id = record {
    proto = proto;
    src = src;
    dst = dst;
    sport = int_field (codes "sport") p.orig;
    dport = int_field (codes "dport") p.orig;
    orig_packets = count_or_zero (int_field (codes "packets") p.orig);
    orig_bytes = count_or_zero (int_field (codes "bytes") p.orig);
    reply_packets = count_or_zero (int_field (codes "packets") p.reply);
    reply_bytes = count_or_zero (int_field (codes "bytes") p.reply);
    event = event;
    ts = (do s ← ts; some (read_time s));
    state = state;
    delta_time = int_field (codes "delta-time") p.other;
    ct_id = ct_id;
    icmp_type = int_field (codes "type") p.orig;
  }

  -- What the parts of a line make, with the time stamp and the event in front.
  unfoldable pub line_of : Option Text → Option FlowKind → Head → Parts → Line
  unfolding field
  line_of ts event (none, state) p = junk
  line_of ts event (some proto, state) p = elim (field (codes "src") p.orig) [
    | none ↦ junk
    | some src ↦ elim (field (codes "dst") p.orig) [
      | none ↦ junk
      | some dst ↦ line_with (flow_of ts event proto state p src dst) (last_id p.ids)
    ]
  ]

  unfoldable pub parse_words : Option Text → Option FlowKind → List Text → Line
  unfolding line_of head_from fields_of parts_from
  parse_words ts event words =
      line_of ts event (head_from (none, none) words) (parts_from no_parts (fields_of words))

  abbrev pub behind_event : Option Text → Text → Option (FlowKind × Text) → Line
  behind_event ts line none = parse_words ts none (split_words line)
  behind_event ts line (some (event, rest)) = parse_words ts (some event) (split_words rest)

  abbrev pub behind_stamp : Text → Option (Text × Text) → Line
  behind_stamp line none = behind_event none line (event_of line)
  behind_stamp line (some (ts, rest)) = behind_event (some ts) rest (event_of rest)

  unfoldable pub parse_line : Text → Line
  parse_line line = behind_stamp (strip line) (stamp (strip line))

  -- `parse_lines`, of the lines of a dump; `none` if one raises.
  unfoldable pub parse_lines : List Text → Option (List FlowEvent)
  unfolding parse_line
  parse_lines [] = some []
  parse_lines (line ∷ lines) =
      let rest = parse_lines lines in
      elim (parse_line line) [
        | broken ↦ none
        | junk ↦ rest
        | flow ev ↦ (do evs ← rest; some (ev ∷ evs))
      ]

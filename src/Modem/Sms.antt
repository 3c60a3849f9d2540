-- ===== src/Modem/Sms.antt =====
-- src/sim_monitor/modem/sms.py: stored PDUs put together to the rows of the inbox. The hash of the
-- identity (`hashlib.sha1`, in hexadecimal) is a parameter, and `now` is what the clock says.
pub mod Rows
pub mod Groups
pub mod Arrival
pub mod Alike
pub mod Reordered
pub mod Tests
use sim_connectivity_monitor.Prelude.{
  decimal_digits, ℕ, zero, suc, ◌+◌, ◌/◌, ◌%◌, min, Bool, ◌&&◌, Option, none, some, List, [], ◌∷◌,
  ◌++◌, map, Text, codes, text_eq, ltb, ◌==◌, if◌then◌else◌, sort_by,
}
use sim_connectivity_monitor.Modem.OtaSms.{Reason, classify_ota}
use sim_connectivity_monitor.Modem.Pdu.UserData.{Concat}
use sim_connectivity_monitor.Modem.Pdu.Decode.{Encoding, DecodedSms, decode_pdu}

-- `RawSms`.
pub record RawSms : Type 0 where
  pub index : ℕ
  pub status : ℕ
  pub pdu_hex : Text

pub data ReadStatus : Type 0 where
  unread read : ReadStatus

-- `_STATUS.get(status, "read")`.
abbrev pub read_status : ℕ → ReadStatus
read_status status = if status == 0 then unread else if status == 2 then unread else read

-- What `_row` returns; the lines of `raw_pdu` are a list.
pub record Row : Type 0 where
  pub ts : ℕ
  pub peer : Text
  pub body : Text
  pub encoding : Encoding
  pub status : ReadStatus
  pub modem_indices : List ℕ
  pub parts : ℕ
  pub raw_pdu : List Text
  pub dedup : Text
  pub pid : ℕ
  pub dcs : ℕ
  pub ota : Option (List Reason)

abbrev pub first_line : List Text → Text
first_line [] = []
first_line (line ∷ _) = line

-- What the identity of a row is computed from: never the time of the reading.
unfoldable pub dedup_source : DecodedSms → Text → List Text → Text
unfolding decimal_digits
dedup_source sms body pdus = elim sms.timestamp_epoch [
  | some ts ↦ sms.sender ++ codes "|" ++ decimal_digits (suc ts) ts ++ codes "|" ++ body
  | none ↦ sms.sender ++ codes "|pdu|" ++ first_line pdus
]

-- A raw message of several parts, with what it decodes to and its place.
pub record Part : Type 0 where
  pub raw : RawSms
  pub decoded : DecodedSms
  pub place : Concat

-- `groups`, in the order in which the keys came up.
abbrev pub Group : Type 0
Group = (Text × ℕ) × List Part

unfoldable pub same_key : Text × ℕ → Text × ℕ → Bool
unfolding text_eq
same_key (sender, ref) (other, number) = text_eq sender other && ref == number

-- `groups.setdefault(key, []).append(part)`.
unfoldable pub add_part : Text × ℕ → Part → List Group → List Group
unfolding same_key
add_part key part [] = (key, part ∷ []) ∷ []
add_part key part (group ∷ groups) =
    let rest = add_part key part groups in
    if same_key key group.0 then (group.0, group.1 ++ (part ∷ [])) ∷ groups else group ∷ rest

-- The order of parts, and that of rows: the newest first.
abbrev pub seq_lt : Part → Part → Bool
seq_lt p q = ltb p.place.seq q.place.seq

abbrev pub newer : Row → Row → Bool
newer r s = ltb s.ts r.ts

abbrev pub joined_text : List Part → Text
joined_text [] = []
joined_text (p ∷ parts) = p.decoded.text ++ joined_text parts

abbrev pub all_ieis : List Part → List ℕ
all_ieis [] = []
all_ieis (p ∷ parts) = p.decoded.udh_ieis ++ all_ieis parts

abbrev pub worst_status : ℕ → List Part → ℕ
worst_status best [] = best
worst_status best (p ∷ parts) = worst_status (min best p.raw.status) parts

module _ (sha1 : Text → Text) (now : ℕ) where
  -- `_row`.
  unfoldable pub row_of : List ℕ → ℕ → DecodedSms → Text → ℕ → List Text → List ℕ → Row
  unfolding dedup_source classify_ota
  row_of indices status sms body parts pdus udh_ieis = record {
    ts = elim sms.timestamp_epoch [ some ts ↦ ts | none ↦ now ];
    peer = sms.sender;
    body = body;
    encoding = sms.encoding;
    status = read_status status;
    modem_indices = indices;
    parts = parts;
    raw_pdu = pdus;
    dedup = sha1 (dedup_source sms body pdus);
    pid = sms.pid;
    dcs = sms.dcs;
    ota = classify_ota sms.pid sms.dcs udh_ieis;
  }

  -- The row of the sorted parts of a group; no group is empty, and an empty one has no row.
  unfoldable pub sorted_rows : List Part → List Row
  unfolding row_of
  sorted_rows [] = []
  sorted_rows (head ∷ tail) =
      row_of (map (λ (p : Part). p.raw.index) (head ∷ tail)) (worst_status head.raw.status tail)
        head.decoded (joined_text (head ∷ tail)) head.place.total
        (map (λ (p : Part). p.raw.pdu_hex) (head ∷ tail)) (all_ieis (head ∷ tail))
      ∷ []

  unfoldable pub group_rows : List Part → List Row
  unfolding sort_by sorted_rows
  group_rows unsorted = sorted_rows (sort_by seq_lt unsorted)

  unfoldable pub rows_of_groups : List Group → List Row
  unfolding group_rows
  rows_of_groups [] = []
  rows_of_groups (group ∷ groups) = group_rows group.1 ++ rows_of_groups groups

  -- One round of the loop: a message by itself is a row, a part goes to its group.
  unfoldable pub file_sms :
      RawSms → DecodedSms → Option Concat → List Row → List Group → List Row × List Group
  unfolding row_of add_part
  file_sms raw sms none singles groups = (
    singles
        ++ (row_of (raw.index ∷ []) raw.status sms sms.text 1 (raw.pdu_hex ∷ []) sms.udh_ieis ∷ []),
    groups,
  )
  file_sms raw sms (some place) singles groups = (
    singles,
    add_part (sms.sender, place.ref) (record { raw = raw; decoded = sms; place = place }) groups,
  )

  -- A message that cannot be decoded is skipped.
  unfoldable pub file_raw :
      RawSms → Option DecodedSms → List Row → List Group → List Row × List Group
  unfolding file_sms
  file_raw raw none singles groups = (singles, groups)
  file_raw raw (some sms) singles groups = file_sms raw sms sms.concat singles groups

  -- The loop over the raw messages: `singles` and `groups` after it.
  unfoldable pub sort_out : List RawSms → List Row → List Group → List Row × List Group
  unfolding file_raw
  sort_out [] singles groups = (singles, groups)
  sort_out (raw ∷ raws) singles groups =
      let next = file_raw raw (decode_pdu raw.pdu_hex) singles groups in sort_out raws next.0 next.1

  -- `reassemble_inbound`.
  unfoldable pub reassemble_inbound : List RawSms → List Row
  unfolding sort_out rows_of_groups sort_by
  reassemble_inbound raw_list =
      let (singles, groups) = sort_out raw_list [] [] in
      sort_by newer (singles ++ rows_of_groups groups)

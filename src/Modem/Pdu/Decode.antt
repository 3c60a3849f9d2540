-- ===== src/Modem/Pdu/Decode.antt =====
-- src/sim_monitor/modem/pdu.py: SMS-DELIVER PDUs. `none` stands for an IndexError or a ValueError.
use sim_connectivity_monitor.Prelude.{
  ℕ, ◌+◌, ◌-◌, ◌*◌, ◌/◌, ◌%◌, ◌&&◌, Option, none, some, List, [], ◌∷◌, ◌++◌, Text, codes, lower,
  strip, take, drop, get_elem?, leb, ◌==◌, if◌then◌else◌,
}
use sim_connectivity_monitor.Prelude.Failing.{◌>>=◌}
use sim_connectivity_monitor.Modem.Pdu.Hex.{hex_upper, from_hex, two_digits, swap_semi_octets}
use sim_connectivity_monitor.Modem.Pdu.Address.{unpack_gsm7, decode_address}
use sim_connectivity_monitor.Modem.Pdu.Utf16.{utf16_decode}
use sim_connectivity_monitor.Modem.Pdu.UserData.{Concat, Header, parse_udh_concat}

pub data Encoding : Type 0 where
  gsm7 ucs2 eight_bit : Encoding

-- `DecodedSms`.
pub record DecodedSms : Type 0 where
  pub sender : Text
  pub timestamp : Text
  pub timestamp_epoch : Option ℕ
  pub text : Text
  pub encoding : Encoding
  pub concat : Option Concat
  pub pid : ℕ
  pub dcs : ℕ
  pub udh_ieis : List ℕ

abbrev month_starts : List ℕ
month_starts = 0 ∷ 31 ∷ 59 ∷ 90 ∷ 120 ∷ 151 ∷ 181 ∷ 212 ∷ 243 ∷ 273 ∷ 304 ∷ 334 ∷ []

-- The days of a year before the first of a month.
abbrev pub days_before : ℕ → ℕ
days_before month = elim (get_elem? month_starts (month - 1)) [ some days ↦ days | none ↦ 0 ]

-- `calendar.timegm` in the years 2000 to 2099: a ValueError for a month that is none, and no test of
-- the other fields.
unfoldable pub timegm : ℕ → ℕ → ℕ → ℕ → ℕ → ℕ → Option ℕ
timegm yy month day hour minute second =
    let leap_day = if yy % 4 == 0 && leb 3 month then 1 else 0 in
    let days = 10957 + 365 * yy + (yy + 3) / 4 + days_before month + leap_day + day - 1 in
    if leb 1 month && leb month 12
    then some (((days * 24 + hour) * 60 + minute) * 60 + second)
    else none

-- `int(d[i:i + 2], base)`.
unfoldable pub int_at : ℕ → Text → ℕ → Option ℕ
unfolding two_digits
int_at base d i = do high ← get_elem? d i; low ← get_elem? d (i + 1); two_digits base high low

-- The epoch of the stamp `d`, by the offset in quarters of an hour that its last octet holds.
unfoldable pub scts_epoch : Text → Option ℕ
unfolding int_at timegm
scts_epoch d = do
  tz_raw ← int_at 16 d 12
  yy ← int_at 10 d 0
  mm ← int_at 10 d 2
  dd ← int_at 10 d 4
  hh ← int_at 10 d 6
  mi ← int_at 10 d 8
  ss ← int_at 10 d 10
  wall ← timegm yy mm dd hh mi ss
  let offset_seconds = ((tz_raw / 16 % 8) * 10 + tz_raw % 16) * 15 * 60
  some (if leb 128 tz_raw then wall + offset_seconds else wall - offset_seconds)

-- `_decode_scts`.
unfoldable pub decode_scts : List ℕ → Text × Option ℕ
unfolding scts_epoch hex_upper swap_semi_octets lower
decode_scts octets =
    let d = swap_semi_octets (lower (hex_upper (take 7 octets))) in
    let field : ℕ → Text = λ i. take 2 (drop i d) in
    (
      codes "20"
          ++ field 0
          ++ codes "-"
          ++ field 2
          ++ codes "-"
          ++ field 4
          ++ codes " "
          ++ field 6
          ++ codes ":"
          ++ field 8
          ++ codes ":"
          ++ field 10,
      scts_epoch d,
    )

abbrev pub header_of : List ℕ → ℕ → Option Header
header_of ud first =
    if first / 64 % 2 == 1
    then parse_udh_concat ud
    else some (record { size = 0; concat = none; ieis = [] })

-- The text of the user data behind a header of `udh_len` octets. The septets end at `udl`, also when
-- that is before the end of the header.
unfoldable pub decode_text : ℕ → ℕ → ℕ → List ℕ → Text × Encoding
unfolding utf16_decode hex_upper unpack_gsm7
decode_text dcs udh_len udl ud =
    let fill_bits = if udh_len == 0 then 0 else (7 - udh_len * 8 % 7) % 7 in
    let skip_bits = udh_len * 8 + fill_bits in
    if dcs / 4 % 4 == 2
    then (utf16_decode (drop udh_len ud), ucs2)
    else if dcs / 4 % 4 == 1
    then (hex_upper (drop udh_len ud), eight_bit)
    else (unpack_gsm7 ud (udl - skip_bits / 7) skip_bits, gsm7)

-- The header, the text and the encoding of user data: the second half of `decode_pdu`.
unfoldable pub decode_user_data : ℕ → ℕ → ℕ → List ℕ → Option (Header × Text × Encoding)
unfolding decode_text parse_udh_concat
decode_user_data first dcs udl ud = do
  header ← header_of ud first
  let decoded = decode_text dcs header.size udl ud
  some (header, decoded.0, decoded.1)

-- `decode_pdu`.
unfoldable pub decode_pdu : Text → Option DecodedSms
unfolding from_hex decode_address decode_scts decode_user_data strip
decode_pdu pdu_hex = do
  b ← from_hex (strip pdu_hex)
  smsc_len ← get_elem? b 0
  let idx = 1 + smsc_len
  first ← get_elem? b idx
  oa_len ← get_elem? b (idx + 1)
  let oa_octets = 1 + (oa_len + 1) / 2
  sender ← decode_address (take oa_octets (drop (idx + 2) b)) oa_len
  let next = idx + 2 + oa_octets
  pid ← get_elem? b next
  dcs ← get_elem? b (next + 1)
  let stamp = decode_scts (take 7 (drop (next + 2) b))
  udl ← get_elem? b (next + 9)
  let ud = drop (next + 10) b
  (header, text, encoding) ← decode_user_data first dcs udl ud
  some (record {
    sender = sender;
    timestamp = stamp.0;
    timestamp_epoch = stamp.1;
    text = text;
    encoding = encoding;
    concat = header.concat;
    pid = pid;
    dcs = dcs;
    udh_ieis = header.ieis;
  })

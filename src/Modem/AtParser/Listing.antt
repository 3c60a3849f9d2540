-- ===== src/Modem/AtParser/Listing.antt =====
-- src/sim_monitor/modem/at_parser.py: the answers about text messages.
use sim_connectivity_monitor.Prelude.{
  ℕ, Option, none, some, List, [], ◌∷◌, Bool, ◌&&◌, not, Text, codes, lstrip, strip, upper,
  is_empty, false, true,
}
use sim_connectivity_monitor.Prelude.Failing.{◌>>=◌}
use sim_connectivity_monitor.Modem.Sms.{RawSms}
use sim_connectivity_monitor.Modem.AtParser.Scan.{literal, number, comma, is_hex, all_of, first_of}

-- A header line: the index and the status.
unfoldable pub cmgl_header : Text → Option (ℕ × ℕ)
unfolding literal number comma lstrip
cmgl_header line = do
  s ← literal (codes "+CMGL:") line
  index ← number (lstrip s)
  t ← comma index.1
  status ← number t
  _ ← comma status.1
  some (index.0, status.0)

unfoldable pub is_hex_line : Text → Bool
unfolding all_of strip
is_hex_line line = all_of is_hex (strip line) && not (is_empty (strip line))

-- The loop, with the header that waits for its PDU.
unfoldable pub cmgl_loop : Option (ℕ × ℕ) → List Text → List RawSms
unfolding cmgl_header is_hex_line upper strip
cmgl_loop pending [] = []
cmgl_loop pending (line ∷ lines) = elim (cmgl_header line) [
  | some header ↦ cmgl_loop (some header) lines
  | none ↦ elim pending [
    | none ↦ cmgl_loop none lines
    | some (index, status) ↦ elim (is_hex_line line) [
      | true ↦
          (record { index = index; status = status; pdu_hex = upper (strip line) })
          ∷ cmgl_loop none lines
      | false ↦ cmgl_loop (some (index, status)) lines
    ]
  ]
]

unfoldable pub parse_cmgl : List Text → List RawSms
unfolding cmgl_loop
parse_cmgl = cmgl_loop none

unfoldable pub cmgs_of : Text → Option ℕ
unfolding literal number lstrip
cmgs_of line = do s ← literal (codes "+CMGS:") line; n ← number (lstrip s); some n.0

unfoldable pub parse_cmgs : List Text → Option ℕ
unfolding first_of cmgs_of
parse_cmgs = first_of cmgs_of

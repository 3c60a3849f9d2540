-- ===== src/Modem/AtParser/Relisting.antt =====
-- The text messages that the modem lists are the ones that are read.
use sim_connectivity_monitor.Prelude.{
  ℕ, ◌≡◌, refl, ◌∙◌, true, false, ◌&&◌, ◌||◌, Option, none, some, List, [], ◌∷◌, ◌++◌, map, Text,
  codes, All, leb, is_digit, is_empty, strip, lstrip, rstrip, upper, decimal, starts_with, arith,
}
use sim_connectivity_monitor.Modem.Sms.{RawSms}
use sim_connectivity_monitor.Modem.AtParser.Scan.{literal, comma, is_hex, all_of}
use sim_connectivity_monitor.Modem.AtParser.Fields.{number-decimal, lstrip-decimal, span-All}
use sim_connectivity_monitor.Modem.AtParser.Listing.{
  cmgl_header, is_hex_line, cmgl_loop, parse_cmgl,
}

-- A hexadecimal digit in upper case.
abbrev pub IsUpperHex : ℕ → Type 0
IsUpperHex c = (is_digit c || (leb b'A' c && leb c b'F')) ≡ true

-- The PDU of a listed message is not empty.
abbrev pub HasPdu : RawSms → Type 0
HasPdu sms = All IsUpperHex sms.pdu_hex × (is_empty sms.pdu_hex ≡ false)

-- The header of a message, with what follows the status, and its PDU.
unfoldable pub header_line : RawSms → Text → Text
header_line sms rest =
    codes "+CMGL: " ++ (decimal sms.index ++ (b',' ∷ (decimal sms.status ++ (b',' ∷ rest))))

unfoldable pub listing : List (RawSms × Text) → List Text
unfolding header_line
listing [] = []
listing ((sms, rest) ∷ rows) = header_line sms rest ∷ sms.pdu_hex ∷ listing rows

cmgl_header-line :
    (sms : RawSms) (rest : Text) → cmgl_header (header_line sms rest) ≡ some (sms.index, sms.status)
unfolding cmgl_header header_line literal starts_with comma
cmgl_header-line sms rest =
    rw
      (
        lstrip-decimal sms.index _,
        number-decimal sms.index b',' _ refl,
        lstrip-decimal sms.status _,
        number-decimal sms.status b',' _ refl,
      )
      refl

rstrip-hex : (s : Text) → All IsUpperHex s → rstrip s ≡ s
unfolding rstrip
rstrip-hex [] a = refl
rstrip-hex (c ∷ []) a = ground (arith, a.0)
rstrip-hex (c ∷ d ∷ s) a = rw (rstrip-hex (d ∷ s) a.1) refl

lstrip-hex : (s : Text) → All IsUpperHex s → lstrip s ≡ s
unfolding lstrip
lstrip-hex [] a = refl
lstrip-hex (c ∷ s) a = ground (arith, a.0)

strip-hex : (s : Text) → All IsUpperHex s → strip s ≡ s
unfolding strip
strip-hex s a = rw (lstrip-hex s a) (rstrip-hex s a)

upper-hex : (s : Text) → All IsUpperHex s → upper s ≡ s
unfolding upper
upper-hex [] a = refl
upper-hex (c ∷ s) a = ground (arith, a.0, upper-hex s a.1)

All-hex : (s : Text) → All IsUpperHex s → All (λ c. is_hex c ≡ true) s
All-hex [] a = tt
All-hex (c ∷ s) a = (ground (arith, a.0), All-hex s a.1)

all_of-hex : (s : Text) → All IsUpperHex s → all_of is_hex s ≡ true
unfolding all_of
all_of-hex s a = rw (span-All is_hex s (All-hex s a)) refl

pdu-not_header : (s : Text) → All IsUpperHex s → cmgl_header s ≡ none
unfolding cmgl_header literal starts_with
pdu-not_header [] a = refl
pdu-not_header (c ∷ s) a = ground (arith, a.0)

pdu-is_hex_line : (s : Text) → All IsUpperHex s → is_empty s ≡ false → is_hex_line s ≡ true
unfolding is_hex_line
pdu-is_hex_line s a h = rw (strip-hex s a, all_of-hex s a, h) refl

loop-header :
    (pending : Option (ℕ × ℕ)) (header : ℕ × ℕ) (line : Text) (lines : List Text)
    → cmgl_header line ≡ some header
    → cmgl_loop pending (line ∷ lines) ≡ cmgl_loop (some header) lines
unfolding cmgl_loop
loop-header pending header line lines e = rw e refl

loop-pdu :
    (index status : ℕ) (line : Text) (lines : List Text)
    → cmgl_header line ≡ none
    → is_hex_line line ≡ true
    → cmgl_loop (some (index, status)) (line ∷ lines)
      ≡ record { index = index; status = status; pdu_hex = upper (strip line) }
        ∷ cmgl_loop none lines
unfolding cmgl_loop
loop-pdu index status line lines e h = rw (e, h) refl

cmgl_loop-listing :
    (rows : List (RawSms × Text))
    → All (λ row. HasPdu row.0) rows
    → cmgl_loop none (listing rows) ≡ map (λ (row : RawSms × Text). row.0) rows
unfolding listing
cmgl_loop-listing [] a = unfold cmgl_loop in refl
cmgl_loop-listing ((sms, rest) ∷ rows) a =
    loop-header none (sms.index, sms.status) _ _ (cmgl_header-line sms rest)
    ∙ loop-pdu sms.index sms.status sms.pdu_hex (listing rows) (pdu-not_header sms.pdu_hex a.0.0)
        (pdu-is_hex_line sms.pdu_hex a.0.0 a.0.1)
    ∙ rw (strip-hex sms.pdu_hex a.0.0, upper-hex sms.pdu_hex a.0.0, cmgl_loop-listing rows a.1) refl

-- A listing in which each message has a header with its index, its status and anything behind them,
-- and a line with its PDU, in upper case and not empty, is read as those messages in that order.
pub parse_cmgl-listing :
    (rows : List (RawSms × Text))
    → All (λ row. HasPdu row.0) rows
    → parse_cmgl (listing rows) ≡ map (λ (row : RawSms × Text). row.0) rows
unfolding parse_cmgl
parse_cmgl-listing rows a = cmgl_loop-listing rows a

-- ===== src/Modem/AtParser/Contexts.antt =====
-- src/sim_monitor/modem/at_parser.py: the contexts of the modem.
use sim_connectivity_monitor.Prelude.{
  Option, none, some, List, [], ◌∷◌, Text, codes, lstrip, upper, text_eq, if◌then◌else◌,
}
use sim_connectivity_monitor.Prelude.Failing.{◌>>=◌}
use sim_connectivity_monitor.Config.Schema.{PdpType, ipv4, ipv6, ipv4v6}
use sim_connectivity_monitor.Modem.Reconcile.{ActualPdpContext}
use sim_connectivity_monitor.Modem.AtParser.Scan.{literal, number, quoted, comma}

-- `_PDP_TYPE_TO_AT`.
abbrev pub pdp_type_to_at : PdpType → Text
pdp_type_to_at ipv4 = codes "IP"
pdp_type_to_at ipv6 = codes "IPV6"
pdp_type_to_at ipv4v6 = codes "IPV4V6"

-- `_PDP_TYPE_MAP.get(raw.upper(), raw)`.
unfoldable pub pdp_type_of : Text → Text
unfolding text_eq upper
pdp_type_of raw =
    if text_eq (upper raw) (codes "IP")
    then codes "IPv4"
    else if text_eq (upper raw) (codes "IPV6")
    then codes "IPv6"
    else if text_eq (upper raw) (codes "IPV4V6")
    then codes "IPv4v6"
    else raw

unfoldable pub cgdcont_of : Text → Option ActualPdpContext
unfolding literal number quoted comma lstrip pdp_type_of
cgdcont_of line = do
  s ← literal (codes "+CGDCONT:") (lstrip line)
  cid ← number (lstrip s)
  t ← comma cid.1
  kind ← quoted t
  u ← comma kind.1
  apn ← quoted u
  some (record { cid = cid.0; pdp_type = pdp_type_of kind.0; apn = apn.0 })

abbrev pub consed : {A : Type 0} → Option A → List A → List A
consed none xs = xs
consed (some x) xs = x ∷ xs

unfoldable pub parse_cgdcont : List Text → List ActualPdpContext
unfolding cgdcont_of
parse_cgdcont [] = []
parse_cgdcont (line ∷ lines) = consed (cgdcont_of line) (parse_cgdcont lines)

-- ===== src/Modem/AtParser/Tests.antt =====
-- Answers of modems.
use sim_connectivity_monitor.Prelude.{
  ◌≡◌, refl, none, some, List, [], ◌∷◌, map, Text, codes, negsuc, arith,
}
use sim_connectivity_monitor.Modem.Sms.{RawSms}
use sim_connectivity_monitor.Modem.AtParser.Replies.{parse_iccid, parse_csq, parse_cops, parse_cpin}
use sim_connectivity_monitor.Modem.AtParser.Urcs.{
  new_sms, registration, ring, caller_id, sms_pdu, classify_urc,
}
use sim_connectivity_monitor.Modem.AtParser.Radio.{
  registered, parse_qcsq, parse_qnwinfo, registration_label,
}
use sim_connectivity_monitor.Modem.AtParser.ServingCell.{other_cell, tokens, parse_qeng_servingcell}
use sim_connectivity_monitor.Modem.AtParser.Listing.{parse_cmgl}
use sim_connectivity_monitor.Modem.AtParser.Relisting.{listing, parse_cmgl-listing}

iccid : parse_iccid (codes "+QCCID: \"8944501234\"" ∷ []) ≡ some (codes "8944501234")
unfolding parse_iccid
iccid = refl

bare_iccid : parse_iccid (codes "894450123456789012F" ∷ []) ≡ some (codes "894450123456789012F")
unfolding parse_iccid
bare_iccid = refl

signal :
    parse_csq (codes "+CSQ: 31,99" ∷ [])
    ≡ some (record { rssi_dbm = some (negsuc 50); percent = some 100 })
unfolding parse_csq
signal = refl

operator : parse_cops (codes "+COPS: 0,0,\"EE\",7" ∷ []) ≡ some (some (codes "EE"))
unfolding parse_cops
operator = refl

no_operator : parse_cops (codes "+COPS: 0" ∷ []) ≡ some none
unfolding parse_cops
no_operator = refl

locked : parse_cpin (codes "+CPIN: SIM PIN " ∷ []) ≡ some (codes "SIM PIN")
unfolding parse_cpin
locked = refl

stored_sms : classify_urc (codes " +cmti: \"me\",3") ≡ new_sms (codes "ME") 3
unfolding classify_urc
stored_sms = refl

home : classify_urc (codes "+CEREG: 1") ≡ registration (codes "CEREG") (registered 1 none)
unfolding classify_urc registration_label
home = refl

cell :
    classify_urc (codes "+CREG: 5,\"1A2B\",\"00C3\",7")
    ≡ registration (codes "CREG") (registered 5 (some (codes "1A2B", codes "00C3")))
unfolding classify_urc registration_label
cell = refl

caller : classify_urc (codes "+CLIP: \"\",128") ≡ caller_id none 128
unfolding classify_urc
caller = refl

voice : classify_urc (codes "+CRING: VOICE") ≡ ring (some (codes "VOICE"))
unfolding classify_urc
voice = refl

body : classify_urc (codes "07914477790706520006D60B") ≡ sms_pdu
unfolding classify_urc
body = refl

no_service : parse_qnwinfo (codes "+QNWINFO: No Service" ∷ []) ≡ some none
unfolding parse_qnwinfo
no_service = refl

no_levels : parse_qcsq (codes "+QCSQ: \"NOSERVICE\"" ∷ []) ≡ some (codes "NOSERVICE", none)
unfolding parse_qcsq
no_levels = refl

no_lte :
    parse_qeng_servingcell (codes "+QENG: \"servingcell\",\"SEARCH\"" ∷ [])
    ≡ some (other_cell none (some (codes "SEARCH")))
unfolding parse_qeng_servingcell
no_lte = refl

tokens_of_line : tokens (codes " \"a\" ,-3") ≡ codes "a" ∷ codes "-3" ∷ []
unfolding tokens
tokens_of_line = refl

abbrev two_messages : List (RawSms × Text)
two_messages =
    (record { index = 3; status = 1; pdu_hex = codes "0791AF" }, codes ",24")
    ∷ (record { index = 10; status = 0; pdu_hex = codes "00" }, [])
    ∷ []

parse_cmgl-listing_example :
    parse_cmgl (listing two_messages) ≡ map (λ (row : RawSms × Text). row.0) two_messages
parse_cmgl-listing_example = parse_cmgl-listing two_messages (ground arith)

-- ===== src/Modem/AtChannel/Tests.antt =====
-- Answers with unsolicited lines in between.
use sim_connectivity_monitor.Prelude.{◌≡◌, refl, some, List, [], ◌∷◌, ◌++◌, Text, codes}
use sim_connectivity_monitor.Modem.AtParser.Replies.{parse_cgmi}
use sim_connectivity_monitor.Modem.AtChannel.{payload, role_of, read_response}
use sim_connectivity_monitor.Modem.AtChannel.Sorting.{ended, parts, asides, read_response-sorts}

abbrev status_report : Text
status_report = codes "07914477790706520006D60B"

abbrev answer : List Text
answer = codes "AT+CGMI" ∷ codes "+CDS: 24" ∷ status_report ∷ codes "Quectel" ∷ codes "OK" ∷ []

-- The header of a status report is set aside, but the PDU on the next line is taken for the name of
-- the manufacturer.
stray_pdu :
    (read_response (codes "AT+CGMI") answer).response
    ≡ payload (status_report ∷ codes "Quectel" ∷ [])
unfolding read_response
stray_pdu = refl

stray_vendor : parse_cgmi (status_report ∷ codes "Quectel" ∷ []) ≡ some status_report
unfolding parse_cgmi
stray_vendor = refl

abbrev before_ok : List Text
before_ok = codes "AT+CSQ" ∷ codes "+CMTI: 3" ∷ codes "+CSQ: 20,99" ∷ []

read_response-sorts_example :
    read_response (codes "AT+CSQ") (before_ok ++ (codes "OK" ∷ codes "RING" ∷ [])) ≡ record {
      response =
          ended
            (role_of (codes "AT+CSQ") (codes "OK"))
            (codes "OK")
            (parts (codes "AT+CSQ") before_ok);
      urcs = asides (codes "AT+CSQ") before_ok;
      left = codes "RING" ∷ [];
    }
unfolding role_of
read_response-sorts_example =
    read_response-sorts (codes "AT+CSQ") before_ok (codes "OK") (codes "RING" ∷ [])
      (refl, (refl, (refl, tt))) refl

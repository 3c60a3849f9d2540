-- ===== src/Modem/Sms/Tests.antt =====
-- Two parts of a message and a PDU that cannot be decoded.
use sim_connectivity_monitor.Prelude.{
  insert_by, arith, ℕ, ◌≡◌, ◌≢◌, refl, sym, ap, ◌∙◌, Option, List, none, some, [], ◌∷◌, ◌++◌, map,
  Text, codes, ◌==◌,
}
use sim_connectivity_monitor.Modem.Pdu.UserData.{Concat}
use sim_connectivity_monitor.Modem.Pdu.Decode.{DecodedSms, eight_bit, decode_pdu}
use sim_connectivity_monitor.Modem.Sms.{RawSms, Row, reassemble_inbound}
use sim_connectivity_monitor.Modem.Sms.Rows.{rows_tally, readable_tally, reassemble_inbound-tally}
use mathlib.Core.List.{Perm, perm_middle}
use sim_connectivity_monitor.Modem.Sms.Reordered.{place_of, AreApart, reassemble_inbound-Perm}
use sim_connectivity_monitor.Modem.Sms.Arrival.{reassemble_inbound-swap, reassemble_inbound_skips}

abbrev part_pdu : Text → Text
part_pdu tail = codes "00440181F1000462604222246480080500034202" ++ tail

abbrev first_part : RawSms
first_part = record { index = 3; status = 1; pdu_hex = part_pdu (codes "014142") }

abbrev second_part : RawSms
second_part = record { index = 1; status = 0; pdu_hex = part_pdu (codes "024344") }

abbrev broken : RawSms
broken = record { index = 2; status = 0; pdu_hex = codes "00440" }

abbrev place : ℕ → Concat
place n = record { ref = 66; total = 2; seq = n }

abbrev decoded : Text → ℕ → DecodedSms
decoded body n = record {
  sender = codes "1";
  timestamp = codes "2026-06-24 22:42:46";
  timestamp_epoch = some 1782333766;
  text = body;
  encoding = eight_bit;
  concat = some (place n);
  pid = 0;
  dcs = 4;
  udh_ieis = 0 ∷ [];
}

-- The second part was stored first.
put_together :
    map
      (λ (r : Row). r.body)
      (reassemble_inbound (λ t. t) 5 (second_part ∷ broken ∷ first_part ∷ []))
    ≡ codes "41424344" ∷ []
unfolding reassemble_inbound decode_pdu insert_by
put_together = refl

first_decoded : decode_pdu first_part.pdu_hex ≡ some (decoded (codes "4142") 1)
unfolding decode_pdu
first_decoded = refl

second_decoded : decode_pdu second_part.pdu_hex ≡ some (decoded (codes "4344") 2)
unfolding decode_pdu
second_decoded = refl

broken_decoded : decode_pdu broken.pdu_hex ≡ none
unfolding decode_pdu
broken_decoded = refl

abbrev sequence : Option ((Text × ℕ) × ℕ) → ℕ
sequence none = 0
sequence (some place) = place.1

abbrev one : ℕ
one = 1

one_is_not_two : one ≢ 2
one_is_not_two e = omega (arith, e)

reassemble_inbound-swap_example :
    reassemble_inbound (λ t. t) 5 ((broken ∷ []) ++ (first_part ∷ second_part ∷ []))
    ≡ reassemble_inbound (λ t. t) 5 ((broken ∷ []) ++ (second_part ∷ first_part ∷ []))
reassemble_inbound-swap_example =
    reassemble_inbound-swap (λ t. t) 5 (broken ∷ []) [] first_part second_part
      (decoded (codes "4142") 1) (decoded (codes "4344") 2) (place 1) (place 2)
      (first_decoded, refl) (second_decoded, refl) (refl, refl) one_is_not_two

abbrev listed : List RawSms
listed = first_part ∷ broken ∷ second_part ∷ []

listed-AreApart : AreApart listed
unfolding place_of
listed-AreApart =
    rw (first_decoded, broken_decoded, second_decoded)
      (
        ((λ place e f. cc), ((λ place e f. one_is_not_two (ap sequence (e ∙ sym f))), tt)),
        (((λ place e f. cc), tt), (tt, tt)),
      )

reassemble_inbound-Perm_example :
    Perm
      (reassemble_inbound (λ t. t) 5 listed)
      (reassemble_inbound (λ t. t) 5 (second_part ∷ first_part ∷ broken ∷ []))
reassemble_inbound-Perm_example =
    reassemble_inbound-Perm (λ t. t) 5 listed (second_part ∷ first_part ∷ broken ∷ [])
      (perm_middle (first_part ∷ broken ∷ []) []) listed-AreApart

reassemble_inbound_skips_example :
    reassemble_inbound (λ t. t) 5 ((first_part ∷ []) ++ (broken ∷ second_part ∷ []))
    ≡ reassemble_inbound (λ t. t) 5 ((first_part ∷ []) ++ (second_part ∷ []))
reassemble_inbound_skips_example =
    reassemble_inbound_skips (λ t. t) 5 (first_part ∷ []) (second_part ∷ []) broken broken_decoded

reassemble_inbound-tally_example :
    rows_tally (λ i. i == 1) (reassemble_inbound (λ t. t) 5 (second_part ∷ broken ∷ []))
    ≡ readable_tally (λ i. i == 1) (second_part ∷ broken ∷ [])
reassemble_inbound-tally_example =
    reassemble_inbound-tally (λ i. i == 1) (λ t. t) 5 (second_part ∷ broken ∷ [])

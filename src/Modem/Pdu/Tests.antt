-- ===== src/Modem/Pdu/Tests.antt =====
-- The codec on PDUs of the repository's own tests, and the theorems at concrete texts.
use sim_connectivity_monitor.Prelude.{
  is_some, ℕ, ◌+◌, ◌*◌, ◌/◌, ◌≡◌, ◌↔◌, ◌<◌, refl, true, Option, none, some, List, [], ◌∷◌, ◌++◌,
  Text, codes, length, replicate, All, leb, if◌then◌else◌, arith,
}
use sim_connectivity_monitor.Prelude.Failing.{◌>>=◌}
use sim_connectivity_monitor.Modem.Pdu.Hex.{to_bytes, hex_upper}
use sim_connectivity_monitor.Modem.Pdu.Alphabet.{text_to_septets}
use sim_connectivity_monitor.Modem.Pdu.Septets.{pack_gsm7, pack_gsm7_with_offset, unpack_septets}
use sim_connectivity_monitor.Modem.Pdu.Unpacking.{unpack-pack}
use sim_connectivity_monitor.Modem.Pdu.Address.{decode_address, encode_address}
use sim_connectivity_monitor.Modem.Pdu.UserData.{udh_loop, concat_udh}
use sim_connectivity_monitor.Modem.Pdu.Utf16.{utf16_encode}
use sim_connectivity_monitor.Modem.Pdu.Decode.{DecodedSms, decode_pdu}
use sim_connectivity_monitor.Modem.Pdu.Encode.{
  Pdu, chunks, assemble, gsm7_user_data, gsm7_part, gsm7_parts, encode_parts_gsm7,
  encode_parts_ucs2, encode_submit,
}
use sim_connectivity_monitor.Modem.Pdu.Message.{read_submit}
use sim_connectivity_monitor.Modem.Pdu.Dialling.{number_of, toa_of, decode_address-encode_address}
use sim_connectivity_monitor.Modem.Pdu.Whole.{most_septets, receive}
use sim_connectivity_monitor.Modem.Pdu.Submitted.{encode_submit-receive, encode_parts_gsm7_fails}
use sim_connectivity_monitor.Modem.Pdu.Sizes.{Fits, encode_parts_gsm7-Fits}
use sim_connectivity_monitor.Modem.Pdu.Unicode.{encode_parts_ucs2-receive}
use sim_connectivity_monitor.Modem.Pdu.HeaderLoop.{udh_loop-ends}

-- tests/test_pdu.py: the well-known PDU with the text "hellohello".
abbrev hello_pdu : Text
hello_pdu = codes "0791447779071413040B914477676767670000991121017455400AE8329BFD4697D9EC37"

abbrev of_sms {ℓ} : {A : Type ℓ} → (DecodedSms → A) → Text → Option A
of_sms field pdu = decode_pdu pdu >>= λ sms. some (field sms)

hello_text : of_sms (λ sms. sms.text) hello_pdu ≡ some (codes "hellohello")
unfolding decode_pdu
hello_text = refl

hello_sender : of_sms (λ sms. sms.sender) hello_pdu ≡ some (codes "+44777676767")
unfolding decode_pdu
hello_sender = refl

-- The stamp of 2026-06-24 22:42:46 in a zone two hours ahead: 20:42:46 in UTC.
abbrev stamped_pdu : Text
stamped_pdu = codes "00040181F000006260422224648000"

stamped_at : of_sms (λ sms. sms.timestamp_epoch) stamped_pdu ≡ some (some 1782333766)
unfolding decode_pdu
stamped_at = refl

-- An escape as the last septet of the first part: the receiver reads two characters, not one.
abbrev split_escape : List ℕ
split_escape = replicate 152 97 ++ (27 ∷ 101 ∷ replicate 20 97)

split_text : text_to_septets (replicate 152 97 ++ (0x20ac ∷ replicate 20 97)) ≡ some split_escape
unfolding text_to_septets
split_text = refl

split_received :
    (encode_parts_gsm7 (1 ∷ 0x81 ∷ 0xf1 ∷ []) split_escape 7 >>= receive 3)
    ≡ some (replicate 152 97 ++ (27 ∷ 101 ∷ replicate 20 97))
unfolding encode_parts_gsm7 gsm7_parts gsm7_part gsm7_user_data concat_udh to_bytes hex_upper
    assemble pack_gsm7_with_offset pack_gsm7 chunks receive read_submit
split_received = refl

abbrev short_text : Text
short_text = codes "Hi @"

abbrev short_septets : List ℕ
short_septets = 72 ∷ 105 ∷ 32 ∷ 0 ∷ []

abbrev digits : Text
digits = codes "12025550123"

encode_submit-receive_example :
    (encode_submit (number_of true digits) short_text 0 >>= receive (2 + (length digits + 1) / 2))
    ≡ some short_text
unfolding text_to_septets
encode_submit-receive_example =
    encode_submit-receive true digits short_text short_septets 0 (ground arith) (omega arith) refl
      (ground arith) (omega arith)

encode_parts_gsm7_fails_example :
    (encode_parts_gsm7 (1 ∷ 0x81 ∷ 0xf1 ∷ []) short_septets 0 ≡ none)
    ↔ (most_septets < length short_septets)
encode_parts_gsm7_fails_example =
    encode_parts_gsm7_fails (1 ∷ 0x81 ∷ 0xf1 ∷ []) short_septets 0 (ground arith) (ground arith)

-- The part of `short_septets` to the number 1.
abbrev short_pdu : Text
short_pdu = codes "0001000181F1000004C8340800"

abbrev short_parts : List Pdu
short_parts = (short_pdu, 12) ∷ []

encode_parts_gsm7-Fits_example :
    All (Fits (1 ∷ 0x81 ∷ 0xf1 ∷ [])) short_parts
    × (length short_parts
        ≡ (if leb (length short_septets) 160 then 1 else (length short_septets + 152) / 153))
unfolding encode_parts_gsm7 hex_upper to_bytes assemble pack_gsm7
encode_parts_gsm7-Fits_example =
    encode_parts_gsm7-Fits (1 ∷ 0x81 ∷ 0xf1 ∷ []) short_septets 0 short_parts (ground arith) refl

unpack-pack_example :
    unpack_septets
      ((5 ∷ 0 ∷ 3 ∷ 1 ∷ 2 ∷ 1 ∷ []) ++ pack_gsm7_with_offset short_septets 1)
      (length short_septets)
      (7 * 7)
    ≡ short_septets
unpack-pack_example =
    unpack-pack short_septets 1 (ground arith) (omega arith) (5 ∷ 0 ∷ 3 ∷ 1 ∷ 2 ∷ 1 ∷ []) 7
      (ground arith) refl

decode_address-encode_address_example :
    (bcd : List ℕ) × (encode_address (number_of true digits)
      ≡ some (length digits ∷ toa_of true ∷ bcd))
    × (decode_address (toa_of true ∷ bcd) (length digits) ≡ some (number_of true digits))
    × All (λ x. x < 256) bcd
    × (length bcd ≡ (length digits + 1) / 2)
decode_address-encode_address_example =
    decode_address-encode_address true digits (ground arith) (omega arith)

-- "é" and an emoji outside the basic plane.
abbrev wide_text : Text
wide_text = 0xe9 ∷ 0x1f600 ∷ []

encode_parts_ucs2-receive_example :
    (encode_parts_ucs2 (1 ∷ 0x81 ∷ 0xf1 ∷ []) wide_text 0 >>= receive 3) ≡ some wide_text
unfolding utf16_encode
encode_parts_ucs2-receive_example =
    encode_parts_ucs2-receive (1 ∷ 0x81 ∷ 0xf1 ∷ []) 0 wide_text
      (0 ∷ 0xe9 ∷ 0xd8 ∷ 0x3d ∷ 0xde ∷ 0 ∷ []) (ground arith) (ground arith) refl (omega arith)

-- An empty element, and one of the concatenation.
udh_loop-ends_example : is_some (udh_loop 8 (7 ∷ 4 ∷ 0 ∷ 0 ∷ 3 ∷ 7 ∷ 2 ∷ 1 ∷ []) 1 8 none []) ≡ true
udh_loop-ends_example =
    udh_loop-ends 8 (7 ∷ 4 ∷ 0 ∷ 0 ∷ 3 ∷ 7 ∷ 2 ∷ 1 ∷ []) 1 8 none [] (omega arith) (omega arith)

-- ===== src/Modem/Pdu/Submitted.antt =====
-- `encode_submit` as a whole: what is sent to a number, and when it fails.
use sim_connectivity_monitor.Prelude.{
  ℕ, ◌+◌, ◌/◌, ◌<◌, ◌≤◌, ◌≡◌, ◌↔◌, refl, ap, ◌∙◌, Bool, false, Bool-cases, inl, inr, none, some,
  List, [], ◌∷◌, Text, length, leb, leb→le, All, arith,
}
use sim_connectivity_monitor.Prelude.Failing.{◌>>=◌}
use sim_connectivity_monitor.Modem.Pdu.Alphabet.{text_to_septets}
use sim_connectivity_monitor.Modem.Pdu.Dialling.{
  IsDigits, number_of, toa_of, decode_address-encode_address,
}
use sim_connectivity_monitor.Modem.Pdu.Hex.{to_bytes}
use sim_connectivity_monitor.Modem.Pdu.UserData.{concat_udh}
use sim_connectivity_monitor.Modem.Pdu.Chunks.{chunks_lem}
use sim_connectivity_monitor.Modem.Pdu.Encode.{
  chunks, gsm7_parts, gsm7_part, gsm7_user_data, encode_parts_gsm7, encode_submit,
}
use sim_connectivity_monitor.Modem.Pdu.Whole.{
  IsPlain, most_septets, receive, encode_parts_gsm7-receive, encode_parts_gsm7-total,
}

-- Let a text have septets without an escape, at most 39015 of them, and a number at most 255
-- decimal digits, with "+" in front or not. Then `encode_submit` succeeds for every reference,
-- and a receiver who decodes the user data of each PDU and joins the texts in their order has
-- the text.
pub encode_submit-receive :
    (international : Bool) (digits text : Text) (septets : List ℕ) (ref : ℕ)
    → IsDigits digits
    → length digits ≤ 255
    → text_to_septets text ≡ some septets
    → IsPlain septets
    → length septets ≤ most_septets
    → (encode_submit (number_of international digits) text ref
        >>= receive (2 + (length digits + 1) / 2))
      ≡ some text
unfolding encode_submit
encode_submit-receive international digits text septets ref a size h plain short =
    let (bcd, written, _, byte, count) =
      decode_address-encode_address international digits a size in
    rw (written, h)
      (ap
          (λ n.
            encode_parts_gsm7 (length digits ∷ toa_of international ∷ bcd) septets ref
            >>= receive n)
          (omega (arith, count))
        ∙ encode_parts_gsm7-receive (length digits ∷ toa_of international ∷ bcd) ref text septets
            (omega (arith, size), (ground arith, byte)) h plain short)

too_many : (ref total seq : ℕ) → 256 ≤ total → concat_udh ref total seq ≡ none
unfolding concat_udh to_bytes
too_many ref total seq h = ground (arith, h)

gsm7_parts-none :
    (da : List ℕ) (ref total seq : ℕ) (cs : List (List ℕ))
    → 256 ≤ total
    → 1 ≤ length cs
    → gsm7_parts da ref total seq cs ≡ none
unfolding gsm7_parts gsm7_part gsm7_user_data
gsm7_parts-none da ref total seq [] h k = absurd (omega (arith, k))
gsm7_parts-none da ref total seq (c ∷ cs) h k = rw (too_many ref total seq h) refl

-- For an address of octets and septets below 128, the encoding fails if and only if there are
-- more than 39015 septets, which is 255 parts of 153.
pub encode_parts_gsm7_fails :
    (da septets : List ℕ) (ref : ℕ)
    → All (λ x. x < 256) da
    → All (λ s. s < 128) septets
    → (encode_parts_gsm7 da septets ref ≡ none) ↔ (most_septets < length septets)
unfolding encode_parts_gsm7
encode_parts_gsm7_fails da septets ref da_byte low = (only, when)
  where
    when : most_septets < length septets → encode_parts_gsm7 da septets ref ≡ none
    when long =
        let (_, _, enough, _) = chunks_lem 153 (omega arith) septets in
        let several : leb (length septets) 160 ≡ false = ground (arith, long) in
        rw several (
          gsm7_parts-none da ref (length (chunks 153 septets)) 1 (chunks 153 septets)
            (omega (arith, enough, long)) (omega (arith, enough, long)))

    only : encode_parts_gsm7 da septets ref ≡ none → most_septets < length septets
    only e = elim (Bool-cases (leb (length septets) most_septets)) [
      | inl short ↦
          absurd (cc (e, encode_parts_gsm7-total da septets ref da_byte low (leb→le _ _ short)))
      | inr long ↦ ground (arith, long)
    ]

-- ===== src/Modem/Pdu/Received.antt =====
-- What a receiver decodes from the user data of the parts that `_encode_parts_gsm7` builds.
use sim_connectivity_monitor.Prelude.{
  ℕ, ◌+◌, ◌-◌, ◌/◌, ◌%◌, ◌<◌, ◌≡◌, refl, ap, ◌∙◌, none, some, List, [], ◌∷◌, ◌++◌, Text, length,
  All, arith,
}
use sim_connectivity_monitor.Prelude.Failing.{◌>>=◌}
use sim_connectivity_monitor.Modem.Pdu.Alphabet.{text_to_septets, septets_to_text}
use sim_connectivity_monitor.Modem.Pdu.Spelling.{septets_to_text-text_to_septets}
use sim_connectivity_monitor.Modem.Pdu.Septets.{pack_gsm7, pack_gsm7_with_offset, unpack_septets}
use sim_connectivity_monitor.Modem.Pdu.Unpacking.{unpack-pack}
use sim_connectivity_monitor.Modem.Pdu.HexLaws.{to_bytes-All}
use sim_connectivity_monitor.Modem.Pdu.Address.{unpack_gsm7}
use sim_connectivity_monitor.Modem.Pdu.UserData.{Header, parse_udh_concat, concat_udh}
use sim_connectivity_monitor.Modem.Pdu.Decode.{gsm7, decode_text, decode_user_data}
use sim_connectivity_monitor.Modem.Pdu.Encode.{gsm7_user_data}

abbrev pub no_header : Header
no_header = record { size = 0; concat = none; ieis = [] }

-- The header of part `seq` of `total`.
abbrev pub part_header : ℕ → ℕ → ℕ → Header
part_header ref total seq = record {
  size = 6;
  concat = some (record { ref = ref; total = total; seq = seq });
  ieis = 0 ∷ [];
}

abbrev pub part_udh : ℕ → ℕ → ℕ → List ℕ
part_udh ref total seq = 0x05 ∷ 0x00 ∷ 0x03 ∷ ref ∷ total ∷ seq ∷ []

module _ (ref total seq : ℕ) (ht : total < 256) (hs : seq < 256) where
  pub udh-IsByte : All (λ x. x < 256) (part_udh (ref % 256) total seq)
  udh-IsByte = (omega arith, (omega arith, (omega arith, (omega arith, (ht, (hs, tt))))))

  pub concat_udh-octets : concat_udh ref total seq ≡ some (part_udh (ref % 256) total seq)
  unfolding concat_udh
  concat_udh-octets = to_bytes-All _ udh-IsByte

  -- `_parse_udh_concat` reads back what `_concat_udh` writes, whatever follows it.
  pub parse_udh_concat-concat_udh :
      (rest : List ℕ)
      → (concat_udh ref total seq >>= λ udh. parse_udh_concat (udh ++ rest))
        ≡ some (part_header (ref % 256) total seq)
  unfolding parse_udh_concat
  parse_udh_concat-concat_udh rest = rw concat_udh-octets refl

  -- With the header bit set in `first`, the user data of part `seq` of `total`, both below 256,
  -- built from septets below 128, are decoded to the text of these septets and a header with the
  -- lowest octet of the reference, `total` and `seq`.
  pub gsm7_part-decode :
      (first : ℕ) (chunk : List ℕ)
      → first / 64 % 2 ≡ 1
      → All (λ s. s < 128) chunk
      → (gsm7_user_data ref total seq chunk >>= λ u. decode_user_data first 0x00 u.1 u.0)
        ≡ some (part_header (ref % 256) total seq, septets_to_text chunk, gsm7)
  unfolding gsm7_user_data decode_user_data decode_text parse_udh_concat unpack_gsm7
  gsm7_part-decode first chunk f a =
      rw (concat_udh-octets, f)
        (ap (λ text. some (part_header (ref % 256) total seq, text, gsm7))
          (ap (λ n. septets_to_text (unpack_septets ud n 49)) text_size
            ∙ ap (λ r. septets_to_text r)
                (unpack-pack chunk 1 a (omega arith) (part_udh (ref % 256) total seq) 7 udh-IsByte
                  refl)))
    where
      ud : List ℕ
      ud = part_udh (ref % 256) total seq ++ pack_gsm7_with_offset chunk 1

      text_size : 7 + length chunk - 7 ≡ length chunk
      text_size = omega arith

-- A text that fits in one part is decoded from its user data.
pub single_part-decode :
    (first : ℕ) (text : Text) (septets : List ℕ)
    → first / 64 % 2 ≡ 0
    → text_to_septets text ≡ some septets
    → decode_user_data first 0x00 (length septets) (pack_gsm7 septets)
      ≡ some (no_header, text, gsm7)
unfolding decode_user_data decode_text pack_gsm7 unpack_gsm7 pack_gsm7_with_offset
single_part-decode first text septets f h =
    let (low, spelling) = septets_to_text-text_to_septets text septets h in
    rw f (
      ap (λ t. some (no_header, t, gsm7))
        (ap (λ n. septets_to_text (unpack_septets (pack_gsm7 septets) n 0)) whole
          ∙ ap (λ r. septets_to_text r) (unpack-pack septets 0 low (omega arith) [] 0 tt refl)
          ∙ spelling))
  where
    whole : length septets - 0 ≡ length septets
    whole = omega arith

-- ===== src/Modem/Pdu/Whole.antt =====
-- All parts of a message in septets, as a receiver reads them one after the other.
use sim_connectivity_monitor.Prelude.{
  ℕ, suc, ◌+◌, ◌%◌, ◌<◌, ◌≤◌, ◌≡◌, refl, ap, ◌∙◌, sym, is_some, true, false, Bool-cases, inl, inr,
  Option, some, List, [], ◌∷◌, ◌++◌, append-nil, Text, length, leb, leb→le, All, All-append, ◌==◌,
  arith,
}
use sim_connectivity_monitor.Prelude.Failing.{◌>>=◌}
use sim_connectivity_monitor.Modem.Pdu.Alphabet.{text_to_septets, septets_to_text}
use sim_connectivity_monitor.Modem.Pdu.Spelling.{septets_to_text-text_to_septets}
use sim_connectivity_monitor.Modem.Pdu.Septets.{pack_gsm7, pack_gsm7_with_offset}
use sim_connectivity_monitor.Modem.Pdu.Unpacking.{pack-IsByte}
use sim_connectivity_monitor.Modem.Pdu.Decode.{gsm7, decode_user_data}
use sim_connectivity_monitor.Modem.Pdu.Encode.{
  Pdu, assemble, chunks, gsm7_user_data, gsm7_part, gsm7_parts, encode_parts_gsm7,
}
use sim_connectivity_monitor.Modem.Pdu.Chunks.{joined_chunks, chunks_lem, All-chunks}
use sim_connectivity_monitor.Modem.Pdu.Received.{
  part_header, part_udh, udh-IsByte, concat_udh-octets, gsm7_part-decode, single_part-decode,
}
use sim_connectivity_monitor.Modem.Pdu.Message.{
  read_submit, assembled, assemble-octets, read_submit-assembled,
}

-- The texts of the parts, in their order.
unfoldable pub receive : ℕ → List Pdu → Option Text
receive n [] = some []
receive n (part ∷ parts) = do
  found ← read_submit n part.0
  rest ← receive n parts
  some (found.1 ++ rest)

-- The septets of a text without characters of the extension table.
abbrev pub IsPlain : List ℕ → Type 0
IsPlain septets = All (λ s. (s == 27) ≡ false) septets

septets_to_text-append :
    (xs ys : List ℕ)
    → IsPlain xs
    → septets_to_text (xs ++ ys) ≡ septets_to_text xs ++ septets_to_text ys
unfolding septets_to_text
septets_to_text-append [] ys a = refl
septets_to_text-append (x ∷ []) [] a = refl
septets_to_text-append (x ∷ []) (y ∷ ys) a = ground (arith, a.0)
septets_to_text-append (x ∷ y ∷ xs) ys a =
    ground (arith, a.0, septets_to_text-append (y ∷ xs) ys a.1)

texts : List (List ℕ) → Text
texts [] = []
texts (c ∷ cs) = septets_to_text c ++ texts cs

texts-IsPlain :
    (cs : List (List ℕ)) → All IsPlain cs → texts cs ≡ septets_to_text (joined_chunks cs)
unfolding texts joined_chunks septets_to_text
texts-IsPlain [] a = refl
texts-IsPlain (c ∷ cs) a =
    ap (λ r. septets_to_text c ++ r) (texts-IsPlain cs a.1)
    ∙ sym (septets_to_text-append c (joined_chunks cs) a.0)

module _ (da : List ℕ) (da_byte : All (λ x. x < 256) da) (ref : ℕ) where
  -- A part is built, and the receiver reads its text.
  gsm7_part-receive :
      (total seq : ℕ) (c : List ℕ)
      → total < 256
      → seq < 256
      → All (λ s. s < 128) c
      → length c ≤ 153
      → (part : Pdu) × (gsm7_part da ref total seq c ≡ some part)
        × (read_submit (length da) part.0
            ≡ some (part_header (ref % 256) total seq, septets_to_text c, gsm7))
  unfolding gsm7_part gsm7_user_data
  gsm7_part-receive total seq c ht hs low size = (
    assembled da ud 0 (7 + length c) da_byte ud_byte (omega arith) (omega arith) true,
    rw
        (
          concat_udh-octets ref total seq ht hs,
          assemble-octets da ud 0 (7 + length c) da_byte ud_byte (omega arith) (omega arith) true,
        )
        refl,
    read_submit-assembled da ud 0 (7 + length c) da_byte ud_byte (omega arith) (omega arith) true
        ∙ whole,
  )
    where
      ud : List ℕ
      ud = part_udh (ref % 256) total seq ++ pack_gsm7_with_offset c 1

      ud_byte : All (λ x. x < 256) ud
      ud_byte =
          All-append (λ x. x < 256) (part_udh (ref % 256) total seq) (pack_gsm7_with_offset c 1)
            (udh-IsByte ref total seq ht hs) (pack-IsByte c 1 low (omega arith))

      whole :
          decode_user_data 0x41 0 (7 + length c) ud
          ≡ some (part_header (ref % 256) total seq, septets_to_text c, gsm7)
      whole =
          rw (concat_udh-octets ref total seq ht hs) at
            (gsm7_part-decode ref total seq ht hs 0x41 c refl low)

  single-receive :
      (text : Text) (septets : List ℕ)
      → text_to_septets text ≡ some septets
      → length septets ≤ 160
      → ((do part ← assemble da 0x00 (length septets) (pack_gsm7 septets) false; some (part ∷ []))
          >>= receive (length da))
        ≡ some text
  unfolding receive pack_gsm7 pack_gsm7_with_offset
  single-receive text septets h size =
      rw
        (
          assemble-octets da (pack_gsm7 septets) 0 (length septets) da_byte ud_byte (omega arith)
              (omega arith) false,
          read_submit-assembled da (pack_gsm7 septets) 0 (length septets) da_byte ud_byte
              (omega arith) (omega arith) false,
          single_part-decode 0x01 text septets refl h,
        )
        (ap (λ t. some t) (append-nil text))
    where
      ud_byte : All (λ x. x < 256) (pack_gsm7 septets)
      ud_byte =
          pack-IsByte septets 0 (septets_to_text-text_to_septets text septets h).0 (omega arith)

  -- All parts are built, and the receiver reads the text of each.
  gsm7_parts-receive :
      (total seq : ℕ) (cs : List (List ℕ))
      → total < 256
      → seq + length cs ≤ 256
      → All (All (λ s. s < 128)) cs
      → All (λ c. (1 ≤ length c) × (length c ≤ 153)) cs
      → (parts : List Pdu) × (gsm7_parts da ref total seq cs ≡ some parts)
        × (receive (length da) parts ≡ some (texts cs))
  unfolding gsm7_parts receive texts
  gsm7_parts-receive total seq [] ht hs a b = ([], refl, refl)
  gsm7_parts-receive total seq (c ∷ cs) ht hs a b =
      let (part, built, read) = gsm7_part-receive total seq c ht (omega (arith, hs)) a.0 (b.0).1 in
      let (parts, all_built, all_read) =
        gsm7_parts-receive total (suc seq) cs ht (omega (arith, hs)) a.1 b.1 in
      (part ∷ parts, rw (built, all_built) refl, rw (read, all_read) refl)

-- How many septets `_encode_parts_gsm7` can send: 255 parts of 153.
abbrev pub most_septets : ℕ
most_septets = 39015

-- A text of the basic alphabet that is not longer than 255 parts is sent and received whole.
pub encode_parts_gsm7-receive :
    (da : List ℕ) (ref : ℕ) (text : Text) (septets : List ℕ)
    → All (λ x. x < 256) da
    → text_to_septets text ≡ some septets
    → IsPlain septets
    → length septets ≤ most_septets
    → (encode_parts_gsm7 da septets ref >>= receive (length da)) ≡ some text
unfolding encode_parts_gsm7
encode_parts_gsm7-receive da ref text septets da_byte h plain size =
    let (low, spelling) = septets_to_text-text_to_septets text septets h in
    elim (Bool-cases (leb (length septets) 160)) [
      | inl e ↦ rw e (single-receive da da_byte ref text septets h (leb→le _ _ e))
      | inr e ↦
          let (joined, sizes, _, enough) = chunks_lem 153 (omega arith) septets in
          let cs : List (List ℕ) = chunks 153 septets in
          let (parts, built, read) =
            gsm7_parts-receive da da_byte ref (length cs) 1 cs (omega (arith, enough))
              (omega (arith, enough)) (All-chunks 153 (omega arith) (λ s. s < 128) septets low)
              sizes in
          rw e (
            ap (λ o. o >>= receive (length da)) built
            ∙ read
            ∙ ap (λ t. some t)
                (texts-IsPlain cs
                    (All-chunks 153 (omega arith) (λ s. (s == 27) ≡ false) septets plain)
                  ∙ ap septets_to_text joined
                  ∙ spelling))
    ]

-- Up to 255 parts are built, whatever the septets stand for.
pub encode_parts_gsm7-total :
    (da septets : List ℕ) (ref : ℕ)
    → All (λ x. x < 256) da
    → All (λ s. s < 128) septets
    → length septets ≤ most_septets
    → is_some (encode_parts_gsm7 da septets ref) ≡ true
unfolding encode_parts_gsm7 pack_gsm7 pack_gsm7_with_offset
encode_parts_gsm7-total da septets ref da_byte low size =
    elim (Bool-cases (leb (length septets) 160)) [
      | inl e ↦
          rw
            (
              e,
              assemble-octets da (pack_gsm7 septets) 0 (length septets) da_byte
                  (pack-IsByte septets 0 low (omega arith)) (omega arith) (short e) false,
            )
            refl
      | inr e ↦
          let (_, sizes, _, enough) = chunks_lem 153 (omega arith) septets in
          let cs : List (List ℕ) = chunks 153 septets in
          let (parts, built, _) =
            gsm7_parts-receive da da_byte ref (length cs) 1 cs (omega (arith, enough))
              (omega (arith, enough)) (All-chunks 153 (omega arith) (λ s. s < 128) septets low)
              sizes in
          rw (e, built) refl
    ]
  where
    short : leb (length septets) 160 ≡ true → length septets < 256
    short e = ground (arith, e)

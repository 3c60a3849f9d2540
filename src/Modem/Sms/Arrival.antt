-- ===== src/Modem/Sms/Arrival.antt =====
-- The order in which the parts of a message are stored does not matter, and what cannot be decoded
-- is skipped.
use sim_connectivity_monitor.Prelude.{
  ℕ, ◌≡◌, ◌≢◌, refl, ap, ◌∙◌, sym, Option, none, some, List, [], ◌∷◌, ◌++◌, append-nil, Text,
  sort_by,
}
use sim_connectivity_monitor.Modem.Pdu.UserData.{Concat}
use sim_connectivity_monitor.Modem.Pdu.Decode.{DecodedSms, decode_pdu}
use sim_connectivity_monitor.Modem.Sms.{
  RawSms, Row, Part, Group, add_part, seq_lt, newer, sorted_rows, group_rows, rows_of_groups,
  file_sms, file_raw, sort_out, reassemble_inbound,
}
use sim_connectivity_monitor.Modem.Sms.Groups.{
  SameParts, SameGroups, same_nil, same_cons, add_part-SameGroups, add_part-swap,
}

module _ (sha1 : Text → Text) (now : ℕ) where
  rows_of-SameGroups :
      {gs hs : List Group}
      → SameGroups gs hs
      → rows_of_groups sha1 now gs ≡ rows_of_groups sha1 now hs
  unfolding rows_of_groups group_rows SameParts
  rows_of-SameGroups same_nil = refl
  rows_of-SameGroups (same_cons {key = key} {ps = ps} {qs = qs} {gs = gs} {hs = hs} same rest) =
      ap (λ r. sorted_rows sha1 now r ++ rows_of_groups sha1 now gs) (whole ps qs same)
      ∙ ap (λ r. sorted_rows sha1 now (sort_by seq_lt qs) ++ r) (rows_of-SameGroups rest)
    where
      whole : (ps qs : List Part) → SameParts ps qs → sort_by seq_lt ps ≡ sort_by seq_lt qs
      whole ps qs same =
          sym (ap (λ r. sort_by seq_lt r) (append-nil ps))
          ∙ same []
          ∙ ap (λ r. sort_by seq_lt r) (append-nil qs)

  file_sms-SameGroups :
      (raw : RawSms) (sms : DecodedSms) (concat : Option Concat) (singles : List Row)
      {gs hs : List Group}
      → SameGroups gs hs
      → ((file_sms sha1 now raw sms concat singles gs).0
          ≡ (file_sms sha1 now raw sms concat singles hs).0)
        × SameGroups
            (file_sms sha1 now raw sms concat singles gs).1
            (file_sms sha1 now raw sms concat singles hs).1
  unfolding file_sms
  file_sms-SameGroups raw sms none singles same = (refl, same)
  file_sms-SameGroups raw sms (some place) singles same = (refl, add_part-SameGroups _ _ same)

  file_raw-SameGroups :
      (raw : RawSms) (sms : Option DecodedSms) (singles : List Row) {gs hs : List Group}
      → SameGroups gs hs
      → ((file_raw sha1 now raw sms singles gs).0 ≡ (file_raw sha1 now raw sms singles hs).0)
        × SameGroups
            (file_raw sha1 now raw sms singles gs).1
            (file_raw sha1 now raw sms singles hs).1
  unfolding file_raw
  file_raw-SameGroups raw none singles same = (refl, same)
  file_raw-SameGroups raw (some sms) singles same =
      file_sms-SameGroups raw sms sms.concat singles same

  -- The rows after the loop.
  rows_after : List RawSms → List Row → List Group → List Row
  rows_after raws singles groups =
      (sort_out sha1 now raws singles groups).0
      ++ rows_of_groups sha1 now (sort_out sha1 now raws singles groups).1

  rows_after-SameGroups :
      (raws : List RawSms) (singles : List Row) {gs hs : List Group}
      → SameGroups gs hs
      → rows_after raws singles gs ≡ rows_after raws singles hs
  unfolding rows_after sort_out
  rows_after-SameGroups [] singles same = ap (λ r. singles ++ r) (rows_of-SameGroups same)
  rows_after-SameGroups (raw ∷ raws) singles {gs = gs} {hs = hs} same =
      let (rows, groups) = file_raw-SameGroups raw (decode_pdu raw.pdu_hex) singles same in
      rows_after-SameGroups raws (file_raw sha1 now raw (decode_pdu raw.pdu_hex) singles gs).0
        groups
      ∙ ap (λ r. rows_after raws r (file_raw sha1 now raw (decode_pdu raw.pdu_hex) singles hs).1)
          rows

  rows_after-append :
      (front back : List RawSms) (singles : List Row) (groups : List Group)
      → rows_after (front ++ back) singles groups
        ≡ rows_after back
            (sort_out sha1 now front singles groups).0
            (sort_out sha1 now front singles groups).1
  unfolding rows_after sort_out
  rows_after-append [] back singles groups = refl
  rows_after-append (raw ∷ front) back singles groups =
      rows_after-append front back (file_raw sha1 now raw (decode_pdu raw.pdu_hex) singles groups).0
        (file_raw sha1 now raw (decode_pdu raw.pdu_hex) singles groups).1

  -- The part that a raw message decodes to, if it decodes to one of these.
  IsPart : RawSms → DecodedSms → Concat → Type 0
  IsPart raw sms place = (decode_pdu raw.pdu_hex ≡ some sms) × (sms.concat ≡ some place)

  file-part :
      (raw : RawSms) (sms : DecodedSms) (place : Concat) (singles : List Row) (groups : List Group)
      → IsPart raw sms place
      → file_raw sha1 now raw (decode_pdu raw.pdu_hex) singles groups ≡ (
        singles,
        add_part
            (sms.sender, place.ref)
            (record { raw = raw; decoded = sms; place = place })
            groups,
      )
  unfolding IsPart file_raw file_sms
  file-part raw sms place singles groups h = rw (h.0, h.1) refl

  rows_after-filed :
      (raw : RawSms) (raws : List RawSms) (singles : List Row) (groups : List Group)
      (filed : List Row × List Group)
      → file_raw sha1 now raw (decode_pdu raw.pdu_hex) singles groups ≡ filed
      → rows_after (raw ∷ raws) singles groups ≡ rows_after raws filed.0 filed.1
  unfolding rows_after sort_out
  rows_after-filed raw raws singles groups filed e =
      ap (λ (f : List Row × List Group). rows_after raws f.0 f.1) e

  -- Two parts of one message, in either order, with what follows them.
  rows_after-swap :
      (back : List RawSms) (a b : RawSms) (sms other : DecodedSms) (place next : Concat)
      → IsPart a sms place
      → IsPart b other next
      → (sender : Text) (ref : ℕ) → (sms.sender ≡ sender) × (place.ref ≡ ref)
      → (other.sender ≡ sender) × (next.ref ≡ ref)
      → place.seq ≢ next.seq
      → (singles : List Row) (groups : List Group)
      → rows_after (a ∷ b ∷ back) singles groups ≡ rows_after (b ∷ a ∷ back) singles groups
  rows_after-swap back a b sms other place next ha hb sender ref ka kb different singles groups =
      filed a b sms other place next ha hb ka kb
      ∙ rows_after-SameGroups back singles
          (add_part-swap (sender, ref) (part a sms place) (part b other next) groups different)
      ∙ sym (filed b a other sms next place hb ha kb ka)
    where
      part : RawSms → DecodedSms → Concat → Part
      part raw d c = record { raw = raw; decoded = d; place = c }

      filed :
          (x y : RawSms) (d e : DecodedSms) (c f : Concat)
          → IsPart x d c
          → IsPart y e f
          → (d.sender ≡ sender) × (c.ref ≡ ref)
          → (e.sender ≡ sender) × (f.ref ≡ ref)
          → rows_after (x ∷ y ∷ back) singles groups
            ≡ rows_after back singles
                (add_part (sender, ref) (part y e f) (add_part (sender, ref) (part x d c) groups))
      filed x y d e c f hx hy kx ky =
          rows_after-filed x (y ∷ back) singles groups _ (file-part x d c singles groups hx)
          ∙ rows_after-filed y back singles _ _ (file-part y e f singles _ hy)
          ∙ rw (kx.0, kx.1, ky.0, ky.1) refl

  -- Let two neighbouring messages be parts of one message (the same sender and reference) with
  -- different sequence numbers, anywhere in the list. The rows are the same if they come the other
  -- way round, their texts, indices and identities included.
  pub reassemble_inbound-swap :
      (front back : List RawSms) (a b : RawSms) (sms other : DecodedSms) (place next : Concat)
      → (decode_pdu a.pdu_hex ≡ some sms) × (sms.concat ≡ some place)
      → (decode_pdu b.pdu_hex ≡ some other) × (other.concat ≡ some next)
      → (other.sender ≡ sms.sender) × (next.ref ≡ place.ref)
      → place.seq ≢ next.seq
      → reassemble_inbound sha1 now (front ++ (a ∷ b ∷ back))
        ≡ reassemble_inbound sha1 now (front ++ (b ∷ a ∷ back))
  unfolding reassemble_inbound rows_after IsPart
  reassemble_inbound-swap front back a b sms other place next ha hb key different =
      ap (λ r. sort_by newer r)
        (rows_after-append front (a ∷ b ∷ back) [] []
          ∙ rows_after-swap back a b sms other place next ha hb sms.sender place.ref (refl, refl)
              key different (sort_out sha1 now front [] []).0 (sort_out sha1 now front [] []).1
          ∙ sym (rows_after-append front (b ∷ a ∷ back) [] []))

  file-bad :
      (bad : RawSms) (singles : List Row) (groups : List Group)
      → decode_pdu bad.pdu_hex ≡ none
      → file_raw sha1 now bad (decode_pdu bad.pdu_hex) singles groups ≡ (singles, groups)
  unfolding file_raw
  file-bad bad singles groups h = rw h refl

  -- A message that cannot be decoded, anywhere in the list, leaves the rows as they are without it.
  pub reassemble_inbound_skips :
      (front back : List RawSms) (bad : RawSms)
      → decode_pdu bad.pdu_hex ≡ none
      → reassemble_inbound sha1 now (front ++ (bad ∷ back))
        ≡ reassemble_inbound sha1 now (front ++ back)
  unfolding reassemble_inbound rows_after
  reassemble_inbound_skips front back bad h =
      ap (λ r. sort_by newer r)
        (rows_after-append front (bad ∷ back) [] []
          ∙ rows_after-filed bad back (sort_out sha1 now front [] []).0
              (sort_out sha1 now front [] []).1 _
              (file-bad bad (sort_out sha1 now front [] []).0 (sort_out sha1 now front [] []).1 h)
          ∙ sym (rows_after-append front back [] []))

-- ===== src/Modem/Pdu/Sizes.antt =====
-- How many parts a message has, how large they are, and when it has too many.
use mathlib.Core.Path.{subst}
use sim_connectivity_monitor.Prelude.{
  ℕ, suc, ◌+◌, ◌*◌, ◌/◌, ◌<◌, ◌≤◌, ◌≡◌, refl, ap, ◌∙◌, sym, Bool, true, false, Bool-cases, inl, inr,
  Option, none, some, some_inj, List, [], ◌∷◌, ◌++◌, length, length-append, leb, leb→le, ltb, All,
  if◌then◌else◌, arith,
}
use sim_connectivity_monitor.Prelude.Failing.{◌>>=◌, some-of_bind}
use sim_connectivity_monitor.Modem.Pdu.Hex.{to_bytes, hex_upper}
use sim_connectivity_monitor.Modem.Pdu.HexLaws.{length-hex_upper}
use sim_connectivity_monitor.Modem.Pdu.Septets.{pack_gsm7, pack_gsm7_with_offset}
use sim_connectivity_monitor.Modem.Pdu.Unpacking.{length-pack}
use sim_connectivity_monitor.Modem.Pdu.UserData.{concat_udh}
use sim_connectivity_monitor.Modem.Pdu.Encode.{
  Pdu, assemble, chunks, gsm7_user_data, gsm7_part, gsm7_parts, encode_parts_gsm7,
}
use sim_connectivity_monitor.Modem.Pdu.Chunks.{chunks_lem, All-chunks}

to_bytes-same : (xs ys : List ℕ) → to_bytes xs ≡ some ys → xs ≡ ys
unfolding to_bytes
to_bytes-same [] ys h = ground (arith, h)
to_bytes-same (x ∷ xs) ys h = go (to_bytes xs) (to_bytes-same xs) h
  where
    go :
        (o : Option (List ℕ))
        → ((zs : List ℕ) → o ≡ some zs → xs ≡ zs)
        → (elim o [ none ↦ none | some rest ↦ if ltb x 256 then some (x ∷ rest) else none ])
          ≡ some ys
        → (x ∷ xs) ≡ ys
    go none f e = cc
    go (some rest) f e = ground (arith, f rest refl, e)

-- What AT+CMGS and the network ask of a part: at most 140 octets of user data behind an address,
-- and a length argument that counts the octets of the text after the SMSC field.
unfoldable pub Fits : List ℕ → Pdu → Type 0
Fits da part = (part.1 ≤ length da + 145) × (length part.0 ≡ 2 * suc part.1)

Fits-octets :
    (front da middle ud : List ℕ)
    → length front ≡ 2
    → length middle ≡ 3
    → length ud ≤ 140
    → (tpdu : List ℕ) → tpdu ≡ front ++ (da ++ (middle ++ ud))
    → Fits da (b'0' ∷ b'0' ∷ hex_upper tpdu, length tpdu)
unfolding Fits
Fits-octets front da middle ud hf hm hu tpdu e =
    (omega (arith, total, hf, hm, hu), omega (arith, length-hex_upper tpdu))
  where
    total : length tpdu ≡ length front + (length da + (length middle + length ud))
    total = rw e (
        omega (
          arith,
          length-append front (da ++ (middle ++ ud)),
          length-append da (middle ++ ud),
          length-append middle ud,
        ))

assemble-Fits :
    (da ud : List ℕ) (dcs udl : ℕ) (udhi : Bool) (part : Pdu)
    → length ud ≤ 140
    → assemble da dcs udl ud udhi ≡ some part
    → Fits da part
unfolding assemble
assemble-Fits da ud dcs udl udhi part h e =
    let (front, ef, rest) = some-of_bind (to_bytes (_ ∷ 0 ∷ [])) _ part e in
    let (middle, em, last) = some-of_bind (to_bytes (0 ∷ dcs ∷ udl ∷ [])) _ part rest in
    subst (Fits da) (some_inj last) (
      Fits-octets front da middle ud (sym (ap length (to_bytes-same _ front ef)))
        (sym (ap length (to_bytes-same _ middle em))) h _ refl)

concat_udh-octets_6 :
    (ref total seq : ℕ) (udh : List ℕ) → concat_udh ref total seq ≡ some udh → length udh ≡ 6
unfolding concat_udh
concat_udh-octets_6 ref total seq udh e = sym (ap length (to_bytes-same _ udh e))

gsm7_part-Fits :
    (da : List ℕ) (ref total seq : ℕ) (c : List ℕ) (part : Pdu)
    → All (λ s. s < 128) c
    → length c ≤ 153
    → gsm7_part da ref total seq c ≡ some part
    → Fits da part
unfolding gsm7_part gsm7_user_data
gsm7_part-Fits da ref total seq c part low size e =
    let (u, eu, built) = some-of_bind (gsm7_user_data ref total seq c) _ part e in
    let (udh, eh, whole) = some-of_bind (concat_udh ref total seq) _ u eu in
    assemble-Fits da u.0 0 u.1 true part (user_data_size udh u eh whole) built
  where
    user_data_size :
        (udh : List ℕ) (u : List ℕ × ℕ)
        → concat_udh ref total seq ≡ some udh
        → some (udh ++ pack_gsm7_with_offset c 1, (length udh * 8 + 1) / 7 + length c) ≡ some u
        → length u.0 ≤ 140
    user_data_size udh u eh whole =
        subst (λ (v : List ℕ × ℕ). length v.0 ≤ 140) (some_inj whole)
          (omega (
            arith,
            length-append udh (pack_gsm7_with_offset c 1),
            concat_udh-octets_6 ref total seq udh eh,
            length-pack c 1 low (omega arith),
          ))

gsm7_parts-Fits :
    (da : List ℕ) (ref total seq : ℕ) (cs : List (List ℕ)) (parts : List Pdu)
    → All (All (λ s. s < 128)) cs
    → All (λ c. (1 ≤ length c) × (length c ≤ 153)) cs
    → gsm7_parts da ref total seq cs ≡ some parts
    → All (Fits da) parts × (length parts ≡ length cs)
unfolding gsm7_parts
gsm7_parts-Fits da ref total seq [] parts a b e =
    subst (λ ps. All (Fits da) ps × (length ps ≡ 0)) (some_inj e) (tt, refl)
gsm7_parts-Fits da ref total seq (c ∷ cs) parts a b e =
    let (part, built, rest) = some-of_bind (gsm7_part da ref total seq c) _ parts e in
    let (others, all_built, last) =
      some-of_bind (gsm7_parts da ref total (suc seq) cs) _ parts rest in
    let (fit, count) = gsm7_parts-Fits da ref total (suc seq) cs others a.1 b.1 all_built in
    subst (λ ps. All (Fits da) ps × (length ps ≡ suc (length cs))) (some_inj last)
      ((gsm7_part-Fits da ref total seq c part a.0 (b.0).1 built, fit), omega (arith, count))

length-pack_gsm7 :
    (septets : List ℕ)
    → All (λ s. s < 128) septets
    → length (pack_gsm7 septets) ≡ (7 * length septets + 7) / 8
unfolding pack_gsm7 pack_gsm7_with_offset
length-pack_gsm7 septets low =
    length-pack septets 0 low (omega arith) ∙ ap (λ n. n / 8) (omega arith)

-- If the encoding of septets below 128 gives PDUs, then the octets of each after the SMSC
-- field are as many as its length says, at most 145 more than those of the address (so at most
-- 140 of user data), and there is one PDU for up to 160 septets, and otherwise one for every
-- 153 begun.
pub encode_parts_gsm7-Fits :
    (da septets : List ℕ) (ref : ℕ) (parts : List Pdu)
    → All (λ s. s < 128) septets
    → encode_parts_gsm7 da septets ref ≡ some parts
    → All (Fits da) parts
      × (length parts ≡ (if leb (length septets) 160 then 1 else (length septets + 152) / 153))
unfolding encode_parts_gsm7
encode_parts_gsm7-Fits da septets ref parts low e = elim (Bool-cases (leb (length septets) 160)) [
  | inl short ↦ rw short (single (rw short at e) (leb→le _ _ short))
  | inr long ↦ rw long (several (rw long at e))
]
  where
    single :
        (assemble da 0x00 (length septets) (pack_gsm7 septets) false >>= λ part. some (part ∷ []))
          ≡ some parts
        → length septets ≤ 160
        → All (Fits da) parts × (length parts ≡ 1)
    single f short =
        let (part, built, last) =
          some-of_bind (assemble da 0x00 (length septets) (pack_gsm7 septets) false) _ parts f in
        subst (λ ps. All (Fits da) ps × (length ps ≡ 1)) (some_inj last)
          (
            (
              assemble-Fits da (pack_gsm7 septets) 0 (length septets) false part
                  (omega (arith, length-pack_gsm7 septets low)) built,
              tt,
            ),
            refl,
          )

    several :
        gsm7_parts da ref (length (chunks 153 septets)) 1 (chunks 153 septets) ≡ some parts
        → All (Fits da) parts × (length parts ≡ (length septets + 152) / 153)
    several f =
        let (_, sizes, enough, just) = chunks_lem 153 (omega arith) septets in
        let (fit, count) =
          gsm7_parts-Fits da ref (length (chunks 153 septets)) 1 (chunks 153 septets) parts
            (All-chunks 153 (omega arith) (λ s. s < 128) septets low) sizes f in
        (fit, omega (arith, count, enough, just))

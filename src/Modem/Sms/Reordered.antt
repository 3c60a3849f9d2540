-- ===== src/Modem/Sms/Reordered.antt =====
-- src/sim_monitor/modem/sms.py: the order in which the modem lists its messages does not matter.
use mathlib.Core.Path.{subst}
use mathlib.Core.Path.{ap₂}
use mathlib.Core.Logic.{∥∥₁_elim, ∥∥₁_prop}
use mathlib.Core.List.{Perm, Permᴰ}
use mathlib.Core.List.Perm
use sim_connectivity_monitor.Prelude.{
  front-Perm, ends-Perm, All-Permᴰ, sort_by-Perm, All, ℕ, Option, none, some, List, [], ◌∷◌, Text,
  sort_by,
}
use sim_connectivity_monitor.Modem.Pdu.UserData.{Concat}
use sim_connectivity_monitor.Modem.Pdu.Decode.{DecodedSms, decode_pdu}
use sim_connectivity_monitor.Modem.Sms.{
  RawSms, Row, Group, seq_lt, newer, sorted_rows, group_rows, rows_of_groups, file_sms, file_raw,
  sort_out, reassemble_inbound,
}
use sim_connectivity_monitor.Modem.Sms.Alike.{
  Alike, Alike-refl, alike_nil, alike_cons, alike_swap, alike_trans, add_part-Alike, Apart,
  two_parts, SameParts-whole,
}
use sim_connectivity_monitor.Modem.Sms.Groups.{SameParts}

-- The message that a raw message is a part of, by sender and reference, and its place in it.
unfoldable place_in : DecodedSms → Option Concat → Option ((Text × ℕ) × ℕ)
place_in sms none = none
place_in sms (some place) = some ((sms.sender, place.ref), place.seq)

unfoldable pub place_of : Option DecodedSms → Option ((Text × ℕ) × ℕ)
unfolding place_in
place_of none = none
place_of (some sms) = place_in sms sms.concat

-- No two raw messages are parts of one message with one place.
abbrev pub AreApart : List RawSms → Type 0
AreApart [] = Unit
AreApart (a ∷ raws) =
    All (λ (b : RawSms). Apart (place_of (decode_pdu a.pdu_hex)) (place_of (decode_pdu b.pdu_hex)))
      raws
    × AreApart raws

AreApart-Permᴰ : {raws others : List RawSms} → Permᴰ raws others → AreApart raws → AreApart others
AreApart-Permᴰ Permᴰ.nil h = h
AreApart-Permᴰ (Permᴰ.cons {l₁ = l₁} {l₂ = l₂} e d) h =
    subst (λ r. AreApart (r ∷ l₂)) e (All-Permᴰ _ d h.0, AreApart-Permᴰ d h.1)
AreApart-Permᴰ (Permᴰ.swap {a = a} {b = b} {l = l} e f) ((p, q), (r, t)) =
    subst (λ (r : RawSms × RawSms). AreApart (r.0 ∷ r.1 ∷ l)) (ap₂ (λ x y. (x, y)) f e)
      (((λ place e f. p place f e), r), (q, t))
AreApart-Permᴰ (Permᴰ.trans d₁ d₂) h = AreApart-Permᴰ d₂ (AreApart-Permᴰ d₁ h)

-- Rows and groups in any order.
abbrev Same : List Row × List Group → List Row × List Group → Type 0
Same s t = Perm s.0 t.0 × Alike s.1 t.1

Same-refl : (s : List Row × List Group) → Same s s
Same-refl (rows, gs) = (Perm.refl rows, Alike-refl gs)

Same-trans : (r s t : List Row × List Group) → Same r s → Same s t → Same r t
Same-trans r s t (p, a) (q, b) = (Perm.trans p q, alike_trans a b)

module _ (sha1 : Text → Text) (now : ℕ) where
  rows_of-Alike :
      {gs hs : List Group}
      → Alike gs hs
      → Perm (rows_of_groups sha1 now gs) (rows_of_groups sha1 now hs)
  unfolding rows_of_groups group_rows SameParts
  rows_of-Alike alike_nil = Perm.refl []
  rows_of-Alike (alike_cons {ps = ps} {qs = qs} same rest) =
      rw (SameParts-whole ps qs same) (Perm.append_left _ (rows_of-Alike rest))
  rows_of-Alike (alike_swap {ps = ps} {qs = qs} {gs = gs} n) =
      front-Perm (sorted_rows sha1 now (sort_by seq_lt ps))
        (sorted_rows sha1 now (sort_by seq_lt qs)) (rows_of_groups sha1 now gs)
  rows_of-Alike (alike_trans p q) = Perm.trans (rows_of-Alike p) (rows_of-Alike q)

  file_sms-Same :
      (raw : RawSms) (sms : DecodedSms) (concat : Option Concat) (s t : List Row × List Group)
      → Same s t
      → Same (file_sms sha1 now raw sms concat s.0 s.1) (file_sms sha1 now raw sms concat t.0 t.1)
  unfolding file_sms
  file_sms-Same raw sms none s t h = (Perm.append_right _ h.0, h.1)
  file_sms-Same raw sms (some place) s t h = (h.0, add_part-Alike _ _ h.1)

  file_raw-Same :
      (raw : RawSms) (o : Option DecodedSms) (s t : List Row × List Group)
      → Same s t
      → Same (file_raw sha1 now raw o s.0 s.1) (file_raw sha1 now raw o t.0 t.1)
  unfolding file_raw
  file_raw-Same raw none s t h = h
  file_raw-Same raw (some sms) s t h = file_sms-Same raw sms sms.concat s t h

  file_sms-swap :
      (a b : RawSms) (sms other : DecodedSms) (c f : Option Concat) (s : List Row × List Group)
      → Apart (place_in sms c) (place_in other f)
      → let n = file_sms sha1 now a sms c s.0 s.1 in
        let m = file_sms sha1 now b other f s.0 s.1 in
        Same (file_sms sha1 now b other f n.0 n.1) (file_sms sha1 now a sms c m.0 m.1)
  unfolding file_sms place_in
  file_sms-swap a b sms other none none s h = (ends-Perm s.0 _ _, Alike-refl s.1)
  file_sms-swap a b sms other none (some f) s h = Same-refl _
  file_sms-swap a b sms other (some c) none s h = Same-refl _
  file_sms-swap a b sms other (some c) (some f) s h = (Perm.refl s.0, two_parts _ _ _ _ s.1 h)

  file_raw-swap :
      (a b : RawSms) (o p : Option DecodedSms) (s : List Row × List Group)
      → Apart (place_of o) (place_of p)
      → let n = file_raw sha1 now a o s.0 s.1 in
        let m = file_raw sha1 now b p s.0 s.1 in
        Same (file_raw sha1 now b p n.0 n.1) (file_raw sha1 now a o m.0 m.1)
  unfolding file_raw place_of
  file_raw-swap a b none none s h = Same-refl _
  file_raw-swap a b none (some other) s h = Same-refl _
  file_raw-swap a b (some sms) none s h = Same-refl _
  file_raw-swap a b (some sms) (some other) s h =
      file_sms-swap a b sms other sms.concat other.concat s h

  sort_out-Same :
      (raws : List RawSms) (s t : List Row × List Group)
      → Same s t
      → Same (sort_out sha1 now raws s.0 s.1) (sort_out sha1 now raws t.0 t.1)
  unfolding sort_out
  sort_out-Same [] s t h = h
  sort_out-Same (raw ∷ raws) s t h =
      sort_out-Same raws _ _ (file_raw-Same raw (decode_pdu raw.pdu_hex) s t h)

  sort_out-swap :
      (a b : RawSms) (raws : List RawSms) (s : List Row × List Group)
      → Apart (place_of (decode_pdu a.pdu_hex)) (place_of (decode_pdu b.pdu_hex))
      → Same (sort_out sha1 now (a ∷ b ∷ raws) s.0 s.1) (sort_out sha1 now (b ∷ a ∷ raws) s.0 s.1)
  unfolding sort_out
  sort_out-swap a b raws s h =
      sort_out-Same raws _ _ (file_raw-swap a b (decode_pdu a.pdu_hex) (decode_pdu b.pdu_hex) s h)

  sort_out-cons :
      (a : RawSms) (raws others : List RawSms)
      → ((s : List Row × List Group)
          → Same (sort_out sha1 now raws s.0 s.1) (sort_out sha1 now others s.0 s.1))
      → (s : List Row × List Group)
      → Same (sort_out sha1 now (a ∷ raws) s.0 s.1) (sort_out sha1 now (a ∷ others) s.0 s.1)
  unfolding sort_out
  sort_out-cons a raws others h s = h (file_raw sha1 now a (decode_pdu a.pdu_hex) s.0 s.1)

  sort_out-Permᴰ :
      {raws others : List RawSms}
      → Permᴰ raws others
      → AreApart raws
      → (s : List Row × List Group)
      → Same (sort_out sha1 now raws s.0 s.1) (sort_out sha1 now others s.0 s.1)
  sort_out-Permᴰ Permᴰ.nil h s = Same-refl _
  sort_out-Permᴰ (Permᴰ.cons {a = a} {l₁ = l₁} {l₂ = l₂} e d) (h, t) s =
      subst (λ r. Same (sort_out sha1 now (a ∷ l₁) s.0 s.1) (sort_out sha1 now (r ∷ l₂) s.0 s.1)) e
        (sort_out-cons a l₁ l₂ (sort_out-Permᴰ d t) s)
  sort_out-Permᴰ (Permᴰ.swap {a = a} {b = b} {l = l} e f) (h, t) s =
      subst
        (λ (r : RawSms × RawSms).
          Same (sort_out sha1 now (a ∷ b ∷ l) s.0 s.1) (sort_out sha1 now (r.0 ∷ r.1 ∷ l) s.0 s.1))
        (ap₂ (λ x y. (x, y)) f e) (sort_out-swap a b l s h.0)
  sort_out-Permᴰ (Permᴰ.trans d₁ d₂) h s =
      Same-trans _ _ _ (sort_out-Permᴰ d₁ h s) (sort_out-Permᴰ d₂ (AreApart-Permᴰ d₁ h) s)

  -- Let the modem list its messages in another order, no two of them being parts of one message
  -- with the same sequence number. The inbox then has the same rows, each as often: whatever stands
  -- between the parts of a message, they are put together to the same text, indices and identity.
  pub reassemble_inbound-Perm :
      (raws others : List RawSms)
      → Perm raws others
      → AreApart raws
      → Perm (reassemble_inbound sha1 now raws) (reassemble_inbound sha1 now others)
  unfolding reassemble_inbound
  reassemble_inbound-Perm raws others p h = ∥∥₁_elim p ∥∥₁_prop (λ d.
      let same = sort_out-Permᴰ d h ([], []) in
      Perm.trans (sort_by-Perm newer _) (
        Perm.trans
          (Perm.trans (Perm.append_right _ same.0) (Perm.append_left _ (rows_of-Alike same.1)))
          (Perm.symm (sort_by-Perm newer _))))

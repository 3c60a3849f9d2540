-- ===== src/Modem/Sms/Rows.antt =====
-- Every message that can be decoded is in one row of the inbox, and one that cannot changes nothing.
use sim_connectivity_monitor.Prelude.{
  ℕ, suc, ◌+◌, ◌≡◌, refl, ap, ◌∙◌, Bool, Bool-cases, inl, inr, Option, none, some, is_some, List,
  [], ◌∷◌, ◌++◌, map, Text, if◌then◌else◌, insert_by, sort_by, arith,
}
use sim_connectivity_monitor.Modem.Pdu.UserData.{Concat}
use sim_connectivity_monitor.Modem.Pdu.Decode.{DecodedSms, decode_pdu}
use sim_connectivity_monitor.Modem.Sms.{
  RawSms, Row, Part, Group, same_key, add_part, seq_lt, newer, row_of, sorted_rows, group_rows,
  rows_of_groups, file_sms, file_raw, sort_out, reassemble_inbound,
}

module _ (p : ℕ → Bool) where
  -- How many of the indices `p` counts.
  unfoldable pub tally : List ℕ → ℕ
  tally [] = 0
  tally (i ∷ is) = if p i then suc (tally is) else tally is

  tally-append : (is js : List ℕ) → tally (is ++ js) ≡ tally is + tally js
  unfolding tally
  tally-append [] js = omega arith
  tally-append (i ∷ is) js = ground (arith, tally-append is js)

  -- How many indices of the rows `p` counts.
  unfoldable pub rows_tally : List Row → ℕ
  unfolding tally
  rows_tally [] = 0
  rows_tally (r ∷ rows) = tally r.modem_indices + rows_tally rows

  -- How many indices of the messages that can be decoded `p` counts.
  unfoldable pub readable_tally : List RawSms → ℕ
  unfolding tally
  readable_tally [] = 0
  readable_tally (raw ∷ raws) =
      (if is_some (decode_pdu raw.pdu_hex) then tally (raw.index ∷ []) else 0) + readable_tally raws

  part_indices : List Part → List ℕ
  part_indices parts = map (λ (q : Part). q.raw.index) parts

  rows_tally_nil : rows_tally [] ≡ 0
  unfolding rows_tally
  rows_tally_nil = refl

  rows_tally-append : (rs ss : List Row) → rows_tally (rs ++ ss) ≡ rows_tally rs + rows_tally ss
  unfolding rows_tally
  rows_tally-append [] ss = omega arith
  rows_tally-append (r ∷ rs) ss = omega (arith, rows_tally-append rs ss)

  rows_tally-insert_by :
      (r : Row) (rs : List Row) → rows_tally (insert_by newer r rs) ≡ rows_tally (r ∷ rs)
  unfolding insert_by rows_tally
  rows_tally-insert_by r [] = refl
  rows_tally-insert_by r (s ∷ rs) = ground (arith, rows_tally-insert_by r rs)

  rows_tally-sort_by : (rs : List Row) → rows_tally (sort_by newer rs) ≡ rows_tally rs
  unfolding sort_by rows_tally
  rows_tally-sort_by [] = refl
  rows_tally-sort_by (r ∷ rs) =
      rows_tally-insert_by r (sort_by newer rs)
      ∙ ap (λ n. tally r.modem_indices + n) (rows_tally-sort_by rs)

  parts_tally : List Part → ℕ
  unfolding part_indices tally
  parts_tally parts = tally (part_indices parts)

  parts_tally-insert_by :
      (q : Part) (qs : List Part) → parts_tally (insert_by seq_lt q qs) ≡ parts_tally (q ∷ qs)
  unfolding insert_by parts_tally
  parts_tally-insert_by q [] = refl
  parts_tally-insert_by q (r ∷ qs) = ground (arith, parts_tally-insert_by q qs)

  parts_tally-sort_by : (qs : List Part) → parts_tally (sort_by seq_lt qs) ≡ parts_tally qs
  unfolding sort_by parts_tally
  parts_tally-sort_by [] = refl
  parts_tally-sort_by (q ∷ qs) =
      parts_tally-insert_by q (sort_by seq_lt qs) ∙ ground (arith, parts_tally-sort_by qs)

  groups_tally : List Group → ℕ
  groups_tally [] = 0
  groups_tally (g ∷ groups) = parts_tally g.1 + groups_tally groups

  groups_tally_nil : groups_tally [] ≡ 0
  unfolding groups_tally
  groups_tally_nil = refl

  parts_tally-append :
      (qs : List Part) (q : Part)
      → parts_tally (qs ++ (q ∷ [])) ≡ parts_tally qs + parts_tally (q ∷ [])
  unfolding parts_tally
  parts_tally-append [] q = omega arith
  parts_tally-append (r ∷ qs) q = ground (arith, parts_tally-append qs q)

  groups_tally-add_part :
      (key : Text × ℕ) (q : Part) (groups : List Group)
      → groups_tally (add_part key q groups) ≡ groups_tally groups + parts_tally (q ∷ [])
  unfolding add_part groups_tally
  groups_tally-add_part key q [] = omega arith
  groups_tally-add_part key q (g ∷ groups) = elim (Bool-cases (same_key key g.0)) [
    | inl e ↦ rw e (omega (arith, parts_tally-append g.1 q))
    | inr e ↦ rw e (omega (arith, groups_tally-add_part key q groups))
  ]

  module _ (sha1 : Text → Text) (now : ℕ) where
    sorted_rows-tally : (qs : List Part) → rows_tally (sorted_rows sha1 now qs) ≡ parts_tally qs
    unfolding sorted_rows row_of rows_tally parts_tally part_indices
    sorted_rows-tally [] = refl
    sorted_rows-tally (q ∷ qs) = omega arith

    group_rows-tally : (qs : List Part) → rows_tally (group_rows sha1 now qs) ≡ parts_tally qs
    unfolding group_rows
    group_rows-tally qs = sorted_rows-tally (sort_by seq_lt qs) ∙ parts_tally-sort_by qs

    rows_of_groups-tally :
        (groups : List Group) → rows_tally (rows_of_groups sha1 now groups) ≡ groups_tally groups
    unfolding rows_of_groups groups_tally
    rows_of_groups-tally [] = rows_tally_nil
    rows_of_groups-tally (g ∷ groups) = omega (
      arith,
      rows_tally-append (group_rows sha1 now g.1) (rows_of_groups sha1 now groups),
      group_rows-tally g.1,
      rows_of_groups-tally groups,
    )

    -- What one round has put into rows and groups.
    Filed : ℕ → List Row → List Group → List Row × List Group → Type 0
    Filed n singles groups next =
        rows_tally next.0 + groups_tally next.1 ≡ n + rows_tally singles + groups_tally groups

    file_sms-Filed :
        (raw : RawSms) (sms : DecodedSms) (concat : Option Concat) (singles : List Row)
        (groups : List Group)
        → Filed
            (tally (raw.index ∷ []))
            singles
            groups
            (file_sms sha1 now raw sms concat singles groups)
    unfolding Filed file_sms row_of rows_tally parts_tally part_indices
    file_sms-Filed raw sms none singles groups = omega (
      arith,
      rows_tally-append singles (
          row_of sha1 now (raw.index ∷ []) raw.status sms sms.text 1 (raw.pdu_hex ∷ []) sms.udh_ieis
          ∷ []),
    )
    file_sms-Filed raw sms (some place) singles groups = omega (
      arith,
      groups_tally-add_part (sms.sender, place.ref)
          (record { raw = raw; decoded = sms; place = place }) groups,
    )

    file_raw-Filed :
        (raw : RawSms) (sms : Option DecodedSms) (singles : List Row) (groups : List Group)
        → Filed
            (if is_some sms then tally (raw.index ∷ []) else 0)
            singles
            groups
            (file_raw sha1 now raw sms singles groups)
    unfolding file_raw Filed
    file_raw-Filed raw none singles groups = omega arith
    file_raw-Filed raw (some sms) singles groups = file_sms-Filed raw sms sms.concat singles groups

    -- What the loop has put into rows and groups.
    sort_out-tally :
        (raws : List RawSms) (singles : List Row) (groups : List Group)
        → (rows_tally (sort_out sha1 now raws singles groups).0
            + groups_tally (sort_out sha1 now raws singles groups).1)
          ≡ readable_tally raws + rows_tally singles + groups_tally groups
    unfolding sort_out readable_tally Filed
    sort_out-tally [] singles groups = omega arith
    sort_out-tally (raw ∷ raws) singles groups =
        let next = file_raw sha1 now raw (decode_pdu raw.pdu_hex) singles groups in
        omega (
          arith,
          file_raw-Filed raw (decode_pdu raw.pdu_hex) singles groups,
          sort_out-tally raws next.0 next.1,
        )

    -- For every choice of indices, as many of them are in the rows as there are messages that can
    -- be decoded with such an index: every such message is in one row, once, and nothing else is.
    pub reassemble_inbound-tally :
        (raws : List RawSms) → rows_tally (reassemble_inbound sha1 now raws) ≡ readable_tally raws
    unfolding reassemble_inbound
    reassemble_inbound-tally raws =
        let singles = (sort_out sha1 now raws [] []).0 in
        let groups = (sort_out sha1 now raws [] []).1 in
        omega (
          arith,
          rows_tally-sort_by (singles ++ rows_of_groups sha1 now groups),
          rows_tally-append singles (rows_of_groups sha1 now groups),
          rows_of_groups-tally groups,
          sort_out-tally raws [] [],
          rows_tally_nil,
          groups_tally_nil,
        )

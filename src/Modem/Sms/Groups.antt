-- ===== src/Modem/Sms/Groups.antt =====
-- Parts of one message in either order: the groups that the reassembly makes of them.
use sim_connectivity_monitor.Prelude.{
  ℕ, ◌≡◌, ◌≢◌, refl, ap, ◌∙◌, sym, true, Bool-cases, inl, inr, List, [], ◌∷◌, ◌++◌, append_assoc,
  text_eq_refl, Text, insert_by, sort_by, arith,
}
use sim_connectivity_monitor.Modem.Sms.{Part, Group, same_key, add_part, seq_lt}

-- Two parts with different places are put in by any order.
insert_by_comm :
    (a b : Part) (qs : List Part)
    → a.place.seq ≢ b.place.seq
    → insert_by seq_lt a (insert_by seq_lt b qs) ≡ insert_by seq_lt b (insert_by seq_lt a qs)
unfolding insert_by
insert_by_comm a b [] h = ground (arith, h)
insert_by_comm a b (q ∷ qs) h = ground (arith, h, insert_by_comm a b qs h)

-- Lists of parts that are sorted to the same, whatever comes in later.
unfoldable pub SameParts : List Part → List Part → Type 0
SameParts ps qs = (later : List Part) → sort_by seq_lt (ps ++ later) ≡ sort_by seq_lt (qs ++ later)

SameParts-swap :
    (ps : List Part) (a b : Part)
    → a.place.seq ≢ b.place.seq
    → (later : List Part)
    → sort_by seq_lt (ps ++ (a ∷ b ∷ later)) ≡ sort_by seq_lt (ps ++ (b ∷ a ∷ later))
unfolding sort_by
SameParts-swap [] a b h later = insert_by_comm a b (sort_by seq_lt later) h
SameParts-swap (p ∷ ps) a b h later = ap (λ r. insert_by seq_lt p r) (SameParts-swap ps a b h later)

-- Groups with the same keys, in the same order, whose parts are sorted to the same.
pub data SameGroups : List Group → List Group → Type 0 where
  same_nil : SameGroups [] []
  same_cons :
      {key : Text × ℕ} {ps qs : List Part} {gs hs : List Group}
      → SameParts ps qs
      → SameGroups gs hs
      → SameGroups ((key, ps) ∷ gs) ((key, qs) ∷ hs)

pub SameGroups-refl : (gs : List Group) → SameGroups gs gs
unfolding SameParts
SameGroups-refl [] = same_nil
SameGroups-refl ((key, ps) ∷ gs) = same_cons (λ later. refl) (SameGroups-refl gs)

pub SameParts-append :
    (ps qs : List Part) (a : Part) → SameParts ps qs → SameParts (ps ++ (a ∷ [])) (qs ++ (a ∷ []))
unfolding SameParts
SameParts-append ps qs a same later =
    ap (λ r. sort_by seq_lt r) (append_assoc ps (a ∷ []) later)
    ∙ same (a ∷ later)
    ∙ sym (ap (λ r. sort_by seq_lt r) (append_assoc qs (a ∷ []) later))

pub add_part-SameGroups :
    (key : Text × ℕ) (a : Part) {gs hs : List Group}
    → SameGroups gs hs
    → SameGroups (add_part key a gs) (add_part key a hs)
unfolding add_part
add_part-SameGroups key a same_nil = SameGroups-refl ((key, a ∷ []) ∷ [])
add_part-SameGroups key a (same_cons {key = other} {ps = ps} {qs = qs} same rest) =
    elim (Bool-cases (same_key key other)) [
      | inl e ↦ rw e (same_cons (SameParts-append ps qs a same) rest)
      | inr e ↦ rw e (same_cons same (add_part-SameGroups key a rest))
    ]

same_key_refl : (key : Text × ℕ) → same_key key key ≡ true
unfolding same_key
same_key_refl (sender, ref) = ground (arith, text_eq_refl sender)

-- Two parts of one message, in either order.
pub add_part-swap :
    (key : Text × ℕ) (a b : Part) (gs : List Group)
    → a.place.seq ≢ b.place.seq
    → SameGroups (add_part key b (add_part key a gs)) (add_part key a (add_part key b gs))
unfolding add_part SameParts
add_part-swap key a b [] h = rw (same_key_refl key) (same_cons (SameParts-swap [] a b h) same_nil)
add_part-swap key a b ((other, ps) ∷ gs) h = elim (Bool-cases (same_key key other)) [
  | inl e ↦ rw (e, e) (same_cons (swapped ps) (SameGroups-refl gs))
  | inr e ↦ rw (e, e) (same_cons (λ later. refl) (add_part-swap key a b gs h))
]
  where
    twice :
        (qs : List Part) (c d : Part) (later : List Part)
        → ((qs ++ (c ∷ [])) ++ (d ∷ [])) ++ later ≡ qs ++ (c ∷ d ∷ later)
    twice qs c d later =
        append_assoc (qs ++ (c ∷ [])) (d ∷ []) later ∙ append_assoc qs (c ∷ []) (d ∷ later)

    swapped :
        (qs : List Part) → SameParts ((qs ++ (a ∷ [])) ++ (b ∷ [])) ((qs ++ (b ∷ [])) ++ (a ∷ []))
    swapped qs later =
        ap (λ r. sort_by seq_lt r) (twice qs a b later)
        ∙ SameParts-swap qs a b h later
        ∙ sym (ap (λ r. sort_by seq_lt r) (twice qs b a later))

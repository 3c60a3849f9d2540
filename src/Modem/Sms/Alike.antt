-- ===== src/Modem/Sms/Alike.antt =====
-- src/sim_monitor/modem/sms.py: parts of several messages in any order, and the groups that they make.
use mathlib.Core.Path.{subst}
use mathlib.Core.Bool.{false≢true}
use sim_connectivity_monitor.Prelude.{
  ℕ, ◌≡◌, ◌≢◌, refl, ap, ◌∙◌, sym, true, false, Bool-cases, inl, inr, Option, some, List, [], ◌∷◌,
  append-nil, Text, text_eq→≡, text_eq_refl, sort_by, arith,
}
use sim_connectivity_monitor.Modem.Sms.{Part, Group, same_key, add_part, seq_lt}
use sim_connectivity_monitor.Modem.Sms.Groups.{
  SameParts, SameGroups, same_nil, same_cons, add_part-swap, SameParts-append,
}

-- Groups with the same keys, in any order, whose parts are sorted to the same.
pub data Alike : List Group → List Group → Type 0 where
  alike_nil : Alike [] []
  alike_cons :
      {key : Text × ℕ} {ps qs : List Part} {gs hs : List Group}
      → SameParts ps qs
      → Alike gs hs
      → Alike ((key, ps) ∷ gs) ((key, qs) ∷ hs)
  alike_swap :
      {key other : Text × ℕ} {ps qs : List Part} {gs : List Group}
      → key ≢ other
      → Alike ((key, ps) ∷ (other, qs) ∷ gs) ((other, qs) ∷ (key, ps) ∷ gs)
  alike_trans : {fs gs hs : List Group} → Alike fs gs → Alike gs hs → Alike fs hs

pub Alike-refl : (gs : List Group) → Alike gs gs
unfolding SameParts
Alike-refl [] = alike_nil
Alike-refl ((key, ps) ∷ gs) = alike_cons (λ later. refl) (Alike-refl gs)

Alike-of_SameGroups : {gs hs : List Group} → SameGroups gs hs → Alike gs hs
Alike-of_SameGroups same_nil = alike_nil
Alike-of_SameGroups (same_cons same rest) = alike_cons same (Alike-of_SameGroups rest)

same_key→≡ : (key other : Text × ℕ) → same_key key other ≡ true → key ≡ other
unfolding same_key
same_key→≡ (sender, ref) (name, number) h =
    let s : sender ≡ name = text_eq→≡ sender name (ground (arith, h)) in
    let n : ref ≡ number = ground (arith, h) in rw (s, n) refl

pub add_part-Alike :
    (key : Text × ℕ) (a : Part) {gs hs : List Group}
    → Alike gs hs
    → Alike (add_part key a gs) (add_part key a hs)
unfolding add_part
add_part-Alike key a alike_nil = Alike-refl ((key, a ∷ []) ∷ [])
add_part-Alike key a (alike_cons {key = other} {ps = ps} {qs = qs} same rest) =
    elim (Bool-cases (same_key key other)) [
      | inl e ↦ rw e (alike_cons (SameParts-append ps qs a same) rest)
      | inr e ↦ rw e (alike_cons same (add_part-Alike key a rest))
    ]
add_part-Alike key a (alike_swap {key = k} {other = j} n) = elim (Bool-cases (same_key key k)) [
  | inl e ↦ elim (Bool-cases (same_key key j)) [
    | inl f ↦ absurd (n (sym (same_key→≡ key k e) ∙ same_key→≡ key j f))
    | inr f ↦ rw (e, f) (alike_swap n)
  ]
  | inr e ↦ elim (Bool-cases (same_key key j)) [
    | inl f ↦ rw (e, f) (alike_swap n)
    | inr f ↦ rw (e, f) (alike_swap n)
  ]
]
add_part-Alike key a (alike_trans p q) =
    alike_trans (add_part-Alike key a p) (add_part-Alike key a q)

same_key_refl : (key : Text × ℕ) → same_key key key ≡ true
unfolding same_key
same_key_refl (sender, ref) = ground (arith, text_eq_refl sender)

same_key-differ : (key other : Text × ℕ) → key ≢ other → same_key key other ≡ false
same_key-differ key other n = elim (Bool-cases (same_key key other)) [
  | inl e ↦ absurd (n (same_key→≡ key other e))
  | inr e ↦ e
]

-- Parts of two messages.
add_part-apart :
    (key other : Text × ℕ) (a b : Part) (gs : List Group)
    → key ≢ other
    → Alike (add_part other b (add_part key a gs)) (add_part key a (add_part other b gs))
unfolding add_part SameParts
add_part-apart key other a b [] n =
    rw (same_key-differ key other n, same_key-differ other key (λ e. n (sym e))) (alike_swap n)
add_part-apart key other a b ((name, ps) ∷ gs) n = elim (Bool-cases (same_key key name)) [
  | inl e ↦ elim (Bool-cases (same_key other name)) [
    | inl f ↦ absurd (n (same_key→≡ key name e ∙ sym (same_key→≡ other name f)))
    | inr f ↦ rw (e, f, e) (Alike-refl _)
  ]
  | inr e ↦ elim (Bool-cases (same_key other name)) [
    | inl f ↦ rw (e, f, e) (Alike-refl _)
    | inr f ↦ rw (e, f, e) (alike_cons (λ later. refl) (add_part-apart key other a b gs n))
  ]
]

-- Not two parts with one place in one message.
abbrev pub Apart : Option ((Text × ℕ) × ℕ) → Option ((Text × ℕ) × ℕ) → Type 0
Apart p q = (place : (Text × ℕ) × ℕ) → p ≡ some place → q ≢ some place

pub two_parts :
    (key other : Text × ℕ) (a b : Part) (gs : List Group)
    → Apart (some (key, a.place.seq)) (some (other, b.place.seq))
    → Alike (add_part other b (add_part key a gs)) (add_part key a (add_part other b gs))
two_parts key other a b gs h = elim (Bool-cases (same_key key other)) [
  | inl e ↦
      let k : key ≡ other = same_key→≡ key other e in
      subst (λ o. Alike (add_part o b (add_part key a gs)) (add_part key a (add_part o b gs))) k
        (Alike-of_SameGroups
          (add_part-swap key a b gs (λ s. h (key, a.place.seq) refl (cc (k, s)))))
  | inr e ↦
      add_part-apart key other a b gs
        (λ k. false≢true (sym e ∙ ap (λ o. same_key key o) (sym k) ∙ same_key_refl key))
]

pub SameParts-whole : (ps qs : List Part) → SameParts ps qs → sort_by seq_lt ps ≡ sort_by seq_lt qs
unfolding SameParts
SameParts-whole ps qs same =
    sym (ap (λ r. sort_by seq_lt r) (append-nil ps))
    ∙ same []
    ∙ ap (λ r. sort_by seq_lt r) (append-nil qs)

-- ===== src/Modem/Pdu/Spelling.antt =====
-- A text that has septets is the text of its septets.

use mathlib.Core.Path.{subst}
use sim_connectivity_monitor.Prelude.{
  some_inj, Bool-cases, ==_iff, inl, inr, ℕ, zero, suc, ◌+◌, ◌<◌, ◌≤◌, ◌≡◌, ◌∙◌, refl, ap, false,
  Option, none, some, List, [], ◌∷◌, ◌++◌, Text, length, get_elem?, All, All-append, ◌==◌, arith,
}
use sim_connectivity_monitor.Modem.Pdu.Alphabet.{
  gsm7_basic, gsm7_ext, basic_rev, ext_rev, own_septets, joined, char_septets, text_to_septets,
  basic_char, ext_char, septets_to_text,
}

basic_rev-bound :
    (i : ℕ) (table : Text) (ch k : ℕ)
    → basic_rev i table ch ≡ some k
    → (i ≤ k) × (k < i + length table) × ((k == 27) ≡ false)
unfolding basic_rev
basic_rev-bound i [] ch k h = cc
basic_rev-bound i (c ∷ table) ch k h = ground (arith, basic_rev-bound (suc i) table ch k)

-- What `basic_rev` answers is the index of the character.
basic_rev-get :
    (i : ℕ) (table : Text) (ch k j : ℕ)
    → basic_rev i table ch ≡ some k
    → k ≡ i + j
    → get_elem? table j ≡ some ch
unfolding basic_rev
basic_rev-get i [] ch k j h e = cc
basic_rev-get i (c ∷ table) ch k zero h e = ground (arith, basic_rev-bound (suc i) table ch k)
basic_rev-get i (c ∷ table) ch k (suc j) h e = ground (arith, basic_rev-get (suc i) table ch k j)

-- What `ext_rev` answers is a code of the character in the table.
ext_rev-All :
    (P : ℕ → ℕ → Type 0) (table : List (ℕ × ℕ)) (ch k : ℕ)
    → All (λ (entry : ℕ × ℕ). P entry.0 entry.1) table
    → ext_rev table ch ≡ some k
    → P k ch
unfolding ext_rev
ext_rev-All P [] ch k a h = cc
ext_rev-All P ((j, c) ∷ table) ch k a h = elim (Bool-cases (c == ch)) [
  | inl e ↦
      let f : some j ≡ some k = rw e at h in
      subst (λ x. P k x) ((==_iff c ch).0 e) (subst (λ x. P x c) (some_inj f) a.0)
  | inr e ↦ ext_rev-All P table ch k a.1 (rw e at h)
]

-- The codes of the extension table: below 128, and each read back as its character.
IsExtCode : ℕ → ℕ → Type 0
IsExtCode k ch = (k < 128) × (ext_char k ≡ ch)

ext_codes : All (λ (entry : ℕ × ℕ). IsExtCode entry.0 entry.1) gsm7_ext
unfolding IsExtCode ext_char
ext_codes = ground arith

-- The septets of one character: below 128, and read back as the character whatever follows.
IsCodeOf : ℕ → List ℕ → Type 0
IsCodeOf ch own =
    All (λ s. s < 128) own
    × ((rest : List ℕ) → septets_to_text (own ++ rest) ≡ ch ∷ septets_to_text rest)

basic-IsCodeOf : (ch k : ℕ) → basic_rev 0 gsm7_basic ch ≡ some k → IsCodeOf ch (k ∷ [])
unfolding IsCodeOf septets_to_text basic_char
basic-IsCodeOf ch k h =
    let (_, low, other) = basic_rev-bound 0 gsm7_basic ch k h in
    ((low, tt), λ rest. go rest other (basic_rev-get 0 gsm7_basic ch k k h (omega arith)))
  where
    go :
        (rest : List ℕ)
        → (k == 27) ≡ false
        → get_elem? gsm7_basic k ≡ some ch
        → septets_to_text (k ∷ rest) ≡ ch ∷ septets_to_text rest
    go [] other e = rw e refl
    go (next ∷ rest) other e = ground (arith, other, e)

ext-IsCodeOf : (ch k : ℕ) → ext_rev gsm7_ext ch ≡ some k → IsCodeOf ch (0x1b ∷ k ∷ [])
unfolding IsCodeOf IsExtCode septets_to_text
ext-IsCodeOf ch k h =
    let (low, e) = ext_rev-All IsExtCode gsm7_ext ch k ext_codes h in
    ((omega arith, (low, tt)), λ rest. ap (λ c. c ∷ septets_to_text rest) e)

char_septets-IsCodeOf : (ch : ℕ) (own : List ℕ) → char_septets ch ≡ some own → IsCodeOf ch own
unfolding char_septets
char_septets-IsCodeOf ch own h =
    go (basic_rev 0 gsm7_basic ch) (ext_rev gsm7_ext ch) (basic-IsCodeOf ch) (ext-IsCodeOf ch) h
  where
    go :
        (basic ext : Option ℕ)
        → ((k : ℕ) → basic ≡ some k → IsCodeOf ch (k ∷ []))
        → ((k : ℕ) → ext ≡ some k → IsCodeOf ch (0x1b ∷ k ∷ []))
        → own_septets basic ext ≡ some own
        → IsCodeOf ch own
    go (some i) ext f g e = subst (λ o. IsCodeOf ch o) (some_inj e) (f i refl)
    go none (some k) f g e = subst (λ o. IsCodeOf ch o) (some_inj e) (g k refl)
    go none none f g e = cc

IsSpelling : Text → List ℕ → Type 0
IsSpelling text septets = All (λ s. s < 128) septets × (septets_to_text septets ≡ text)

joined-IsSpelling :
    (ch : ℕ) (text : Text) (own rest : Option (List ℕ)) (septets : List ℕ)
    → ((o : List ℕ) → own ≡ some o → IsCodeOf ch o)
    → ((r : List ℕ) → rest ≡ some r → IsSpelling text r)
    → joined own rest ≡ some septets
    → IsSpelling (ch ∷ text) septets
unfolding IsCodeOf IsSpelling
joined-IsSpelling ch text none rest septets f g h = cc
joined-IsSpelling ch text (some own) none septets f g h = cc
joined-IsSpelling ch text (some own) (some rest) septets f g h =
    let (low, code) = f own refl in
    let (low_rest, spelling) = g rest refl in
    subst (λ r. IsSpelling (ch ∷ text) r) (some_inj h)
      (All-append (λ s. s < 128) own rest low low_rest, code rest ∙ ap (λ r. ch ∷ r) spelling)

-- The septets of a text are below 128 and stand for the text.
pub septets_to_text-text_to_septets :
    (text : Text) (septets : List ℕ)
    → text_to_septets text ≡ some septets
    → All (λ s. s < 128) septets × (septets_to_text septets ≡ text)
unfolding text_to_septets septets_to_text IsSpelling
septets_to_text-text_to_septets [] septets h = subst (λ r. IsSpelling [] r) (some_inj h) (tt, refl)
septets_to_text-text_to_septets (ch ∷ text) septets h =
    joined-IsSpelling ch text (char_septets ch) (text_to_septets text) septets
      (char_septets-IsCodeOf ch) (septets_to_text-text_to_septets text) h

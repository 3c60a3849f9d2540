-- ===== src/Traffic/Ledger/Tracked.antt =====
-- The dictionary `_active` as a one-to-one table of row ids.
use sim_connectivity_monitor.Prelude.{
  ℕ, ◌≡◌, refl, ap, Bool, true, false, not, ◌&&◌, ◌||◌, none, some, List, [], ◌∷◌, any, ◌==◌,
  dict_get, dict_set, dict_remove, get-set, Bool-cases, inl, inr, arith,
}

-- Whether a key has this row id.
abbrev pub is_tracked : ℕ → List (ℕ × ℕ) → Bool
is_tracked i m = any (λ (e : ℕ × ℕ). e.1 == i) m

-- No key is there twice, and no two keys have one row id.
abbrev pub IsOneToOne : List (ℕ × ℕ) → Type 0
IsOneToOne [] = Unit
IsOneToOne ((k, v) ∷ m) = (dict_get k m ≡ none) × (is_tracked v m ≡ false) × IsOneToOne m

pub is_tracked-get : (k v : ℕ) (m : List (ℕ × ℕ)) → dict_get k m ≡ some v → is_tracked v m ≡ true
unfolding dict_get
is_tracked-get k v [] h = cc
is_tracked-get k v ((j, w) ∷ m) h = ground (arith, is_tracked-get k v m)

pub remove-absent : (k : ℕ) (m : List (ℕ × ℕ)) → dict_get k m ≡ none → dict_remove k m ≡ m
unfolding dict_get dict_remove
remove-absent k [] h = refl
remove-absent k ((j, w) ∷ m) h = ground (arith, remove-absent k m)

get-remove_absent :
    (j k : ℕ) (m : List (ℕ × ℕ)) → dict_get j m ≡ none → dict_get j (dict_remove k m) ≡ none
unfolding dict_get dict_remove
get-remove_absent j k [] h = refl
get-remove_absent j k ((i, w) ∷ m) h = ground (arith, get-remove_absent j k m)

is_tracked-remove_absent :
    (i k : ℕ) (m : List (ℕ × ℕ)) → is_tracked i m ≡ false → is_tracked i (dict_remove k m) ≡ false
unfolding dict_remove
is_tracked-remove_absent i k [] h = refl
is_tracked-remove_absent i k ((j, w) ∷ m) h = ground (arith, is_tracked-remove_absent i k m)

pub remove-IsOneToOne : (k : ℕ) (m : List (ℕ × ℕ)) → IsOneToOne m → IsOneToOne (dict_remove k m)
unfolding dict_remove
remove-IsOneToOne k [] h = tt
remove-IsOneToOne k ((j, w) ∷ m) h = elim (Bool-cases (j == k)) [
  | inl e ↦ rw e h.2
  | inr e ↦
      rw e
        (get-remove_absent j k m h.0, is_tracked-remove_absent w k m h.1, remove-IsOneToOne k m h.2)
]

last-tracked :
    (i w v : ℕ) (m : List (ℕ × ℕ))
    → is_tracked w m ≡ false
    → some w ≡ some v
    → is_tracked i m ≡ ((w == i || is_tracked i m) && not (v == i))
last-tracked i w v m h g = elim (Bool-cases (w == i)) [
  | inl e ↦
      let same : w ≡ i = ground arith in
      let absent : is_tracked i m ≡ false = rw same at h in ground (arith, absent)
  | inr e ↦ ground (arith, g)
]

other-tracked :
    (i w v : ℕ) (m : List (ℕ × ℕ))
    → is_tracked w m ≡ false
    → is_tracked v m ≡ true
    → w == i ≡ true
    → v == i ≡ false
other-tracked i w v m h k e = elim (Bool-cases (v == i)) [
  | inr q ↦ q
  | inl q ↦ let same : w ≡ v = ground arith in cc (ap (λ x. is_tracked x m) same, h, k)
]

-- A popped key takes its row id with it, and nothing else.
pub is_tracked-remove :
    (i k v : ℕ) (m : List (ℕ × ℕ))
    → IsOneToOne m
    → dict_get k m ≡ some v
    → is_tracked i (dict_remove k m) ≡ (is_tracked i m && not (v == i))
unfolding dict_get dict_remove
is_tracked-remove i k v [] h g = cc
is_tracked-remove i k v ((j, w) ∷ m) h g = elim (Bool-cases (j == k)) [
  | inl e ↦ rw e (last-tracked i w v m h.1 (rw e at g))
  | inr e ↦ ground (
    arith,
    is_tracked-remove i k v m h.2,
    is_tracked-get k v m,
    g,
    h.1,
    e,
    other-tracked i w v m h.1,
  )
]

-- A new key adds its row id.
pub is_tracked-set :
    (i k v : ℕ) (m : List (ℕ × ℕ))
    → dict_get k m ≡ none
    → is_tracked i (dict_set k v m) ≡ (is_tracked i m || v == i)
unfolding dict_get dict_set
is_tracked-set i k v [] g = ground arith
is_tracked-set i k v ((j, w) ∷ m) g = ground (arith, is_tracked-set i k v m)

pub set-IsOneToOne :
    (k v : ℕ) (m : List (ℕ × ℕ))
    → IsOneToOne m
    → dict_get k m ≡ none
    → is_tracked v m ≡ false
    → IsOneToOne (dict_set k v m)
unfolding dict_get dict_set
set-IsOneToOne k v [] h g t = (refl, refl, tt)
set-IsOneToOne k v ((j, w) ∷ m) h g t = elim (Bool-cases (j == k)) [
  | inl e ↦ cc (rw e at g)
  | inr e ↦ rw e (
    ground (arith, get-set k j v m, h.0, e),
    ground (arith, is_tracked-set w k v m, h.1, t, g, e),
    set-IsOneToOne k v m h.2 (rw e at g) (ground (arith, t)),
  )
]

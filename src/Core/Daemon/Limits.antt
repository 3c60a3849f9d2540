-- ===== src/Core/Daemon/Limits.antt =====
-- src/sim_monitor/core/daemon.py: what `_auto_reply_allowed` remembers, and what it lets through.
use sim_connectivity_monitor.Prelude.{
  ℕ, suc, ◌+◌, ◌≤◌, ◌<◌, ◌≡◌, ◌⊎◌, inl, inr, refl, Bool, true, false, List, [], ◌∷◌, ◌++◌, Text,
  text_eq, text_eq_refl, keep, length, length-append, leb, le→leb, if◌then◌else◌, arith, All,
}
use sim_connectivity_monitor.Core.Daemon.Sms.{times_of, set_times, allow_reply}

-- At most five times are kept of each number.
unfoldable pub IsBounded : List (Text × List ℕ) → Type 0
IsBounded m = All (λ (e : Text × List ℕ). length e.1 ≤ 5) m

-- The times that count at a time: those of the last hour.
unfoldable pub recent_times : ℕ → Text → List (Text × List ℕ) → List ℕ
recent_times now peer m = keep (λ t. leb now (t + 3600)) (times_of peer m)

if-All :
    (b : Bool) (x y : List (Text × List ℕ))
    → IsBounded x
    → IsBounded y
    → IsBounded (if b then x else y)
if-All true x y h k = h
if-All false x y h k = k

set_times-All :
    (peer : Text) (ts : List ℕ) (m : List (Text × List ℕ))
    → length ts ≤ 5
    → IsBounded m
    → IsBounded (set_times peer ts m)
unfolding set_times IsBounded
set_times-All peer ts [] h k = (h, tt)
set_times-All peer ts ((p, us) ∷ m) h k =
    if-All (text_eq p peer) ((p, ts) ∷ m) ((p, us) ∷ set_times peer ts m) (h, k.1)
      (k.0, set_times-All peer ts m h k.1)

if-times :
    (b : Bool) (peer : Text) (p : Text) (ts us : List ℕ) (m n : List (Text × List ℕ))
    → text_eq p peer ≡ b
    → times_of peer n ≡ ts
    → times_of peer (if b then (p, ts) ∷ m else (p, us) ∷ n) ≡ ts
unfolding times_of
if-times true peer p ts us m n h k = rw h
if-times false peer p ts us m n h k = rw (h, k)

times_of-set_times :
    (peer : Text) (ts : List ℕ) (m : List (Text × List ℕ))
    → times_of peer (set_times peer ts m) ≡ ts
unfolding set_times times_of
times_of-set_times peer ts [] = rw (text_eq_refl peer)
times_of-set_times peer ts ((p, us) ∷ m) =
    if-times (text_eq p peer) peer p ts us m (set_times peer ts m) refl
      (times_of-set_times peer ts m)

-- The code at a test that has been computed.
abbrev decide : Bool → ℕ → Text → List (Text × List ℕ) → List ℕ → Bool × List (Text × List ℕ)
decide b now peer m recent =
    if b then (false, set_times peer recent m) else (true, set_times peer (recent ++ now ∷ []) m)

decide-times :
    (b : Bool) (now : ℕ) (peer : Text) (m : List (Text × List ℕ)) (recent : List ℕ)
    → times_of peer (decide b now peer m recent).1 ≡ (if b then recent else recent ++ now ∷ [])
decide-times true now peer m recent = times_of-set_times peer recent m
decide-times false now peer m recent = times_of-set_times peer (recent ++ now ∷ []) m

leb-cases : (a b : ℕ) → (leb a b ≡ true × a ≤ b) ⊎ (leb a b ≡ false × b < a)
leb-cases a b = ground arith

lt→not-leb : (a b : ℕ) → b < a → leb a b ≡ false
lt→not-leb a b h = ground arith

-- With fewer than five replies to the number in the last hour a reply is let through and its time is
-- remembered; with five or more it is held back; and times older than an hour are forgotten.
pub allow_reply_remembers :
    (now : ℕ) (peer : Text) (m : List (Text × List ℕ))
    → (length (recent_times now peer m) < 5
        → ((allow_reply now peer m).0 ≡ true)
          × (times_of peer (allow_reply now peer m).1 ≡ recent_times now peer m ++ now ∷ []))
      × (5 ≤ length (recent_times now peer m)
          → ((allow_reply now peer m).0 ≡ false)
            × (times_of peer (allow_reply now peer m).1 ≡ recent_times now peer m))
unfolding allow_reply recent_times
allow_reply_remembers now peer m =
    let recent = recent_times now peer m in
    (
      λ h. (
        rw (lt→not-leb 5 (length recent) h),
        rw (lt→not-leb 5 (length recent) h, times_of-set_times),
      ),
      λ h. (rw (le→leb 5 (length recent) h), rw (le→leb 5 (length recent) h, times_of-set_times)),
    )

if-length :
    (b : Bool) (ts us : List ℕ) → length ts ≤ 5 → length us ≤ 5 → length (if b then ts else us) ≤ 5
if-length true ts us h k = h
if-length false ts us h k = k

if-keep :
    (b : Bool) (t : ℕ) (xs ts : List ℕ)
    → length xs ≤ length ts
    → length (if b then t ∷ xs else xs) ≤ suc (length ts)
if-keep true t xs ts h = omega (arith, h)
if-keep false t xs ts h = omega (arith, h)

length-keep : (f : ℕ → Bool) (ts : List ℕ) → length (keep f ts) ≤ length ts
length-keep f [] = omega arith
length-keep f (t ∷ ts) = if-keep (f t) t (keep f ts) ts (length-keep f ts)

length-times_of :
    (peer : Text) (m : List (Text × List ℕ)) → IsBounded m → length (times_of peer m) ≤ 5
unfolding times_of IsBounded
length-times_of peer [] h = omega arith
length-times_of peer ((p, ts) ∷ m) h =
    if-length (text_eq p peer) ts (times_of peer m) h.0 (length-times_of peer m h.1)

-- If at most five replies are remembered of every number, then so they are after a call, of the
-- number that it is about and of all the others.
pub allow_reply-IsBounded :
    (now : ℕ) (peer : Text) (m : List (Text × List ℕ))
    → IsBounded m
    → IsBounded (allow_reply now peer m).1
unfolding allow_reply
allow_reply-IsBounded now peer m h =
    let recent = keep (λ t. leb now (t + 3600)) (times_of peer m) in
    let short = length-keep (λ t. leb now (t + 3600)) (times_of peer m) in
    let bound = length-times_of peer m h in
    elim (leb-cases 5 (length recent)) [
      | inl (e, k) ↦ rw e (set_times-All peer recent m (omega (arith, short, bound)) h)
      | inr (e, k) ↦ rw e (
          set_times-All peer (recent ++ now ∷ []) m
            (omega (arith, k, length-append recent (now ∷ []))) h)
    ]

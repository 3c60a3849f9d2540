-- ===== src/Core/Status/Lines.antt =====
-- src/sim_monitor/core/state_store.py: the status message of a heartbeat is one short line.
use mathlib.Core.Path.{subst}
use sim_connectivity_monitor.Prelude.{
  ℕ, ◌+◌, ◌-◌, ◌≤◌, ◌≡◌, ◌≢◌, refl, sym, false, true, Option, none, some, [], ◌∷◌, ◌++◌, Text,
  codes, length, take, drop, strip, All, All-append, All-of_append, take-append-drop, length-append,
  length-take, ltb, Bool-cases, any, leb, leb→le, inl, inr, arith,
}
use sim_connectivity_monitor.Core.States.{State}
use sim_connectivity_monitor.Core.Snapshot.{Snapshot}
use sim_connectivity_monitor.Core.Status.{
  is_line_break, head_line, short, state_message, degraded_status, status_of, derive_status,
}

-- One line of at most `n` characters.
abbrev pub IsLine : ℕ → Text → Type 0
IsLine n text = All (λ c. is_line_break c ≡ false) text × (length text ≤ n)

head_line-All : (s : Text) → All (λ c. is_line_break c ≡ false) (head_line s)
unfolding head_line
head_line-All [] = tt
head_line-All (c ∷ s) = elim (Bool-cases (is_line_break c)) [
  | inl h ↦ rw h tt
  | inr h ↦ rw h (h, head_line-All s)
]

any-IsLine : (n : ℕ) (s : Text) → any is_line_break s ≡ false → leb (length s) n ≡ true → IsLine n s
any-IsLine n s a l = (all s a, leb→le (length s) n l)
  where
    all : (t : Text) → any is_line_break t ≡ false → All (λ c. is_line_break c ≡ false) t
    all [] e = tt
    all (c ∷ t) e = elim (Bool-cases (is_line_break c)) [
      | inl h ↦ absurd (cc (rw h at e))
      | inr h ↦ (h, all t (rw h at e))
    ]

append-IsLine : (m n : ℕ) (s t : Text) → IsLine m s → IsLine n t → IsLine (m + n) (s ++ t)
append-IsLine m n s t a b = (
  All-append (λ c. is_line_break c ≡ false) s t a.0 b.0,
  omega (arith, length-append s t, a.1, b.1),
)

take-IsLine : (n : ℕ) (s : Text) → All (λ c. is_line_break c ≡ false) s → IsLine n (take n s)
take-IsLine n s a = (
  (All-of_append (λ c. is_line_break c ≡ false) (take n s) (drop n s)
      (subst (All (λ c. is_line_break c ≡ false)) (sym (take-append-drop n s)) a)).0,
  omega (arith, length-take n s),
)

cut-IsLine :
    (limit : ℕ) (line : Text)
    → 3 ≤ limit
    → All (λ c. is_line_break c ≡ false) line
    → IsLine limit (take (limit - 3) line ++ codes "...")
cut-IsLine limit line h a = (cut.0, omega (arith, h, cut.1))
  where
    cut : IsLine (limit - 3 + 3) (take (limit - 3) line ++ codes "...")
    cut =
        append-IsLine (limit - 3) 3 (take (limit - 3) line) (codes "...")
          (take-IsLine (limit - 3) line a) (any-IsLine 3 (codes "...") refl refl)

short-IsLine : (s : Text) (limit : ℕ) → 3 ≤ limit → IsLine limit (short s limit)
unfolding short
short-IsLine s limit h = elim (Bool-cases (ltb limit (length (head_line (strip s))))) [
  | inl e ↦ rw e (cut-IsLine limit (head_line (strip s)) h (head_line-All (strip s)))
  | inr e ↦ rw e (head_line-All (strip s), ground (arith, e))
]

message-IsLine : (state : State) → IsLine 28 (state_message state)
message-IsLine State.no_modem = any-IsLine 28 (state_message State.no_modem) refl refl
message-IsLine State.modem_found = any-IsLine 28 (state_message State.modem_found) refl refl
message-IsLine State.sim_ready = any-IsLine 28 (state_message State.sim_ready) refl refl
message-IsLine State.configuring = any-IsLine 28 (state_message State.configuring) refl refl
message-IsLine State.connecting = any-IsLine 28 (state_message State.connecting) refl refl
message-IsLine State.connected = any-IsLine 28 (state_message State.connected) refl refl
message-IsLine State.degraded = any-IsLine 28 (state_message State.degraded) refl refl
message-IsLine State.fallback_test = any-IsLine 28 (state_message State.fallback_test) refl refl

widen : (n : ℕ) (s : Text) → n ≤ 150 → IsLine n s → IsLine 150 s
widen n s h a = (a.0, omega (arith, h, a.1))

explained-IsLine :
    (state : State) (e : Text) → IsLine 150 (state_message state ++ codes ": " ++ short e 120)
explained-IsLine state e =
    append-IsLine 30 120 (state_message state ++ codes ": ") (short e 120)
      (append-IsLine 28 2 (state_message state) (codes ": ") (message-IsLine state)
        (any-IsLine 2 (codes ": ") refl refl))
      (short-IsLine e 120 (omega arith))

degraded_status-IsLine :
    (state : State) (last_error : Option Text) → IsLine 150 (degraded_status state last_error).1
unfolding degraded_status
degraded_status-IsLine state none =
    widen 28 (state_message state) (omega arith) (message-IsLine state)
degraded_status-IsLine state (some []) =
    widen 28 (state_message state) (omega arith) (message-IsLine state)
degraded_status-IsLine state (some (c ∷ s)) = explained-IsLine state (c ∷ s)

status_of-IsLine :
    (state : State) (operator last_error : Option Text)
    → state ≢ State.connected
    → IsLine 150 (status_of state operator last_error).1
unfolding status_of
status_of-IsLine State.connected o e h = absurd (h refl)
status_of-IsLine State.fallback_test o e h =
    any-IsLine 150 (codes "fallback test in progress (radio off)") refl refl
status_of-IsLine State.no_modem o e h = degraded_status-IsLine State.no_modem e
status_of-IsLine State.modem_found o e h = degraded_status-IsLine State.modem_found e
status_of-IsLine State.sim_ready o e h = degraded_status-IsLine State.sim_ready e
status_of-IsLine State.configuring o e h = degraded_status-IsLine State.configuring e
status_of-IsLine State.connecting o e h = degraded_status-IsLine State.connecting e
status_of-IsLine State.degraded o e h = degraded_status-IsLine State.degraded e

-- If the state of the snapshot is not CONNECTED, then the status message has no line break and is
-- at most 150 characters long, whatever the text of the last error.
pub derive_status-IsLine :
    (snapshot : Snapshot) → snapshot.state ≢ State.connected → IsLine 150 (derive_status snapshot).1
unfolding derive_status
derive_status-IsLine snapshot h =
    status_of-IsLine snapshot.state snapshot.operator snapshot.last_error h

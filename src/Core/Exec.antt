-- ===== src/Core/Exec.antt =====
-- Python code that changes an object and may raise. What was written before a raise stays written,
-- so the object comes back beside the error too.
use sim_connectivity_monitor.Prelude.{Bool, true, false, Option, none, some, List, [], ◌∷◌, Text}
pub mod Keeps
pub mod Leads

-- How a call ends: with a value, with one of the two errors that the daemon handles, or with any
-- other exception.
pub data Outcome {ℓ} (A : Type ℓ) : Type ℓ where
  ok : A → Outcome A
  modem_error : Text → Outcome A
  backend_error : Text → Outcome A
  crash : Outcome A

abbrev pub Exec : Type 0 → Type 0 → Type 0
Exec S A = S → Outcome A × S

-- The value of a `try` block, or the text of the error that its `except` caught.
pub data Tried (A : Type 0) : Type 0 where
  got : A → Tried A
  caught : Text → Tried A

-- `except ModemError`.
abbrev pub catch_modem : {A : Type 0} → Outcome A → Outcome (Tried A)
catch_modem (ok a) = ok (got a)
catch_modem (modem_error e) = ok (caught e)
catch_modem (backend_error e) = backend_error e
catch_modem crash = crash

-- `except BackendError`.
abbrev pub catch_backend : {A : Type 0} → Outcome A → Outcome (Tried A)
catch_backend (ok a) = ok (got a)
catch_backend (modem_error e) = modem_error e
catch_backend (backend_error e) = ok (caught e)
catch_backend crash = crash

-- `except (ModemError, BackendError)`.
abbrev pub catch_either : {A : Type 0} → Outcome A → Outcome (Tried A)
catch_either (ok a) = ok (got a)
catch_either (modem_error e) = ok (caught e)
catch_either (backend_error e) = ok (caught e)
catch_either crash = crash

-- `except Exception`.
abbrev pub catch_all : {A : Type 0} → Outcome A → Outcome (Tried A)
catch_all (ok a) = ok (got a)
catch_all (modem_error e) = ok (caught e)
catch_all (backend_error e) = ok (caught e)
catch_all crash = ok (caught [])

module _ {S : Type 0} where
  unfoldable pub pure : {A : Type 0} → A → Exec S A
  pure a s = (ok a, s)

  unfoldable pub done : Exec S Unit
  done s = (ok tt, s)

  unfoldable pub gets : {A : Type 0} → (S → A) → Exec S A
  gets f s = (ok (f s), s)

  unfoldable pub modify : (S → S) → Exec S Unit
  modify f s = (ok tt, f s)

  -- A failed `assert`, a missing key or a `None` where an object is needed.
  unfoldable pub demand : {A : Type 0} → Option A → Exec S A
  demand none s = (crash, s)
  demand (some a) s = (ok a, s)

  unfoldable pub when : Bool → Exec S Unit → Exec S Unit
  when true m = m
  when false m = done

  unfoldable pub attempt_modem : {A : Type 0} → Exec S A → Exec S (Tried A)
  attempt_modem m s = let (r, s') = m s in (catch_modem r, s')

  unfoldable pub attempt_backend : {A : Type 0} → Exec S A → Exec S (Tried A)
  attempt_backend m s = let (r, s') = m s in (catch_backend r, s')

  unfoldable pub attempt_either : {A : Type 0} → Exec S A → Exec S (Tried A)
  attempt_either m s = let (r, s') = m s in (catch_either r, s')

  unfoldable pub attempt_all : {A : Type 0} → Exec S A → Exec S (Tried A)
  attempt_all m s = let (r, s') = m s in (catch_all r, s')

module _ {S A B : Type 0} where
  -- What follows a `try` block, and its `except` clause.
  unfoldable pub on_tried : Tried A → (A → Exec S B) → (Text → Exec S B) → Exec S B
  on_tried (got a) g h = g a
  on_tried (caught e) g h = h e

  unfoldable pub on_option : Option A → Exec S B → (A → Exec S B) → Exec S B
  on_option none n g = n
  on_option (some a) n g = g a

module _ {S A B : Type 0} where
  -- What follows a call runs only if the call returned.
  abbrev pub resume : Outcome A → (A → Exec S B) → Exec S B
  resume crash next between = (crash, between)
  resume (ok value) next between = next value between
  resume (modem_error text) next between = (modem_error text, between)
  resume (backend_error text) next between = (backend_error text, between)

  infixl 10 ◌>>=◌ ◌>>◌
  -- Opening this opens the other combinators too.
  unfoldable pub ◌>>=◌ : Exec S A → (A → Exec S B) → Exec S B
  unfolding pure done gets modify demand when attempt_modem attempt_backend attempt_either
      attempt_all on_tried on_option
  ◌>>=◌ code next before = let (end, between) = code before in resume end next between

  abbrev pub ◌>>◌ : Exec S A → Exec S B → Exec S B
  code >> after = code >>= (λ _. after)

module _ {S : Type 0} where
  -- `for x in xs: body(x)`.
  unfoldable pub for_each : {A : Type 0} → List A → (A → Exec S Unit) → Exec S Unit
  for_each [] body = done
  for_each (x ∷ xs) body = body x >> for_each xs body

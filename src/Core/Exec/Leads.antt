-- ===== src/Core/Exec/Leads.antt =====
-- Where a piece of code leads, by the way it ends: a condition on the state before, one on each
-- value and the state that come out, and one on the state that a raise leaves behind.
use sim_connectivity_monitor.Prelude.{Bool, true, false, Text, if◌then◌else◌}
use sim_connectivity_monitor.Core.Exec.{
  Outcome, ok, modem_error, backend_error, crash, Exec, Tried, got, caught, catch_either, catch_all,
  resume, ◌>>=◌, pure, done, gets, modify, when, attempt_either, attempt_all, on_tried,
}
use sim_connectivity_monitor.Core.Exec.Keeps.{Keeps}

-- `good` of the value and the state, or `bad` of the state after a raise.
unfoldable pub Result : {S A : Type 0} → (A → S → Type 0) → (S → Type 0) → Outcome A → S → Type 0
Result good bad (ok a) s = good a s
Result good bad (modem_error e) s = bad s
Result good bad (backend_error e) s = bad s
Result good bad crash s = bad s

pub record Leads {S A : Type 0} (P : S → Type 0) (good : A → S → Type 0) (bad : S → Type 0)
    (m : Exec S A) : Type 0 where
  pub at : (s : S) → P s → Result good bad (m s).0 (m s).1

module _ {S : Type 0} where
  pub Result-both :
      {A : Type 0} (Q : S → Type 0) (r : Outcome A) (s : S) → Result (λ _. Q) Q r s → Q s
  unfolding Result
  Result-both Q (ok a) s h = h
  Result-both Q (modem_error e) s h = h
  Result-both Q (backend_error e) s h = h
  Result-both Q crash s h = h

  Result-of :
      {A : Type 0} (P : S → Type 0) (good : A → S → Type 0) (bad : S → Type 0) (r : Outcome A)
      (s : S)
      → P s
      → ((a : A) → P s → good a s)
      → (P s → bad s)
      → Result good bad r s
  unfolding Result
  Result-of P good bad (ok a) s h k l = k a h
  Result-of P good bad (modem_error e) s h k l = l h
  Result-of P good bad (backend_error e) s h k l = l h
  Result-of P good bad crash s h k l = l h

  resume-Leads :
      {A B : Type 0} (mid : A → S → Type 0) (good : B → S → Type 0) (bad : S → Type 0)
      (r : Outcome A) (f : A → Exec S B) (s : S)
      → Result mid bad r s
      → ((a : A) → Leads (mid a) good bad (f a))
      → Result good bad (resume r f s).0 (resume r f s).1
  unfolding Result
  resume-Leads mid good bad (ok a) f s h k = (k a).at s h
  resume-Leads mid good bad (modem_error e) f s h k = h
  resume-Leads mid good bad (backend_error e) f s h k = h
  resume-Leads mid good bad crash f s h k = h

  caught-all :
      {A : Type 0} (P bad : S → Type 0) (r : Outcome A) (s : S)
      → P s
      → Result {A = Tried A} (λ _. P) bad (catch_all r) s
  unfolding Result
  caught-all P bad (ok a) s h = h
  caught-all P bad (modem_error e) s h = h
  caught-all P bad (backend_error e) s h = h
  caught-all P bad crash s h = h

module _ {S : Type 0} {P : S → Type 0} {bad : S → Type 0} where
  -- What keeps P leads to P, or to what P implies.
  pub Leads-Keeps :
      {A : Type 0} {good : A → S → Type 0} (m : Exec S A)
      → Keeps P m
      → ((a : A) (s : S) → P s → good a s)
      → ((s : S) → P s → bad s)
      → Leads P good bad m
  Leads-Keeps {good = good} m k g b = record {
    at = λ s h. Result-of P good bad (m s).0 (m s).1 (k.at s h) (λ a. g a (m s).1) (b (m s).1);
  }

  pub Leads-weaken :
      {A : Type 0} {Q : S → Type 0} {good : A → S → Type 0} {m : Exec S A}
      → ((s : S) → Q s → P s)
      → Leads P good bad m
      → Leads Q good bad m
  Leads-weaken w k = record { at = λ s h. k.at s (w s h) }

  pub Leads-pure :
      {A : Type 0} {good : A → S → Type 0} (a : A)
      → ((s : S) → P s → good a s)
      → Leads P good bad (pure a)
  unfolding pure Result
  Leads-pure a k = record { at = k }

  pub Leads-modify :
      {good : Unit → S → Type 0} (f : S → S)
      → ((s : S) → P s → good tt (f s))
      → Leads P good bad (modify f)
  unfolding modify Result
  Leads-modify f k = record { at = k }

  pub Leads-bind :
      {A B : Type 0} {mid : A → S → Type 0} {good : B → S → Type 0} (m : Exec S A)
      (f : A → Exec S B)
      → Leads P mid bad m
      → ((a : A) → Leads (mid a) good bad (f a))
      → Leads P good bad (m >>= f)
  unfolding ◌>>=◌
  Leads-bind {mid = mid} {good = good} m f k l = record {
    at = λ s h. resume-Leads mid good bad (m s).0 f (m s).1 (k.at s h) l;
  }

  pub Leads-gets :
      {A : Type 0} {good : A → S → Type 0} (f : S → A)
      → ((s : S) → P s → good (f s) s)
      → Leads P good bad (gets f)
  unfolding gets Result
  Leads-gets f k = record { at = k }

  pub Leads-done : {good : Unit → S → Type 0} → ((s : S) → P s → good tt s) → Leads P good bad done
  unfolding done Result
  Leads-done k = record { at = k }

  pub Leads-when :
      {good : Unit → S → Type 0} (b : Bool) (m : Exec S Unit)
      → Leads P good bad m
      → ((s : S) → P s → good tt s)
      → Leads P good bad (when b m)
  unfolding when
  Leads-when true m k l = k
  Leads-when false m k l = Leads-done l

  pub Leads-if :
      {A : Type 0} {good : A → S → Type 0} (b : Bool) (m n : Exec S A)
      → Leads P good bad m
      → Leads P good bad n
      → Leads P good bad (if b then m else n)
  Leads-if true m n k l = k
  Leads-if false m n k l = l

  pub Leads-tried :
      {A B : Type 0} {good : B → S → Type 0} (r : Tried A) (g : A → Exec S B) (h : Text → Exec S B)
      → ((a : A) → Leads P good bad (g a))
      → ((e : Text) → Leads P good bad (h e))
      → Leads P good bad (on_tried r g h)
  unfolding on_tried
  Leads-tried (got a) g h k l = k a
  Leads-tried (caught e) g h k l = l e

  -- `except Exception` lets nothing through.
  pub Leads-attempt_all :
      {A : Type 0} (m : Exec S A) → Keeps P m → Leads P (λ _. P) bad (attempt_all m)
  unfolding attempt_all
  Leads-attempt_all m k = record { at = λ s h. caught-all P bad (m s).0 (m s).1 (k.at s h) }

-- After a value, and after an error that was caught.
unfoldable pub ByTried : {S A : Type 0} → (A → S → Type 0) → (S → Type 0) → Tried A → S → Type 0
ByTried good bad (got a) s = good a s
ByTried good bad (caught e) s = bad s

module _ {S : Type 0} where
  caught-either :
      {A : Type 0} (good : A → S → Type 0) (bad worse : S → Type 0) (r : Outcome A) (s : S)
      → (bad s → worse s)
      → Result good bad r s
      → Result (ByTried good bad) worse (catch_either r) s
  unfolding Result ByTried
  caught-either good bad worse (ok a) s k h = h
  caught-either good bad worse (modem_error e) s k h = h
  caught-either good bad worse (backend_error e) s k h = h
  caught-either good bad worse crash s k h = k h

module _ {S : Type 0} {P bad worse : S → Type 0} where
  pub Leads-attempt_either :
      {A : Type 0} {good : A → S → Type 0} (m : Exec S A)
      → Leads P good bad m
      → ((s : S) → bad s → worse s)
      → Leads P (ByTried good bad) worse (attempt_either m)
  unfolding attempt_either
  Leads-attempt_either {good = good} m k l = record {
    at = λ s h. caught-either good bad worse (m s).0 (m s).1 (l (m s).1) (k.at s h);
  }

-- ===== src/Core/Exec/Keeps.antt =====
-- What a piece of code keeps true, however it ends: one rule for each way to build code.
use sim_connectivity_monitor.Prelude.{
  ◌≡◌, refl, Bool, true, false, Option, none, some, List, [], ◌∷◌, Text, if◌then◌else◌,
}
use sim_connectivity_monitor.Core.Exec.{
  Outcome, ok, modem_error, backend_error, crash, Exec, Tried, got, caught, resume, ◌>>=◌, pure,
  done, gets, modify, demand, when, for_each, attempt_modem, attempt_backend, attempt_either,
  attempt_all, on_tried, on_option,
}

pub record Keeps {S A : Type 0} (P : S → Type 0) (m : Exec S A) : Type 0 where
  pub at : (s : S) → P s → P (m s).1

module _ {S : Type 0} {P : S → Type 0} where
  pub Keeps-pure : {A : Type 0} (value : A) → Keeps P (pure value)
  unfolding pure
  Keeps-pure value = record { at = λ before kept. kept }

  pub Keeps-done : Keeps P done
  unfolding done
  Keeps-done = record { at = λ s h. h }

  pub Keeps-gets : {A : Type 0} (read : S → A) → Keeps P (gets read)
  unfolding gets
  Keeps-gets read = record { at = λ before kept. kept }

  pub Keeps-modify : (f : S → S) → ((s : S) → P s → P (f s)) → Keeps P (modify f)
  unfolding modify
  Keeps-modify f k = record { at = k }

  pub Keeps-demand : {A : Type 0} (o : Option A) → Keeps P (demand o)
  unfolding demand
  Keeps-demand none = record { at = λ s h. h }
  Keeps-demand (some a) = record { at = λ s h. h }

  resume-Keeps :
      {A B : Type 0} (end : Outcome A) (next : A → Exec S B) (between : S)
      → P between
      → ((value : A) → Keeps P (next value))
      → P (resume end next between).1
  resume-Keeps (ok value) next between kept rest = (rest value).at between kept
  resume-Keeps (modem_error text) next between kept rest = kept
  resume-Keeps (backend_error text) next between kept rest = kept
  resume-Keeps crash next between kept rest = kept

  pub Keeps-bind :
      {A B : Type 0} (code : Exec S A) (next : A → Exec S B)
      → Keeps P code
      → ((value : A) → Keeps P (next value))
      → Keeps P (code >>= next)
  unfolding ◌>>=◌
  Keeps-bind code next here rest = record {
    at =
        λ before kept. resume-Keeps (code before).0 next (code before).1 (here.at before kept) rest;
  }

  -- A part that is skipped.
  pub Keeps-skipped : (b : Bool) (m : Exec S Unit) → b ≡ false → Keeps P (when b m)
  unfolding when
  Keeps-skipped true m h = cc
  Keeps-skipped false m h = Keeps-done

  -- What P says of the value that is read.
  pub Keeps-known :
      {A B : Type 0} (f : S → A) (k : A → Exec S B) (Q : A → Type 0)
      → ((s : S) → P s → Q (f s))
      → ((a : A) → Q a → Keeps P (k a))
      → Keeps P (gets f >>= k)
  unfolding ◌>>=◌
  Keeps-known f k Q q l = record { at = λ s h. (l (f s) (q s h)).at s h }

  pub Keeps-when : (b : Bool) (m : Exec S Unit) → (b ≡ true → Keeps P m) → Keeps P (when b m)
  unfolding when
  Keeps-when true m k = k refl
  Keeps-when false m k = Keeps-done

  pub Keeps-if :
      {A : Type 0} (b : Bool) (m n : Exec S A)
      → Keeps P m
      → Keeps P n
      → Keeps P (if b then m else n)
  Keeps-if true m n k l = k
  Keeps-if false m n k l = l

  pub Keeps-tried :
      {A B : Type 0} (r : Tried A) (g : A → Exec S B) (h : Text → Exec S B)
      → ((a : A) → Keeps P (g a))
      → ((e : Text) → Keeps P (h e))
      → Keeps P (on_tried r g h)
  unfolding on_tried
  Keeps-tried (got a) g h k l = k a
  Keeps-tried (caught e) g h k l = l e

  pub Keeps-option :
      {A B : Type 0} (o : Option A) (n : Exec S B) (g : A → Exec S B)
      → Keeps P n
      → ((a : A) → Keeps P (g a))
      → Keeps P (on_option o n g)
  unfolding on_option
  Keeps-option none n g k l = k
  Keeps-option (some a) n g k l = l a

  pub Keeps-attempt_modem : {A : Type 0} (m : Exec S A) → Keeps P m → Keeps P (attempt_modem m)
  unfolding attempt_modem
  Keeps-attempt_modem m k = record { at = k.at }

  pub Keeps-attempt_backend : {A : Type 0} (m : Exec S A) → Keeps P m → Keeps P (attempt_backend m)
  unfolding attempt_backend
  Keeps-attempt_backend m k = record { at = k.at }

  pub Keeps-attempt_either : {A : Type 0} (m : Exec S A) → Keeps P m → Keeps P (attempt_either m)
  unfolding attempt_either
  Keeps-attempt_either m k = record { at = k.at }

  pub Keeps-attempt_all : {A : Type 0} (m : Exec S A) → Keeps P m → Keeps P (attempt_all m)
  unfolding attempt_all
  Keeps-attempt_all m k = record { at = k.at }

  pub Keeps-for_each :
      {A : Type 0} (xs : List A) (body : A → Exec S Unit)
      → ((x : A) → Keeps P (body x))
      → Keeps P (for_each xs body)
  unfolding for_each
  Keeps-for_each [] body k = Keeps-done
  Keeps-for_each (x ∷ xs) body k =
      Keeps-bind (body x) (λ _. for_each xs body) (k x) (λ _. Keeps-for_each xs body k)

pub ruleset keeps_rules = (
  Keeps-pure, Keeps-done, Keeps-gets, Keeps-demand, Keeps-bind, Keeps-when, Keeps-if, Keeps-tried,
  Keeps-option, Keeps-attempt_modem, Keeps-attempt_backend, Keeps-attempt_either, Keeps-attempt_all,
  Keeps-for_each,
)

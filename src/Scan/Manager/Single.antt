-- ===== src/Scan/Manager/Single.antt =====
-- At most one scan runs, in every interleaving of the web interface with the threads of the scans.
use mathlib.Core.Path.{subst}
use sim_connectivity_monitor.Prelude.{
  ℕ, suc, ◌≡◌, ◌⊎◌, ◌↔◌, inl, inr, refl, Bool, true, false, Option, none, some, some_inj, Text,
  arith,
}
use sim_connectivity_monitor.Scan.Manager.{
  Kind, ScanState, Manager, Effect, progressed, added, summarised, idle, stop, launch, apply_effect,
  set_error, set_finished,
}

module _ {Checks : Type 0} where
  -- One step of the web interface or of a thread.
  pub data Step : Manager Checks → Manager Checks → Type 0 where
    launched :
        {m n : Manager Checks} (kind : Kind) (target : Text) (interface : Option Text)
        (total now : ℕ)
        → launch kind target interface total now m ≡ some n
        → Step m n
    stopped : {m : Manager Checks} → Step m (stop m)
    worked :
        {s : ScanState Checks} {cancel : Bool} {others : ℕ} (effect : Effect Checks)
        → Step
            (record { state = s; cancel = cancel; threads = suc others })
            (record { state = apply_effect effect s; cancel = cancel; threads = suc others })
    failed :
        {s : ScanState Checks} {cancel : Bool} {others : ℕ} (error : Text)
        → Step
            (record { state = s; cancel = cancel; threads = suc others })
            (record { state = set_error (some error) s; cancel = cancel; threads = suc others })
    ended :
        {s : ScanState Checks} {cancel : Bool} {others : ℕ} (now : ℕ)
        → Step
            (record { state = s; cancel = cancel; threads = suc others })
            (record { state = set_finished now s; cancel = cancel; threads = others })

  pub data Steps : Manager Checks → Manager Checks → Type 0 where
    here : {m : Manager Checks} → Steps m m
    next : {m n o : Manager Checks} → Step m n → Steps n o → Steps m o

  -- The manager that `__init__` makes.
  abbrev pub initial : Manager Checks
  initial = record { state = idle; cancel = false; threads = 0 }

  -- One thread while a scan runs, and none otherwise.
  abbrev pub IsSingle : Manager Checks → Type 0
  IsSingle m =
      ((m.state.running ≡ true) × (m.threads ≡ 1)) ⊎ ((m.state.running ≡ false) × (m.threads ≡ 0))

  running-apply_effect :
      (e : Effect Checks) (s : ScanState Checks) → (apply_effect e s).running ≡ s.running
  unfolding apply_effect
  running-apply_effect (progressed n) s = refl
  running-apply_effect (added r) s = refl
  running-apply_effect (summarised y) s = refl

  launch-IsSingle :
      (kind : Kind) (target : Text) (interface : Option Text) (total now : ℕ) (m n : Manager Checks)
      → IsSingle m
      → launch kind target interface total now m ≡ some n
      → IsSingle n
  unfolding launch
  launch-IsSingle kind target interface total now m n (inl busy) h = cc (busy.0, h)
  launch-IsSingle kind target interface total now m n (inr free) h =
      subst IsSingle (some_inj (rw free.0 at h)) (inl (refl, omega (arith, free.1)))

  Step-IsSingle : {m n : Manager Checks} → Step m n → IsSingle m → IsSingle n
  unfolding stop set_error set_finished
  Step-IsSingle (launched kind target interface total now h) i =
      launch-IsSingle kind target interface total now _ _ i h
  Step-IsSingle stopped i = i
  Step-IsSingle (worked {s = s} effect) i = rw (running-apply_effect effect s) i
  Step-IsSingle (failed error) i = i
  Step-IsSingle (ended now) (inl busy) = inr (refl, omega (arith, busy.1))
  Step-IsSingle (ended now) (inr free) = absurd (omega (arith, free.1))

  run-IsSingle : {m n : Manager Checks} → Steps m n → IsSingle m → IsSingle n
  run-IsSingle here i = i
  run-IsSingle (next first rest) i = run-IsSingle rest (Step-IsSingle first i)

  launch_refused :
      (m : Manager Checks) (kind : Kind) (target : Text) (interface : Option Text) (total now : ℕ)
      → IsSingle m
      → (launch kind target interface total now m ≡ none) ↔ (m.threads ≡ 1)
  unfolding launch
  launch_refused m kind target interface total now (inl busy) = (λ _. busy.1, λ _. rw busy.0 refl)
  launch_refused m kind target interface total now (inr free) =
      (λ h. absurd (cc (rw free.0 at h)), λ h. absurd (omega (arith, h, free.1)))

  -- After any steps of the web interface and the threads from the start, either one thread runs and
  -- the state says so, or none does and the state says so; and a scan is refused exactly in the
  -- first case.
  pub Steps-IsSingle :
      {m : Manager Checks} (kind : Kind) (target : Text) (interface : Option Text) (total now : ℕ)
      → Steps initial m
      → IsSingle m × ((launch kind target interface total now m ≡ none) ↔ (m.threads ≡ 1))
  Steps-IsSingle {m = m} kind target interface total now path =
      let single = run-IsSingle path (inr (refl, refl)) in
      (single, launch_refused m kind target interface total now single)

-- ===== src/Scan/Manager.antt =====
-- src/sim_monitor/scan/manager.py: one scan at a time, in a thread of its own. What a scan finds (the
-- package's engine and net, sockets and the clock) is given to the workers as values.
pub mod Workers
pub mod Simulated
pub mod Single
pub mod Ending
pub mod Discovery
pub mod Tests
use sim_connectivity_monitor.Prelude.{
  ℕ, ◌+◌, Bool, true, false, Option, none, some, List, [], ◌∷◌, ◌++◌, Text, if◌then◌else◌,
}

pub data Kind : Type 0 where
  discovery ports reachability traceroute : Kind

pub data Result : Type 0 where
  -- a host with its name and its open ports, an open port, a hop with its round trip
  host : Text → Option Text → List ℕ → Result
  open_port : ℕ → Result
  hop : ℕ → Option Text → Option ℕ → Result

-- What the four checks of reachability answer is kept as it is.
pub data Summary (Checks : Type 0) : Type 0 where
  alive_hosts : ℕ → ℕ → Summary Checks
  open_ports : ℕ → ℕ → Summary Checks
  reached : ℕ → Bool → Summary Checks
  checks : Checks → Summary Checks

module _ (Checks : Type 0) where
  -- `_state`.
  pub record ScanState : Type 0 where
    pub running : Bool
    pub kind : Option Kind
    pub target : Option Text
    pub interface : Option Text
    pub started_at : Option ℕ
    pub finished_at : Option ℕ
    pub progress : ℕ
    pub total : ℕ
    pub results : List Result
    pub summary : Option (Summary Checks)
    pub error : Option Text

  -- The manager: its state, the cancel flag, and the threads that run.
  pub record Manager : Type 0 where
    pub state : ScanState
    pub cancel : Bool
    pub threads : ℕ

  -- What a worker does to the state: `_progress`, `_add` and `_summary`.
  pub data Effect : Type 0 where
    progressed : ℕ → Effect
    added : Result → Effect
    summarised : Summary Checks → Effect

module _ {Checks : Type 0} where
  -- `_idle`.
  abbrev pub idle : ScanState Checks
  idle = record {
    running = false;
    kind = none;
    target = none;
    interface = none;
    started_at = none;
    finished_at = none;
    progress = 0;
    total = 0;
    results = [];
    summary = none;
    error = none;
  }

  -- `stop`.
  unfoldable pub stop : Manager Checks → Manager Checks
  stop m = record { state = m.state; cancel = true; threads = m.threads }

  -- `_launch`: `none` is the RuntimeError "a scan is already running". The section under the lock and
  -- the start of the thread behind it are one step here; a thread that cannot be started is not
  -- modelled.
  unfoldable pub launch :
      Kind → Text → Option Text → ℕ → ℕ → Manager Checks → Option (Manager Checks)
  launch kind target interface total now m =
      if m.state.running
      then none
      else some (record {
        state = record {
          running = true;
          kind = some kind;
          target = some target;
          interface = interface;
          started_at = some now;
          finished_at = none;
          progress = 0;
          total = total;
          results = [];
          summary = none;
          error = none;
        };
        cancel = false;
        threads = m.threads + 1;
      })

  -- One effect of a worker on the state.
  unfoldable pub apply_effect : Effect Checks → ScanState Checks → ScanState Checks
  apply_effect (progressed n) s = record {
    running = s.running;
    kind = s.kind;
    target = s.target;
    interface = s.interface;
    started_at = s.started_at;
    finished_at = s.finished_at;
    progress = s.progress + n;
    total = s.total;
    results = s.results;
    summary = s.summary;
    error = s.error;
  }
  apply_effect (added r) s = record {
    running = s.running;
    kind = s.kind;
    target = s.target;
    interface = s.interface;
    started_at = s.started_at;
    finished_at = s.finished_at;
    progress = s.progress;
    total = s.total;
    results = s.results ++ (r ∷ []);
    summary = s.summary;
    error = s.error;
  }
  apply_effect (summarised y) s = record {
    running = s.running;
    kind = s.kind;
    target = s.target;
    interface = s.interface;
    started_at = s.started_at;
    finished_at = s.finished_at;
    progress = s.progress;
    total = s.total;
    results = s.results;
    summary = some y;
    error = s.error;
  }

  unfoldable pub apply_effects : List (Effect Checks) → ScanState Checks → ScanState Checks
  unfolding apply_effect
  apply_effects [] s = s
  apply_effects (e ∷ effects) s = apply_effects effects (apply_effect e s)

  -- The handler of an exception in `_run`.
  unfoldable pub set_error : Option Text → ScanState Checks → ScanState Checks
  set_error none s = s
  set_error (some e) s = record {
    running = s.running;
    kind = s.kind;
    target = s.target;
    interface = s.interface;
    started_at = s.started_at;
    finished_at = s.finished_at;
    progress = s.progress;
    total = s.total;
    results = s.results;
    summary = s.summary;
    error = some e;
  }

  -- The `finally` of `_run`.
  unfoldable pub set_finished : ℕ → ScanState Checks → ScanState Checks
  set_finished now s = record {
    running = false;
    kind = s.kind;
    target = s.target;
    interface = s.interface;
    started_at = s.started_at;
    finished_at = some now;
    progress = s.progress;
    total = s.total;
    results = s.results;
    summary = s.summary;
    error = s.error;
  }

  -- `_run`, undisturbed: the effects of the worker, and the exception it ends with, if any.
  unfoldable pub run_scan :
      List (Effect Checks) × Option Text → ℕ → ScanState Checks → ScanState Checks
  unfolding apply_effects set_error set_finished
  run_scan (effects, failure) now s = set_finished now (set_error failure (apply_effects effects s))

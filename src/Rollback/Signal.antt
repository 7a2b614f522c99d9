-- ===== src/Rollback/Signal.antt =====
-- krkn/rollback/signal.py: the signal handler of a process, as seen by one thread. Signals are
-- numbers; a handler that was installed before is one of those that Python knows.
pub mod Laws
use krkn.Base.{
  ℕ, ◌≡◌, Bool, true, false, not, ◌&&◌, ◌||◌, Option, none, some, List, [], ◌∷◌, ◌++◌, is_empty,
  ◌==◌, if◌then◌else◌, any,
}
use krkn.Base.Text.{Text}

-- What `signal.signal` returned for a signal: a Python function, `SIG_DFL`, or another value.
pub data Original : Type 0 where
  callable sig_dfl other : Original

-- The thread's `_local`: run id, scenario type, and whether there is a telemetry object.
pub record Context : Type 0 where
  pub run_uuid : Option Text
  pub scenario_type : Option Text
  pub telemetry_ocp : Bool

-- What the handler does to the outside, in order.
pub data Event : Type 0 where
  rollback : (run_uuid scenario_type : Text) → Event
  call_original : ℕ → Event
  restore_default : ℕ → Event
  raise_signal : ℕ → Event
  install : ℕ → Event

pub record SignalState : Type 0 where
  pub installed : Bool
  pub originals : List (ℕ × Original)
  pub locked : Bool
  pub context : Context
  pub events : List Event

unfoldable pub set_context : Option Text → Option Text → Bool → SignalState → SignalState
set_context run_uuid scenario_type telemetry_ocp st = record st {
  context = record {
    run_uuid = run_uuid;
    scenario_type = scenario_type;
    telemetry_ocp = telemetry_ocp;
  };
}

unfoldable pub emit : Event → SignalState → SignalState
emit e st = record st { events = st.events ++ e ∷ [] }

-- The fields that are there and not empty; `none` where the context is incomplete.
abbrev pub complete : Context → Option (Text × Text)
complete c = elim c.run_uuid [
  | none ↦ none
  | some [] ↦ none
  | some (r ∷ run) ↦ elim c.scenario_type [
    | none ↦ none
    | some [] ↦ none
    | some (s ∷ type) ↦ if c.telemetry_ocp then some (r ∷ run, s ∷ type) else none
  ]
]

abbrev pub original_of : ℕ → List (ℕ × Original) → Option Original
original_of signum [] = none
original_of signum ((n, h) ∷ rest) = if n == signum then some h else original_of signum rest

-- The end of the handler: hand the signal to who had it before.
unfoldable pub forward : ℕ → SignalState → SignalState
unfolding emit
forward signum st = elim (original_of signum st.originals) [
  | none ↦ st
  | some callable ↦ emit (call_original signum) st
  | some sig_dfl ↦ emit (raise_signal signum) (emit (restore_default signum) st)
  | some other ↦ st
]

-- The rollback runs while the lock is held; `finally` clears the context and releases the lock.
unfoldable pub roll_back : Text × Text → SignalState → SignalState
unfolding emit set_context
roll_back (run_uuid, scenario_type) st =
    let during = emit (rollback run_uuid scenario_type) (record st { locked = true }) in
    record (set_context none none during.context.telemetry_ocp during) { locked = false }

-- `_signal_handler`. The rollback succeeds or raises, and only a success goes on to `forward`. The
-- second part of the result says whether the exception leaves the handler.
unfoldable pub signal_handler : (rollback_works : Bool) → ℕ → SignalState → SignalState × Bool
signal_handler rollback_works signum st = elim (complete st.context) [
  | none ↦ (st, false)
  | some names ↦
      if st.locked
      then (st, false)
      else if rollback_works
      then (forward signum (roll_back names st), false)
      else (roll_back names st, true)
]

-- `cls._original_handlers[sig] = original_handler`
unfoldable pub set_original : ℕ → Original → List (ℕ × Original) → List (ℕ × Original)
set_original sig h [] = (sig, h) ∷ []
set_original sig h ((n, old) ∷ rest) =
    if n == sig then (n, h) ∷ rest else (n, old) ∷ set_original sig h rest

-- The loop over the signals; `signal.signal` returns the handler that it replaces, or raises.
unfoldable pub install_all : (ℕ → Option Original) → List ℕ → SignalState → SignalState
unfolding emit set_original
install_all signal_signal [] st = st
install_all signal_signal (sig ∷ sigs) st = elim (signal_signal sig) [
  | none ↦ install_all signal_signal sigs st
  | some h ↦
      install_all signal_signal sigs
        (emit (install sig) (record st { originals = set_original sig h st.originals }))
]

-- `_register_signal_handler`, for the signals that the platform has.
unfoldable pub register_signal_handler : (ℕ → Option Original) → List ℕ → SignalState → SignalState
unfolding install_all
register_signal_handler signal_signal signals st =
    if st.installed then st else record (install_all signal_signal signals st) { installed = true }

-- `signal_context` round a body, which may raise: set, register, run, and clear in `finally`.
module _ {R : Type 0} where
  unfoldable pub signal_context :
      (ℕ → Option Original)
      → List ℕ
      → Text
      → Text
      → Bool
      → (SignalState → R × SignalState)
      → SignalState
      → R × SignalState
  unfolding set_context register_signal_handler
  signal_context signal_signal signals run_uuid scenario_type telemetry_ocp body st =
      let entered =
        register_signal_handler signal_signal signals
          (set_context (some run_uuid) (some scenario_type) telemetry_ocp st) in
      let (result, after) = body entered in (result, set_context none none telemetry_ocp after)

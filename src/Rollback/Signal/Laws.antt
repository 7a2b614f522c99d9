-- ===== src/Rollback/Signal/Laws.antt =====
-- What a signal, or a series of them, does to a run.
use krkn.Base.{
  ℕ, suc, ◌+◌, ◌≡◌, refl, Bool, true, false, Option, none, some, List, [], ◌∷◌, ◌++◌, arith, count,
  if◌then◌else◌, inl, inr, ap, ◌∙◌, ◌⊎◌, not,
}
use krkn.Base.Text.{Text}
use krkn.Rollback.Signal.{
  Original, Event, rollback, call_original, restore_default, raise_signal, SignalState, complete,
  forward, emit, roll_back, signal_handler, register_signal_handler, signal_context,
}

abbrev pub is_rollback : Event → Bool
is_rollback (rollback _ _) = true
is_rollback _ = false

abbrev pub rollbacks : SignalState → ℕ
rollbacks st = count is_rollback st.events

rollbacks-emit :
    (events : List Event) (e : Event)
    → count is_rollback (events ++ e ∷ [])
      ≡ count is_rollback events + (if is_rollback e then 1 else 0)
rollbacks-emit [] e = ground arith
rollbacks-emit (x ∷ events) e = ground (arith, rollbacks-emit events e)

-- What `forward` leaves alone.
forward_keeps :
    (signum : ℕ) (st : SignalState)
    → let st' = forward signum st in
      (rollbacks st' ≡ rollbacks st)
      × (st'.locked ≡ st.locked)
      × (st'.context ≡ st.context)
      × (st'.originals ≡ st.originals)
      × (st'.installed ≡ st.installed)
unfolding forward emit
forward_keeps signum st = ground (
  arith,
  rollbacks-emit st.events (call_original signum),
  rollbacks-emit st.events (restore_default signum),
  rollbacks-emit (st.events ++ restore_default signum ∷ []) (raise_signal signum),
)

roll_back_lem :
    (names : Text × Text) (st : SignalState)
    → let st' = roll_back names st in
      (rollbacks st' ≡ suc (rollbacks st)) × (st'.locked ≡ false) × (complete st'.context ≡ none)
unfolding roll_back
roll_back_lem (run_uuid, scenario_type) st =
    (omega (arith, rollbacks-emit st.events (rollback run_uuid scenario_type)), refl, refl)

-- With no complete context, or while a rollback holds the lock, a signal changes nothing.
pub signal_handler_skips :
    (works : Bool) (signum : ℕ) (st : SignalState)
    → (complete st.context ≡ none) ⊎ (st.locked ≡ true)
    → signal_handler works signum st ≡ (st, false)
unfolding signal_handler
signal_handler_skips works signum st (inl e) = rw (e, signal_handler)
signal_handler_skips works signum st (inr e) = ground arith

-- A signal that finds a complete context and a free lock runs one rollback, whether that works or
-- raises; then the lock is free again and the context is empty, and an exception leaves the
-- handler exactly where the rollback raised.
pub signal_handler_runs :
    (works : Bool) (signum : ℕ) (st : SignalState) {names : Text × Text}
    → complete st.context ≡ some names
    → st.locked ≡ false
    → let (st', raised) = signal_handler works signum st in
      (rollbacks st' ≡ suc (rollbacks st))
      × (st'.locked ≡ false)
      × (complete st'.context ≡ none)
      × (raised ≡ not works)
unfolding signal_handler roll_back
signal_handler_runs true signum st {names} e free =
    let (once, unlocked, empty) = roll_back_lem names st in
    let (same, lock, context, _, _) = forward_keeps signum (roll_back names st) in
    rw (e, signal_handler)
      (rw free (same ∙ once, lock ∙ unlocked, ap complete context ∙ empty, refl))
signal_handler_runs false signum st {names} e free =
    let (once, unlocked, empty) = roll_back_lem names st in
    rw (e, signal_handler) (rw free (once, unlocked, empty, refl))

-- Signals that arrive one after the other, with how the rollback of each would end.
abbrev pub deliver : List (ℕ × Bool) → SignalState → SignalState
deliver [] st = st
deliver ((signum, works) ∷ signals) st = deliver signals (signal_handler works signum st).0

deliver_skips :
    (signals : List (ℕ × Bool)) (st : SignalState)
    → complete st.context ≡ none
    → deliver signals st ≡ st
deliver_skips [] st e = refl
deliver_skips ((signum, works) ∷ signals) st e =
    ap (λ r. deliver signals (r).0) (signal_handler_skips works signum st (inl e))
    ∙ deliver_skips signals st e

-- However many signals arrive one after the other, at least one, in a run with a complete context and
-- a free lock, and however the rollbacks end, the run is rolled back exactly once, and the lock is free
-- at the end.
pub deliver_once :
    (signum : ℕ) (works : Bool) (signals : List (ℕ × Bool)) (st : SignalState) {names : Text × Text}
    → complete st.context ≡ some names
    → st.locked ≡ false
    → let st' = deliver ((signum, works) ∷ signals) st in
      (rollbacks st' ≡ suc (rollbacks st)) × (st'.locked ≡ false)
deliver_once signum works signals st e free =
    let (once, unlocked, empty, _) = signal_handler_runs works signum st e free in
    let same = deliver_skips signals (signal_handler works signum st).0 empty in
    (ap rollbacks same ∙ once, ap (λ (s : SignalState). s.locked) same ∙ unlocked)

-- Once the handlers are installed, registering again changes nothing: the original handlers that
-- were saved first are the ones that signals are forwarded to.
pub register_signal_handler_idem :
    (signal_signal later : ℕ → Option Original) (signals signals' : List ℕ) (st : SignalState)
    → register_signal_handler later signals' (register_signal_handler signal_signal signals st)
      ≡ register_signal_handler signal_signal signals st
unfolding register_signal_handler
register_signal_handler_idem signal_signal later signals signals' st = ground arith

-- After a scenario's `signal_context`, whatever its body did or returned, a signal rolls nothing
-- back.
pub signal_context_clears :
    {R : Type 0} (signal_signal : ℕ → Option Original) (signals : List ℕ)
    (run_uuid scenario_type : Text) (telemetry works : Bool) (signum : ℕ)
    (body : SignalState → R × SignalState) (st : SignalState)
    → let (_, after) =
        signal_context signal_signal signals run_uuid scenario_type telemetry body st in
      signal_handler works signum after ≡ (after, false)
unfolding signal_context
signal_context_clears signal_signal signals run_uuid scenario_type telemetry works signum body st =
    signal_handler_skips works signum _ (inl refl)

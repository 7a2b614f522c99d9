-- ===== src/Runner.antt =====
-- krkn/scenario_plugins/abstract_scenario_plugin.py: the runner of a plugin's scenarios. The plugin's
-- `run`, the test whether a file exists, the clock and what happens to version files are parameters.
-- What is only logged or collected, with every exception caught, leaves no trace in the state.
mod Tests
pub mod Laws
pub mod Factory
use krkn.Base.{
  ℕ, zero, suc, Bool, true, false, not, Option, none, some, List, [], ◌∷◌, if◌then◌else◌,
}
use krkn.Base.Int.{ℤ, pos, is_zero}
use krkn.Base.Text.{Text}
use krkn.Base.Result.{Result, ok, err}
use krkn.Rollback.Handler.{
  Error, World, State, execute_rollback_version_files, cleanup_rollback_version_files,
}

-- An entry of the list of scenarios: a file, or a sub-list, which is deprecated.
pub data Entry : Type 0 where
  file : Text → Entry
  sub_list : List Text → Entry

pub record ScenarioTelemetry : Type 0 where
  pub scenario : Text
  pub scenario_type : Text
  pub start_timestamp : ℕ
  pub end_timestamp : ℕ
  pub exit_status : ℤ

-- The versions directory with the calls of rollbacks, and how often the clock was read.
pub record RunState (C : Type 0) : Type 0 where
  pub store : State C
  pub readings : ℕ

-- A plugin in its surroundings. `run` may write version files; `none` is an exception that it raises.
pub record Plugin (C : Type 0) : Type 0 where
  pub scenario_type : Text
  pub run : (run_uuid scenario : Text) → State C → Option ℤ × State C
  pub exists : Text → Bool
  -- the reading of `time.time()` of each number
  pub clock : ℕ → ℕ
  pub world : World
  pub auto : Bool
  -- whether there is a telemetry object
  pub telemetry : Bool

module _ {C : Type 0} (plugin : Plugin C) (run_uuid : Text) where
  open plugin use {run, exists, clock, world, auto, telemetry}

  -- `except Exception: return_value = 1`
  unfoldable pub return_value : Option ℤ → ℤ
  return_value none = pos 1
  return_value (some value) = value

  -- Cleanup after a success, rollback after anything else; what they raise leaves the runner.
  unfoldable pub after_run : ℤ → State C → Option Error × State C
  after_run value st =
      if is_zero value
      then cleanup_rollback_version_files world (some run_uuid) (some plugin.scenario_type) st
      else execute_rollback_version_files world auto telemetry (some run_uuid)
          (some plugin.scenario_type) false st

  unfoldable pub telemetry_of : Text → ℕ → ℕ → ℤ → ScenarioTelemetry
  telemetry_of scenario first last exit_status = record {
    scenario = scenario;
    scenario_type = plugin.scenario_type;
    start_timestamp = clock first;
    end_timestamp = clock last;
    exit_status = exit_status;
  }

  -- One scenario file: its telemetry.
  unfoldable pub run_one : Text → RunState C → Result Error ScenarioTelemetry × RunState C
  unfolding return_value after_run telemetry_of
  run_one scenario st =
      let n = st.readings in
      let done = telemetry_of scenario n (suc n) in
      let (outcome, ran) = run run_uuid scenario st.store in
      let (failed, settled) = after_run (return_value outcome) ran in
      if not (exists scenario)
      then (ok (done (pos 1)), record st { readings = suc (suc n) })
      else elim failed [
        | some e ↦ (err e, record { store = settled; readings = suc n })
        | none ↦
            (ok (done (return_value outcome)), record { store = settled; readings = suc (suc n) })
      ]

  -- What a scenario adds to the two lists of the runner.
  unfoldable pub add_result :
      ScenarioTelemetry → List Entry × List ScenarioTelemetry → List Entry × List ScenarioTelemetry
  add_result tel (failed, telemetries) =
      (if is_zero tel.exit_status then failed else file tel.scenario ∷ failed, tel ∷ telemetries)

  abbrev pub add_to :
      ScenarioTelemetry
      → Result Error (List Entry × List ScenarioTelemetry)
      → Result Error (List Entry × List ScenarioTelemetry)
  add_to tel (ok lists) = ok (add_result tel lists)
  add_to tel (err e) = err e

  -- `run_scenarios`: the failed scenarios and the telemetries, in order.
  unfoldable pub run_scenarios :
      List Entry → RunState C → Result Error (List Entry × List ScenarioTelemetry) × RunState C
  unfolding run_one add_result
  run_scenarios [] st = (ok ([], []), st)
  run_scenarios (sub_list l ∷ entries) st = (ok (sub_list l ∷ [], []), st)
  run_scenarios (file scenario ∷ entries) st =
      let (result, st1) = run_one scenario st in
      let (rest, st2) = run_scenarios entries st1 in
      elim result [ err e ↦ (err e, st1) | ok tel ↦ (add_to tel rest, st2) ]

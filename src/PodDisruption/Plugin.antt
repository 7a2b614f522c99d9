-- ===== src/PodDisruption/Plugin.antt =====
-- krkn/scenario_plugins/pod_disruption: `run` of the plugin. How many pods the monitor found unrecovered
-- when it ended is a parameter.
pub mod Codes
use krkn.Base.{ℕ, Bool, true, false, not, ◌&&◌, ◌||◌, List, [], ◌∷◌, if◌then◌else◌, is_empty, ltb}
use krkn.Base.Result.{Result, ok, err}
use krkn.PodDisruption.{
  RawParams, InputParams, ParamsError, input_params, Outside, KillState, Outcome, returns, raises,
  stuck, killing_pods,
}

-- The tests of `start_monitoring`; where none holds it raises.
unfoldable pub can_monitor : InputParams → Bool
can_monitor config =
    (not (is_empty config.namespace_pattern) && not (is_empty config.label_selector))
    || (not (is_empty config.namespace_pattern) && not (is_empty config.name_pattern))

module _ (outside : Outside) (unrecovered : InputParams → outside.W → ℕ) where
  open outside use {W}

  -- After `killing_pods`: `returns 0` goes on with the next scenario. Every exception is caught.
  unfoldable pub after_kill : InputParams → Outcome → W → Outcome
  after_kill config raises w = returns 1
  after_kill config stuck w = stuck
  after_kill config (returns ret) w =
      if ltb 1 ret
      then returns 1
      else if ltb 0 (unrecovered config w)
      then returns 1
      else if ltb 0 ret
      then returns 1
      else returns 0

  -- One element of the list.
  unfoldable pub run_kill_scenario : ℕ → RawParams → KillState W → Outcome × KillState W
  unfolding can_monitor after_kill
  run_kill_scenario fuel raw st = elim (input_params raw) [
    | err e ↦ (returns 1, st)
    | ok config ↦
        let (outcome, st1) = killing_pods outside fuel config st in
        if not (can_monitor config)
        then (returns 1, st)
        else (after_kill config outcome st1.world, st1)
  ]

  abbrev pub if_zero :
      Outcome → Outcome × KillState W → Outcome × KillState W → Outcome × KillState W
  if_zero (returns ret) stopped further = if ltb 0 ret then stopped else further
  if_zero raises stopped further = stopped
  if_zero stuck stopped further = stopped

  -- `run`
  unfoldable pub run : ℕ → List RawParams → KillState W → Outcome × KillState W
  unfolding run_kill_scenario
  run fuel [] st = (returns 0, st)
  run fuel (raw ∷ scenarios) st =
      let (outcome, st1) = run_kill_scenario fuel raw st in
      let further = run fuel scenarios st1 in if_zero outcome (outcome, st1) further

-- ===== src/Main.antt =====
-- run_kraken.py: the loop of `main` over the iterations and the scenarios, and its exit code. The runs
-- of a plugin, the answers of Prometheus and the reports are parameters; what the status server answers is
-- a list, one answer for each request.
pub mod Exit
pub mod Laws
pub mod Outcome
pub mod Signals
pub mod Alerting
mod Tests
use krkn.Base.{
  ℕ, zero, suc, ◌+◌, Bool, true, false, not, ◌&&◌, Option, none, some, List, [], ◌∷◌, ◌++◌,
  if◌then◌else◌, is_empty, length, ltb,
}
use krkn.Base.Int.{ℤ, pos, negsuc}
use krkn.Base.Text.{Text}
use krkn.Alerts.{Alert, ChaosRunAlertSummary, critical_alerts}
use krkn.Runner.{Entry, ScenarioTelemetry}
use krkn.Runner.Factory.{Factory, PluginClass, create_plugin}
use krkn.HealthChecks.{below_limit}
use krkn.HealthChecks.Factory.{HealthCheckFactory, increment_all_iterations}

-- The run signal; any other text than these two lets the run go on.
pub data Signal : Type 0 where
  stop pause run : Signal

unfoldable pub is_stop : Signal → Bool
is_stop stop = true
is_stop _ = false

unfoldable pub is_pause : Signal → Bool
is_pause pause = true
is_pause _ = false

-- An element of `chaos_scenarios`: its type, and its scenarios.
pub record Scenario : Type 0 where
  pub scenario_type : Text
  pub scenarios_list : List Entry

-- `plugin_run` is `run_scenarios` of a plugin class, `none` if it raises; `adds_reports` is
-- `add_scenario_reports` of the resiliency object, which belongs to the world; `query_alerts` is
-- what Prometheus answers to the queries for critical alerts during and after the chaos, `none` if it raises.
pub record Outside : Type 1 where
  pub W : Type 0
  pub plugin_run : PluginClass → List Entry → W → Option (List Entry × List ScenarioTelemetry) × W
  pub adds_reports : Text → List ScenarioTelemetry → W → W
  pub query_alerts : W → Option (List Alert × List Alert) × W

pub record Settings : Type 0 where
  pub iterations : Option ℕ
  pub chaos_scenarios : List Scenario
  pub publish_running_status : Bool
  pub check_critical_alerts : Bool
  pub plugins : Factory

-- The variables of `main` that the loop changes, with the answers of the server that are still to come.
pub record MainState : Type 0 where
  pub iteration : ℕ
  pub run_signal : Signal
  pub answers : List Signal
  pub failed_post_scenarios : List Entry
  pub scenarios : List ScenarioTelemetry
  pub post_critical_alerts : ℕ
  pub summary : ChaosRunAlertSummary
  pub health_checks : HealthCheckFactory

-- How a piece of the loop ends: it goes on, it leaves the loop over the scenarios, `sys.exit`, an
-- exception, an answer of the server that has not come, or fuel that ran out.
pub data Step : Type 0 where
  next : MainState → Step
  leaves : MainState → Step
  exits : ℤ → Step
  raises : Step
  waits : Step
  stuck : Step

-- `server.get_status` and the loop that polls it while the run is paused.
unfoldable pub pause_loop : List Signal → MainState → Option MainState
unfolding is_pause
pause_loop [] m = none
pause_loop (signal ∷ answers) m =
    let later = pause_loop answers m in
    if is_pause signal then later else some (record m { run_signal = signal; answers = answers })

unfoldable pub read_signal : Bool → MainState → Option MainState
unfolding pause_loop is_pause
read_signal false m = some m
read_signal true m = elim m.answers [
  | [] ↦ none
  | signal ∷ answers ↦
      let m1 = record m { run_signal = signal; answers = answers } in
      if is_pause signal then pause_loop answers m1 else some m1
]

module _ (outside : Outside) (settings : Settings) where
  open outside use {W}

  -- What goes on after a step, where the code falls through and where a `break` leads.
  abbrev pub and_then : (on_next on_leaves : MainState → W → Step × W) → Step × W → Step × W
  and_then on_next on_leaves (next m, w) = on_next m w
  and_then on_next on_leaves (leaves m, w) = on_leaves m w
  and_then on_next on_leaves (exits code, w) = (exits code, w)
  and_then on_next on_leaves (raises, w) = (raises, w)
  and_then on_next on_leaves (waits, w) = (waits, w)
  and_then on_next on_leaves (stuck, w) = (stuck, w)

  -- The end of the body: the alerts are added to the summary of the run, and all of it is counted.
  unfoldable pub check_alerts : Text → MainState → W → Step × W
  unfolding critical_alerts
  check_alerts scenario_type m w =
      let (answer, w1) = outside.query_alerts w in
      if not settings.check_critical_alerts
      then (next (record m { post_critical_alerts = 0 }), w)
      else elim answer [
        | none ↦ (raises, w1)
        | some (during, post) ↦
            let summary = critical_alerts scenario_type during post m.summary in
            let count = length summary.post_chaos_alerts in
            let m1 = record m { summary = summary; post_critical_alerts = count } in
            (if ltb 0 count then leaves m1 else next m1, w1)
      ]

  -- A batch of one scenario type.
  unfoldable pub run_batch : Scenario → MainState → W → Step × W
  unfolding check_alerts create_plugin
  run_batch scenario m w = elim (create_plugin scenario.scenario_type settings.plugins) [
    | none ↦ (exits (negsuc 0), w)
    | some cls ↦
        let (outcome, w1) = outside.plugin_run cls scenario.scenarios_list w in
        elim outcome [
          | none ↦ (raises, w1)
          | some (failed, telemetries) ↦
              check_alerts scenario.scenario_type
                (record m {
                  failed_post_scenarios = m.failed_post_scenarios ++ failed;
                  scenarios = m.scenarios ++ telemetries;
                })
                (outside.adds_reports scenario.scenario_type telemetries w1)
        ]
  ]

  -- The body of the loop over the scenarios, after the signal was read.
  unfoldable pub after_signal : Scenario → MainState → W → Step × W
  unfolding run_batch is_stop
  after_signal scenario m w =
      if is_stop m.run_signal
      then (leaves m, w)
      else if is_empty scenario.scenarios_list
      then (next m, w)
      else run_batch scenario m w

  -- The sleeps of a paused run change nothing but the time.
  unfoldable pub run_scenario : Scenario → MainState → W → Step × W
  unfolding read_signal after_signal
  run_scenario scenario m w = elim (read_signal settings.publish_running_status m) [
    | none ↦ (waits, w)
    | some m1 ↦ after_signal scenario m1 w
  ]

  -- `for scenario in chaos_scenarios`
  unfoldable pub scenario_loop : List Scenario → MainState → W → Step × W
  unfolding run_scenario
  scenario_loop [] m w = (next m, w)
  scenario_loop (scenario ∷ scenarios) m w =
      and_then (scenario_loop scenarios) (λ m1 w1. (next m1, w1)) (run_scenario scenario m w)

  -- `iteration += 1` and the counting of the health checks
  unfoldable pub end_iteration : MainState → MainState
  unfolding increment_all_iterations
  end_iteration m = record m {
    iteration = suc m.iteration;
    health_checks = increment_all_iterations m.health_checks;
  }

  -- `while int(iteration) < iterations and run_signal != "STOP"`
  unfoldable pub main_loop : ℕ → MainState → W → Step × W
  unfolding scenario_loop end_iteration below_limit is_stop
  main_loop zero m w = (stuck, w)
  main_loop (suc fuel) m w =
      let further : MainState → W → Step × W = λ m1 w1. main_loop fuel (end_iteration m1) w1 in
      if below_limit m.iteration settings.iterations && not (is_stop m.run_signal)
      then and_then further further (scenario_loop settings.chaos_scenarios m w)
      else (next m, w)

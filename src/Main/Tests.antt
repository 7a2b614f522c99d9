-- ===== src/Main/Tests.antt =====
-- Runs of run_kraken.py: two iterations of one plugin, with an alert and without.
use krkn.Base.{
  ℕ, suc, ◌≤◌, ◌≡◌, refl, ap, ◌⊎◌, Bool, true, false, none, some, List, [], ◌∷◌, ◌++◌, ◌≢◌, length,
  keep, arith,
}
use mathlib.Core.Path.{subst}
use mathlib.Core.Option.{some-injective}
use krkn.Base.Int.{pos}
use krkn.Base.Text.{Text, text, text_eq}
use krkn.Base.Dict.{lookup}
use krkn.Runner.{Entry, file, sub_list, ScenarioTelemetry}
use krkn.Runner.Laws.{Reported, not_zero}
use krkn.Runner.Factory.{PluginClass}
use krkn.HealthChecks.{below_limit}
use krkn.HealthChecks.Factory.{HealthCheckFactory, new_plugin}
use krkn.Main.{
  Signal, stop, pause, run, is_stop, Scenario, Outside, Settings, MainState, next, end_iteration,
  main_loop,
}
use krkn.Main.Exit.{Ending, after_loop}
use krkn.Main.Laws.{Leaves}
use krkn.Main.Outcome.{CountsAlong, main_loop-CountsAlong, success_is_clean, main_loop_ends}
use krkn.Main.Signals.{stop_ends_run}
use krkn.Main.Alerting.{alerts_persist}
use krkn.Alerts.{ChaosRunAlert, ChaosRunAlertSummary, no_alerts, critical_alerts}

abbrev telemetry : Text → ScenarioTelemetry
telemetry scenario = record {
  scenario = scenario;
  scenario_type = text "pod";
  start_timestamp = 1;
  end_timestamp = 2;
  exit_status = pos 0;
}

-- A batch in which every file works, up to the first sub-list.
abbrev batch : List Entry → List Entry × List ScenarioTelemetry
batch [] = ([], [])
batch (sub_list l ∷ entries) = (sub_list l ∷ [], [])
batch (file scenario ∷ entries) =
    let (failed, telemetries) = batch entries in (failed, telemetry scenario ∷ telemetries)

batch-Reported : (entries : List Entry) → Reported entries (batch entries)
batch-Reported [] = (refl, refl)
batch-Reported (sub_list l ∷ entries) = (refl, refl)
batch-Reported (file scenario ∷ entries) =
    let (names, failed) = batch-Reported entries in (ap (λ ts. scenario ∷ ts) names, failed)

-- The world counts the batches; no alert fires.
abbrev outside : Outside
outside = record {
  W = ℕ;
  plugin_run = λ cls entries n. (some (batch entries), suc n);
  adds_reports = λ scenario_type telemetries n. n;
  query_alerts = λ n. (some ([], []), n);
}

-- An alert fires after each batch.
abbrev firing : Outside
firing = record {
  W = ℕ;
  plugin_run = λ cls entries n. (some (batch entries), suc n);
  adds_reports = λ scenario_type telemetries n. n;
  query_alerts = λ n. (some ([], none ∷ some ((text "alertname", text "down") ∷ []) ∷ []), n);
}

abbrev down : ChaosRunAlert
down = record {
  alertname = text "down";
  alertstate = text "none";
  namespace = text "none";
  severity = text "none";
}

abbrev with_alerts : List ChaosRunAlert → ChaosRunAlertSummary
with_alerts alerts = record { scenario = text "pod"; chaos_alerts = []; post_chaos_alerts = alerts }

abbrev pod : PluginClass
pod = record {
  module_name = text "pod_scenario_plugin";
  class_name = text "PodScenarioPlugin";
  scenario_types = text "pod" ∷ [];
}

abbrev pods : Scenario
pods = record { scenario_type = text "pod"; scenarios_list = file (text "a.yaml") ∷ [] }

abbrev settings : Bool → Settings
settings publish = record {
  iterations = some 2;
  chaos_scenarios = pods ∷ [];
  publish_running_status = publish;
  check_critical_alerts = true;
  plugins = record { loaded_plugins = (text "pod", pod) ∷ []; failed_plugins = [] };
}

abbrev checks : ℕ → HealthCheckFactory
checks n = record {
  loaded_plugins = [];
  failed_plugins = [];
  config_key_map = [];
  active_plugins =
      record (new_plugin (text "http_health_check") (some 2)) { current_iterations = n } ∷ [];
}

abbrev start : List Signal → MainState
start answers = record {
  iteration = 0;
  run_signal = run;
  answers = answers;
  failed_post_scenarios = [];
  scenarios = [];
  post_critical_alerts = 0;
  summary = no_alerts;
  health_checks = checks 0;
}

abbrev end : MainState
end = record {
  iteration = 2;
  run_signal = run;
  answers = [];
  failed_post_scenarios = [];
  scenarios = telemetry (text "a.yaml") ∷ telemetry (text "a.yaml") ∷ [];
  post_critical_alerts = 0;
  summary = record no_alerts { scenario = text "pod" };
  health_checks = checks 2;
}

abbrev ending : Ending
ending = record {
  failed_post_scenarios = [];
  return_values = pos 0 ∷ [];
  post_critical_alerts = 0;
  profile_critical_alerts = some 0;
  enable_alerts = true;
  history = none;
}

main_loop-CountsAlong_example : CountsAlong outside (settings false) end
unfolding main_loop lookup text_eq
main_loop-CountsAlong_example =
    main_loop-CountsAlong outside (settings false) 3 (start []) end 0 (refl, tt) refl

success_is_clean_example : keep not_zero end.scenarios ≡ []
unfolding main_loop lookup text_eq after_loop
success_is_clean_example =
    success_is_clean outside (settings false) 3 (start []) end 0 ending
      (λ cls entries w r e.
        subst (Reported entries) (some-injective _ _ e) (batch-Reported entries))
      refl refl refl refl

main_loop_ends_example :
    Leaves ⊥
      (λ m1. (2 ≤ m1.iteration) ⊎ (is_stop m1.run_signal ≡ true))
      (main_loop outside (settings true) 3 (start (run ∷ stop ∷ [])) 0).0
main_loop_ends_example =
    main_loop_ends outside (settings true) 2 2 (start (run ∷ stop ∷ [])) 0 refl (omega arith)

stop_ends_run_example :
    main_loop outside (settings true) 3 (start (pause ∷ stop ∷ [])) 0
    ≡ (next (end_iteration outside (settings true) (record (start []) { run_signal = stop })), 0)
unfolding below_limit is_stop
stop_ends_run_example =
    stop_ends_run outside (settings true) 1 1 [] pods [] (start (pause ∷ stop ∷ [])) 0 refl refl
      refl refl refl

-- After the first of two iterations, with one alert.
abbrev alarmed : MainState
alarmed = record end {
  iteration = 1;
  post_critical_alerts = 1;
  summary = with_alerts (down ∷ []);
  health_checks = checks 1;
}

abbrev alarmed_end : MainState
alarmed_end = record end {
  scenarios = end.scenarios ++ telemetry (text "a.yaml") ∷ [];
  post_critical_alerts = 2;
  summary = with_alerts (down ∷ down ∷ []);
}

alerts_persist_example :
    ((more : List ChaosRunAlert) × (alarmed_end.summary.post_chaos_alerts
        ≡ alarmed.summary.post_chaos_alerts ++ more))
    × (alarmed_end.post_critical_alerts ≡ length alarmed_end.summary.post_chaos_alerts)
    × (after_loop (record ending { post_critical_alerts = 2 }) ≢ pos 0)
unfolding main_loop lookup text_eq critical_alerts
alerts_persist_example =
    alerts_persist firing (settings false) 2 alarmed alarmed_end 1
      (record ending { post_critical_alerts = 2 }) refl refl refl refl refl

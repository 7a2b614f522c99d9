-- ===== src/Runner/Tests.antt =====
-- Runs of krkn/scenario_plugins/abstract_scenario_plugin.py: a plugin that writes a version file for
-- each scenario, with a scenario that fails, one that has no file, and a sub-list.
use krkn.Base.{
  ℕ, ◌+◌, if◌then◌else◌, ◌≡◌, refl, Bool, true, false, not, none, some, List, [], ◌∷◌, ◌++◌,
}
use krkn.Base.Int.{ℤ, pos}
use krkn.Base.Text.{
  Text, text, text_eq, starts_with, occurs, isdigit, ends_with, split, join, drop_last, isalnum,
}
use krkn.Base.Result.{ok}
use krkn.Rollback.Files.{FilePath, Files, search_rollback_version_files}
use krkn.Rollback.Names.{is_rollback_context_directory_format, is_rollback_version_file_format}
use krkn.Rollback.Handler.{
  LoadedModule, World, State, parse_rollback_module, execute_one, execute_rollback_version_files,
  cleanup_rollback_version_files,
}
use krkn.Rollback.Handler.Execution.{failure, called, pending}
use krkn.Runner.{
  Entry, file, sub_list, ScenarioTelemetry, RunState, Plugin, after_run, run_scenarios,
}
use krkn.Runner.Laws.{Reported, run_scenarios-Reported, after_run_clean}
use krkn.Base.Dict.{lookup, insert}
use krkn.Runner.Factory.{PluginClass, Factory, load_plugins, create_plugin}
use krkn.Runner.Factory.Laws.{load_plugins_keeps}

abbrev loaded : LoadedModule
loaded = record {
  members =
      record {
        name = text "rollback_pods";
        is_function = true;
        annotations = text "RollbackContent" ∷ text "KrknTelemetryOpenshift" ∷ [];
      }
      ∷ [];
  rollback_content = some (some (record { skip_kubernetes = false }));
}

abbrev world : World
world = record {
  load = λ p. some loaded;
  call_returns = λ p. true;
  rename_works = λ p. true;
  remove_works = λ p. true;
}

abbrev written : Files Bool
written = (text "12-run", (text "pod_7_abcd1234.py", true) ∷ []) ∷ []

abbrev plugin : Plugin Bool
plugin = record {
  scenario_type = text "pod";
  run = λ run_uuid scenario st. (
    if text_eq scenario (text "good.yaml") then some (pos 0) else none,
    record st { files = some written },
  );
  exists = λ scenario. not (text_eq scenario (text "lost.yaml"));
  clock = λ n. n;
  world = world;
  auto = true;
  telemetry = true;
}

abbrev empty : RunState Bool
empty = record { store = record { files = some []; calls = [] }; readings = 0 }

abbrev entries : List Entry
entries =
    file (text "good.yaml")
    ∷ file (text "bad.yaml")
    ∷ file (text "lost.yaml")
    ∷ sub_list []
    ∷ file (text "more.yaml")
    ∷ []

abbrev tel : Text → ℕ → ℤ → ScenarioTelemetry
tel scenario n exit_status = record {
  scenario = scenario;
  scenario_type = text "pod";
  start_timestamp = n;
  end_timestamp = n + 1;
  exit_status = exit_status;
}

abbrev lists : List Entry × List ScenarioTelemetry
lists = (
  file (text "bad.yaml") ∷ file (text "lost.yaml") ∷ sub_list [] ∷ [],
  tel (text "good.yaml") 0 (pos 0)
      ∷ tel (text "bad.yaml") 2 (pos 1)
      ∷ tel (text "lost.yaml") 4 (pos 1)
      ∷ [],
)

runs-ok : (run_scenarios plugin (text "run") entries empty).0 ≡ ok lists
unfolding run_scenarios text_eq cleanup_rollback_version_files search_rollback_version_files
    is_rollback_context_directory_format isdigit ends_with is_rollback_version_file_format split
    join drop_last isalnum execute_rollback_version_files execute_one parse_rollback_module
    starts_with occurs
runs-ok = refl

run_scenarios-Reported_example : Reported entries lists
run_scenarios-Reported_example =
    run_scenarios-Reported plugin (text "run") entries empty lists runs-ok

never_fails : (p : FilePath) → failure world p ≡ none
unfolding parse_rollback_module starts_with occurs
never_fails p = refl

abbrev after_bad : State Bool
after_bad = record { files = some written; calls = [] }

after_run_clean_example :
    ((after_run plugin (text "run") (pos 1) after_bad).0 ≡ none)
    × (pending
          (some (text "run"))
          (some (text "pod"))
          (after_run plugin (text "run") (pos 1) after_bad).1.files
        ≡ [])
    × (called world (after_run plugin (text "run") (pos 1) after_bad).1
        ≡ []
          ++ search_rollback_version_files (some (text "run")) (some (text "pod")) (some written))
after_run_clean_example =
    after_run_clean plugin (text "run") (pos 1) after_bad refl never_fails (λ p. refl)

abbrev native : PluginClass
native = record {
  module_name = text "krkn.scenario_plugins.native.native_scenario_plugin";
  class_name = text "NativeScenarioPlugin";
  scenario_types = text "pod_network" ∷ [];
}

abbrev other : PluginClass
other = record {
  module_name = text "krkn.scenario_plugins.extra.extra_scenario_plugin";
  class_name = text "ExtraScenarioPlugin";
  scenario_types = text "extra" ∷ text "pod_network" ∷ [];
}

abbrev with_native : Factory
with_native = record { loaded_plugins = (text "pod_network", native) ∷ []; failed_plugins = [] }

native_loads :
    load_plugins (native ∷ []) (record { loaded_plugins = []; failed_plugins = [] }) ≡ with_native
unfolding load_plugins ends_with split text_eq occurs lookup insert
native_loads = refl

native_created : create_plugin (text "pod_network") with_native ≡ some native
unfolding create_plugin lookup text_eq
native_created = refl

load_plugins_keeps_example :
    create_plugin (text "pod_network") (load_plugins (other ∷ []) with_native) ≡ some native
load_plugins_keeps_example =
    load_plugins_keeps (other ∷ []) with_native (text "pod_network") native native_created

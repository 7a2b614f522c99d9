-- ===== src/Rollback/Tests.antt =====
-- Runs of krkn/rollback on a versions directory with two version files of one run.
use krkn.Base.{
  ℕ, suc, ◌≡◌, refl, Bool, true, false, ◌||◌, Option, none, some, [], ◌∷◌, ◌++◌, All-intro,
}
use krkn.Base.Text.{
  Text, text, isalnum, decimal, join, split, text_eq, isdigit, ends_with, drop_last, digits_from,
  starts_with, occurs,
}
use krkn.Base.Result.{ok}
use mathlib.Core.List.{Perm}
use krkn.Rollback.Names.{
  Version, is_rollback_version_file_format, is_rollback_context_directory_format,
  get_rollback_timestamp, version_file_name, agrees,
}
use krkn.Rollback.Names.Roundtrip.{HasSuffix, version_file_name_roundtrip}
use krkn.Rollback.Config.{RollbackConfig, new_config, register}
use krkn.Rollback.Files.{FilePath, Files, search_rollback_version_files}
use krkn.Rollback.Files.Sorting.{LatestFirst}
use krkn.Rollback.Files.Search.{outside}
use krkn.Rollback.Handler.{
  LoadedModule, Error, callable_failed, World, State, parse_rollback_module,
  cleanup_rollback_version_files,
}
use krkn.Rollback.Handler.Execution.{failure, called, pending}
use krkn.Rollback.Handler.Outcome.{
  run, search-LatestFirst, execute_rollback_version_files_works,
  execute_rollback_version_files_stops, cleanup_rollback_version_files_works,
}
use krkn.Rollback.Handler.Context.{
  Defaults, RollbackHandler, set_rollback_callable, set_rollback_callable_replaces,
}
use krkn.Rollback.Signal.{Original, sig_dfl, callable, SignalState, signal_handler}
use krkn.Rollback.Signal.Laws.{rollbacks, deliver, deliver_once}

abbrev first : Version
first = record {
  scenario_type = text "pod_disruption";
  timestamp = 7;
  hash_suffix = text "abcd1234";
  rollback_context = text "12-run";
}

abbrev second : Version
second = record {
  scenario_type = text "pod_disruption";
  timestamp = 42;
  hash_suffix = text "wxyz5678";
  rollback_context = text "12-run";
}

first-HasSuffix : HasSuffix first
unfolding isalnum
first-HasSuffix = (refl, refl)

version_file_name_roundtrip_example :
    (is_rollback_version_file_format (version_file_name first) (some (text "pod_disruption"))
      ≡ agrees (some (text "pod_disruption")) (text "pod_disruption"))
    × (get_rollback_timestamp (version_file_name first) ≡ 7)
version_file_name_roundtrip_example =
    version_file_name_roundtrip first (some (text "pod_disruption")) first-HasSuffix

abbrev registered : RollbackConfig
registered = record { auto = true; versions_directory = text "/tmp/v"; registered = true }

registers : register true (text "/tmp/v") new_config ≡ ok registered
unfolding register new_config
registers = refl

-- One context directory with both files.
abbrev directory : Text
directory = text "12-run"

abbrev path_of : Version → FilePath
path_of v = (directory, version_file_name v)

abbrev stored : Files Bool
stored = (directory, (version_file_name first, true) ∷ (version_file_name second, true) ∷ []) ∷ []

abbrev loaded : LoadedModule
loaded = record {
  members =
      record {
        name = text "rollback_pods";
        is_function = true;
        annotations = text "RollbackContent" ∷ text "KrknTelemetryOpenshift" ∷ [];
      }
      ∷ [];
  rollback_content = some (some (record { skip_kubernetes = false }));
}

-- Every file loads; the callable of `second` works, and that of `first` as `works` says.
abbrev world : Bool → World
world works = record {
  load = λ p. some loaded;
  call_returns = λ (p : FilePath). works || text_eq (p.1) (version_file_name second);
  rename_works = λ p. true;
  remove_works = λ p. true;
}

abbrev before : State Bool
before = record { files = some stored; calls = [] }

search-LatestFirst_example :
    let files =
      search_rollback_version_files
        (some (text "run"))
        (some (text "pod_disruption"))
        (some stored) in
    LatestFirst files
    × Perm files (pending (some (text "run")) (some (text "pod_disruption")) (some stored))
search-LatestFirst_example =
    search-LatestFirst (some (text "run")) (some (text "pod_disruption")) (some stored)

found_both :
    search_rollback_version_files (some (text "run")) (some (text "pod_disruption")) (some stored)
    ≡ path_of second ∷ path_of first ∷ []
unfolding search_rollback_version_files is_rollback_context_directory_format isdigit text_eq
    version_file_name ends_with decimal is_rollback_version_file_format split join drop_last isalnum
    get_rollback_timestamp digits_from
found_both = refl

never_fails : (p : FilePath) → failure (world true) p ≡ none
unfolding parse_rollback_module starts_with occurs
never_fails p = refl

second_works : failure (world false) (path_of second) ≡ none
unfolding parse_rollback_module starts_with occurs text_eq version_file_name decimal
second_works = refl

first_fails : failure (world false) (path_of first) ≡ some callable_failed
unfolding parse_rollback_module starts_with occurs text_eq version_file_name decimal
first_fails = refl

abbrev rollback_run : Bool → State Bool → Option Error × State Bool
rollback_run works =
    run (world works) true true (some (text "run")) (some (text "pod_disruption")) false

execute_rollback_version_files_works_example :
    let (failed, st') = rollback_run true before in
    (failed ≡ none)
    × (called (world true) st'
        ≡ []
          ++ search_rollback_version_files
              (some (text "run"))
              (some (text "pod_disruption"))
              (some stored))
    × (pending (some (text "run")) (some (text "pod_disruption")) (st'.files) ≡ [])
    × (rollback_run true st' ≡ (none, st'))
execute_rollback_version_files_works_example =
    execute_rollback_version_files_works (world true) true true (some (text "run"))
      (some (text "pod_disruption")) false before refl (All-intro _ never_fails _)

execute_rollback_version_files_stops_example :
    let (failed, st') = rollback_run false before in
    (failed ≡ some callable_failed)
    × (pending (some (text "run")) (some (text "pod_disruption")) (st'.files)
        ≡ outside
            (path_of second ∷ [])
            (pending (some (text "run")) (some (text "pod_disruption")) (some stored)))
execute_rollback_version_files_stops_example =
    execute_rollback_version_files_stops (world false) true true (some (text "run"))
      (some (text "pod_disruption")) false before (path_of second ∷ []) (path_of first) [] refl
      found_both (second_works, tt) first_fails

cleanup_rollback_version_files_works_example :
    let (failed, st') =
      cleanup_rollback_version_files
        (world false)
        (some (text "run"))
        (some (text "pod_disruption"))
        before in
    (failed ≡ none)
    × (st'.calls ≡ [])
    × (pending (some (text "run")) (some (text "pod_disruption")) (st'.files) ≡ [])
    × (pending none none (st'.files)
        ≡ outside
            (search_rollback_version_files
              (some (text "run"))
              (some (text "pod_disruption"))
              (some stored))
            (pending none none (some stored)))
cleanup_rollback_version_files_works_example =
    cleanup_rollback_version_files_works (world false) (some (text "run"))
      (some (text "pod_disruption")) none none before (All-intro _ (λ p. refl) _)

abbrev loaded_once : Defaults
loaded_once = record { timestamp = 7; hash_suffix = text "abcd1234" }

abbrev handler : RollbackHandler
handler = record { scenario_type = text "pod_disruption"; context = some directory }

set_rollback_callable_replaces_example :
    set_rollback_callable loaded_once handler
      (some false)
      (set_rollback_callable loaded_once handler (some true) [])
    ≡ set_rollback_callable loaded_once handler (some false) []
set_rollback_callable_replaces_example =
    set_rollback_callable_replaces loaded_once handler true false []

abbrev running : SignalState
running = record {
  installed = true;
  originals = (2, callable) ∷ [];
  locked = false;
  context = record {
    run_uuid = some (text "run");
    scenario_type = some (text "pod");
    telemetry_ocp = true;
  };
  events = [];
}

abbrev idle : SignalState
idle = record running {
  context = record { run_uuid = none; scenario_type = none; telemetry_ocp = false };
}

deliver_once_example :
    let st' = deliver ((2, true) ∷ (15, false) ∷ []) running in
    (rollbacks st' ≡ suc (rollbacks running)) × (st'.locked ≡ false)
deliver_once_example = deliver_once 2 true ((15, false) ∷ []) running refl refl

abbrev installs : ℕ → Option Original
installs signum = some sig_dfl

-- A scenario that a signal interrupts.
abbrev interrupted : SignalState → Bool × SignalState
interrupted st = let (after, raised) = signal_handler true 2 st in (raised, after)

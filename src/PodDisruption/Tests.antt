-- ===== src/PodDisruption/Tests.antt =====
-- Runs of krkn/scenario_plugins/pod_disruption: two pods of three are chosen, one of which is excluded.
use krkn.Base.{ℕ, suc, ◌≡◌, refl, true, false, none, some, List, [], ◌∷◌, if◌then◌else◌, ltb, arith}
use krkn.Base.Text.{Text, text, text_eq, contains}
use krkn.PodDisruption.{
  Pod, RawParams, InputParams, input_params, Outside, KillState, stuck, candidates, excluded_pods,
  wait_for_pods, killing_pods,
}
use krkn.PodDisruption.Laws.{Deletes, NotExcluded, killing_pods_safe}
use krkn.PodDisruption.Wait.{NotStuck, wait_for_pods_ends, long_timeout_waits_forever}
use krkn.PodDisruption.Plugin.{run}
use krkn.PodDisruption.Plugin.Codes.{AllPass, run_succeeds}

abbrev pod : Text → Pod
pod name = record { name = name; namespace = text "ns" }

abbrev three : List Pod
three = pod (text "a") ∷ pod (text "b") ∷ pod (text "c") ∷ []

-- A cluster where one label selects three pods and another excludes one; the world is the time.
abbrev outside : Outside
outside = record {
  W = ℕ;
  select_by_label = λ label namespace field_selector w.
      some (if text_eq label (text "app") then three else pod (text "b") ∷ []);
  select_by_name = λ name namespace field_selector w. some [];
  list_nodes = λ label w. some [];
  delete_pod = λ p grace_period_zero w. (true, w);
  shuffle = λ pods w. pods;
  interleaving = λ pods w. pods;
  now = λ w. w;
  sleep = λ seconds w. suc w;
}

abbrev raw : RawParams
raw = record {
  kill = some 2;
  timeout = none;
  duration = none;
  execution = some (text "parallel");
  krkn_pod_recovery_time = none;
  label_selector = some (text "app");
  namespace_pattern = some (text "ns");
  name_pattern = none;
  node_label_selector = none;
  node_names = none;
  exclude_label = some (text "keep");
  force = none;
}

abbrev config : InputParams
config = record {
  kill = 2;
  timeout = 120;
  duration = 10;
  parallel = true;
  krkn_pod_recovery_time = 120;
  label_selector = text "app";
  namespace_pattern = text "ns";
  name_pattern = [];
  node_label_selector = [];
  node_names = [];
  exclude_label = text "keep";
  force = false;
}

abbrev fresh : KillState ℕ
fresh = record { world = 0; deletions = [] }

abbrev InNamespace : Pod → Type 0
InNamespace p = p.namespace ≡ text "ns"

killing_pods_safe_example :
    Deletes outside
      (NotExcluded (pod (text "b") ∷ []) InNamespace)
      (if ltb 3 2 then 0 else 2)
      fresh
      (killing_pods outside 5 config fresh).1
unfolding candidates excluded_pods text_eq
killing_pods_safe_example =
    killing_pods_safe outside 5 config three (pod (text "b") ∷ []) InNamespace fresh
      (λ xs. (refl, λ P h. h)) (λ xs. (refl, λ P h. h)) refl refl (refl, (refl, (refl, tt)))

wait_for_pods_ends_example : NotStuck (wait_for_pods outside 121 config 4 7).0
wait_for_pods_ends_example = wait_for_pods_ends outside config 4 7 (λ w. (omega arith, omega arith))

long_timeout_waits_forever_example :
    (wait_for_pods outside 9 (record config { timeout = 90000 }) 4 7).0 ≡ stuck
unfolding candidates text_eq
long_timeout_waits_forever_example =
    long_timeout_waits_forever outside 9 (record config { timeout = 90000 }) 4 7 (omega arith)
      (λ w. (three, refl, refl))

run_succeeds_example : AllPass outside (λ c w. 0) 5 (raw ∷ []) fresh
unfolding run candidates text_eq input_params killing_pods contains
run_succeeds_example = run_succeeds outside (λ c w. 0) 5 (raw ∷ []) fresh refl

-- ===== src/PodDisruption.antt =====
-- krkn/scenario_plugins/pod_disruption: which pods a scenario deletes, and how it waits for them. The
-- Kubernetes client, the monitor of recoveries, the shuffle and the clock are parameters. Times are seconds.
pub mod Laws
pub mod Wait
pub mod Killed
pub mod Plugin
mod Tests
use krkn.Base.{
  ℕ, zero, suc, ◌+◌, ◌-◌, ◌%◌, ◌==◌, Bool, true, false, not, ◌&&◌, ◌||◌, Option, none, some, List,
  [], ◌∷◌, ◌++◌, map, keep, take, length, if◌then◌else◌, is_empty, ltb,
}
use krkn.Base.Text.{Text, text, text_eq, contains}
use krkn.Base.Result.{Result, ok, err}

-- The name and the namespace of a pod.
pub record Pod : Type 0 where
  pub name : Text
  pub namespace : Text

-- The configuration as it is read: a missing key is `none`, and `force` may be no boolean.
pub record RawParams : Type 0 where
  pub kill : Option ℕ
  pub timeout : Option ℕ
  pub duration : Option ℕ
  pub execution : Option Text
  pub krkn_pod_recovery_time : Option ℕ
  pub label_selector : Option Text
  pub namespace_pattern : Option Text
  pub name_pattern : Option Text
  pub node_label_selector : Option Text
  pub node_names : Option (List Text)
  pub exclude_label : Option Text
  pub force : Option (Option Bool)

pub record InputParams : Type 0 where
  pub kill : ℕ
  pub timeout : ℕ
  pub duration : ℕ
  pub parallel : Bool
  pub krkn_pod_recovery_time : ℕ
  pub label_selector : Text
  pub namespace_pattern : Text
  pub name_pattern : Text
  pub node_label_selector : Text
  pub node_names : List Text
  pub exclude_label : Text
  pub force : Bool

pub data ParamsError : Type 0 where
  unknown_execution force_type : ParamsError

abbrev pub or_default {ℓ} : {A : Type ℓ} → A → Option A → A
or_default d none = d
or_default d (some x) = x

unfoldable pub with_force : RawParams → Bool → Result ParamsError InputParams
with_force raw parallel = elim (or_default (some false) raw.force) [
  | none ↦ err force_type
  | some force ↦ ok (record {
    kill = or_default 1 raw.kill;
    timeout = or_default 120 raw.timeout;
    duration = or_default 10 raw.duration;
    parallel = parallel;
    krkn_pod_recovery_time = or_default 120 raw.krkn_pod_recovery_time;
    label_selector = or_default [] raw.label_selector;
    namespace_pattern = or_default [] raw.namespace_pattern;
    name_pattern = or_default [] raw.name_pattern;
    node_label_selector = or_default [] raw.node_label_selector;
    node_names = or_default [] raw.node_names;
    exclude_label = or_default [] raw.exclude_label;
    force = force;
  })
]

-- `InputParams(config)`
unfoldable pub input_params : RawParams → Result ParamsError InputParams
unfolding with_force
input_params raw =
    let execution = or_default (text "serial") raw.execution in
    if text_eq execution (text "serial")
    then with_force raw false
    else if text_eq execution (text "parallel")
    then with_force raw true
    else err unknown_execution

-- The client: `none` and `false` are exceptions. `shuffle` is `random.shuffle`, and `interleaving` the order in
-- which the threads of a pool reach the server.
pub record Outside : Type 1 where
  pub W : Type 0
  pub select_by_label : (label namespace field_selector : Text) → W → Option (List Pod)
  pub select_by_name : (name namespace field_selector : Text) → W → Option (List Pod)
  pub list_nodes : Text → W → Option (List Text)
  pub delete_pod : Pod → (grace_period_zero : Bool) → W → Bool × W
  pub shuffle : List Pod → W → List Pod
  pub interleaving : List Pod → W → List Pod
  pub now : W → ℕ
  pub sleep : ℕ → W → W

-- The pods that were deleted, in order, with the world.
pub record KillState (W : Type 0) : Type 0 where
  pub world : W
  pub deletions : List Pod

-- How a call ends: it returns, it raises, or its fuel runs out.
pub data Outcome : Type 0 where
  returns : ℕ → Outcome
  raises : Outcome
  stuck : Outcome

abbrev running : Text
running = text "status.phase=Running"

-- The field selector of a node.
unfoldable pub on_node : Text → Text → Text
on_node field_selector node_name =
    if is_empty node_name
    then field_selector
    else if is_empty field_selector
    then text "spec.nodeName=" ++ node_name
    else field_selector ++ text ",spec.nodeName=" ++ node_name

-- `pod[0] in exclude_pods`
unfoldable pub is_excluded : List Pod → Pod → Bool
is_excluded exclude pod = contains pod.name (map (λ (p : Pod). p.name) exclude)

-- The first `kill` pods of the shuffled list, without the excluded ones.
unfoldable pub pods_to_kill : ℕ → List Pod → List Pod → List Pod
unfolding is_excluded
pods_to_kill kill exclude pods = keep (λ p. not (is_excluded exclude p)) (take kill pods)

-- `time_diff.seconds` leaves out whole days.
unfoldable pub seconds_of : ℕ → ℕ
seconds_of elapsed = elapsed % 86400

module _ (outside : Outside) where
  open outside use {W, delete_pod, shuffle, interleaving, now, sleep}

  -- `_select_pods_with_field_selector`
  unfoldable pub select_pods :
      (name_pattern label_selector namespace field_selector node_name : Text)
      → W
      → Option (List Pod)
  unfolding on_node
  select_pods name_pattern label_selector namespace field_selector node_name w =
      let combined = on_node field_selector node_name in
      if is_empty label_selector
      then outside.select_by_name name_pattern namespace combined w
      else outside.select_by_label label_selector namespace combined w

  -- The pods of several nodes, one after the other.
  unfoldable pub select_on_nodes :
      (name_pattern label_selector namespace field_selector : Text)
      → List Text
      → W
      → Option (List Pod)
  unfolding select_pods
  select_on_nodes name label namespace field [] w = some []
  select_on_nodes name label namespace field (node ∷ nodes) w =
      let rest = select_on_nodes name label namespace field nodes w in
      elim (select_pods name label namespace field node w) [
        | none ↦ none
        | some pods ↦ elim rest [ none ↦ none | some more ↦ some (pods ++ more) ]
      ]

  unfoldable pub get_pods :
      (name_pattern label_selector namespace node_label_selector : Text)
      → List Text
      → W
      → Option (List Pod)
  unfolding select_on_nodes
  get_pods name_pattern label_selector namespace node_label_selector node_names w =
      if not (is_empty label_selector) && not (is_empty name_pattern)
      then some []
      else if is_empty label_selector && is_empty name_pattern
      then some []
      else if not (is_empty node_names)
      then select_on_nodes name_pattern label_selector namespace running node_names w
      else if not (is_empty node_label_selector)
      then elim (outside.list_nodes node_label_selector w) [
        | none ↦ none
        | some nodes ↦ select_on_nodes name_pattern label_selector namespace running nodes w
      ]
      else select_pods name_pattern label_selector namespace running [] w

  -- The pods of the configuration, and those of its label to leave out.
  unfoldable pub candidates : InputParams → W → Option (List Pod)
  unfolding get_pods
  candidates config w =
      get_pods config.name_pattern config.label_selector config.namespace_pattern
        config.node_label_selector config.node_names w

  unfoldable pub excluded_pods : InputParams → W → Option (List Pod)
  unfolding get_pods
  excluded_pods config w =
      if is_empty config.exclude_label
      then some []
      else get_pods [] config.exclude_label config.namespace_pattern config.node_label_selector
          config.node_names w

  unfoldable pub delete_one : Bool → Pod → KillState W → Bool × KillState W
  delete_one force pod st =
      let (works, w1) = delete_pod pod force st.world in
      (works, record { world = w1; deletions = st.deletions ++ pod ∷ [] })

  -- Serial deletion: the first exception ends it.
  unfoldable pub delete_serial : Bool → List Pod → KillState W → Bool × KillState W
  unfolding delete_one
  delete_serial force [] st = (true, st)
  delete_serial force (pod ∷ pods) st =
      let (works, st1) = delete_one force pod st in
      let rest = delete_serial force pods st1 in if works then rest else (false, st1)

  -- `_delete_pods_parallel`: every pod is tried, and any exception is raised at the end.
  unfoldable pub delete_all : Bool → List Pod → KillState W → Bool × KillState W
  unfolding delete_one
  delete_all force [] st = (true, st)
  delete_all force (pod ∷ pods) st =
      let (works, st1) = delete_one force pod st in
      let (others, st2) = delete_all force pods st1 in (works && others, st2)

  unfoldable pub delete_pods : InputParams → List Pod → KillState W → Bool × KillState W
  unfolding delete_serial delete_all
  delete_pods config pods st =
      if config.parallel
      then delete_all config.force (interleaving pods st.world) st
      else delete_serial config.force pods st

  -- The loop of `wait_for_pods`.
  unfoldable pub wait_loop : (fuel start : ℕ) → InputParams → ℕ → W → Outcome × W
  unfolding candidates seconds_of
  wait_loop zero start config pod_count w = (stuck, w)
  wait_loop (suc fuel) start config pod_count w =
      let slept = sleep config.duration w in
      let again = wait_loop fuel start config pod_count slept in
      elim (candidates config w) [
        | none ↦ (raises, w)
        | some pods ↦
            if pod_count == length pods
            then (returns 0, w)
            else if ltb config.timeout (seconds_of (now slept - start))
            then (returns 1, slept)
            else again
      ]

  unfoldable pub wait_for_pods : ℕ → InputParams → ℕ → W → Outcome × W
  unfolding wait_loop
  wait_for_pods fuel config pod_count w = wait_loop fuel (now w) config pod_count w

  -- The deletion and the wait of `killing_pods`.
  unfoldable pub kill_and_wait :
      ℕ → InputParams → List Pod → List Pod → KillState W → Outcome × KillState W
  unfolding pods_to_kill delete_pods wait_for_pods
  kill_and_wait fuel config pods exclude st =
      let chosen = pods_to_kill config.kill exclude (shuffle pods st.world) in
      let (works, st1) = delete_pods config chosen st in
      let (outcome, w1) = wait_for_pods fuel config (length pods) st1.world in
      if works then (outcome, record st1 { world = w1 }) else (raises, st1)

  unfoldable pub killing_pods : ℕ → InputParams → KillState W → Outcome × KillState W
  unfolding candidates excluded_pods kill_and_wait
  killing_pods fuel config st = elim (candidates config st.world) [
    | none ↦ (raises, st)
    | some pods ↦ elim (excluded_pods config st.world) [
      | none ↦ (raises, st)
      | some exclude ↦
          if ltb (length pods) config.kill
          then (returns 1, st)
          else kill_and_wait fuel config pods exclude st
    ]
  ]

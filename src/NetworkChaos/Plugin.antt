-- ===== src/NetworkChaos/Plugin.antt =====
-- krkn/scenario_plugins/network_chaos_ng/network_chaos_ng_scenario_plugin.py: `run` of the plugin. The modules,
-- the random sample and the sleep are parameters; the threads of a parallel run are their order.
pub mod Laws
use krkn.Base.{
  ℕ, zero, suc, Bool, true, false, not, ◌&&◌, Option, none, some, List, [], ◌∷◌, ◌++◌, length,
  if◌then◌else◌, is_empty, ltb,
}
use krkn.Base.Int.{ℤ, pos, negsuc}
use krkn.Base.Text.{Text, text, text_eq}
use krkn.Base.Dict.{Dict}
use krkn.Base.Result.{Result, ok, err}
use krkn.NetworkChaos.{
  Value, nothing, truth, int, word, words, numbers, get, is_one_of, is_negative,
}
use krkn.NetworkChaos.Factory.{Module, FactoryError, get_instance}

-- `get_targets` returns or raises. A module run on a target says whether it raised and what it put into the
-- queue of errors, if it has one.
pub record Outside : Type 1 where
  pub W : Type 0
  pub get_targets : Module → W → Option (List Text) × W
  pub run_module : (queue : Bool) → Module → Text → W → Bool × List Text × W
  pub sample : ℕ → List Text → W → List Text × W
  pub sleep : ℕ → W → W

-- What the file of a scenario holds: it does not load, it holds no list, or it is a list of dicts.
pub data ScenarioFile : Type 0 where
  unreadable not_a_list : ScenarioFile
  configs : List (Dict Value) → ScenarioFile

pub record Attempt : Type 0 where
  pub chaos : Module
  pub target : Text

-- The attempts, the first of them first, and the world.
pub record ChaosState (W : Type 0) : Type 0 where
  pub attempts : List Attempt
  pub world : W

-- A number that is compared with lengths; `validate` has left integers only.
unfoldable pub count_of : Value → ℕ
count_of (int (pos n)) = n
count_of (truth true) = 1
count_of (int (negsuc n)) = 0
count_of (truth false) = 0
count_of nothing = 0
count_of (word s) = 0
count_of (words ws) = 0
count_of (numbers ns) = 0

module _ (outside : Outside) where
  open outside use {W, get_targets, run_module, sample, sleep}

  abbrev pub attempted : Module → Text → W → ChaosState W → ChaosState W
  attempted m target w st = record {
    attempts = st.attempts ++ record { chaos = m; target = target } ∷ [];
    world = w;
  }

  -- `run_serial`: whether no module raised, up to the first that does.
  unfoldable pub run_serial : Module → List Text → ChaosState W → Bool × ChaosState W
  run_serial m [] st = (true, st)
  run_serial m (target ∷ targets) st =
      let (raised, errors, w) = run_module false m target st.world in
      let st1 = attempted m target w st in
      let rest = run_serial m targets st1 in if raised then (false, st1) else rest

  -- The threads of `run_parallel` and what they put into the queue. An exception ends its thread only.
  unfoldable pub run_threads : Module → List Text → ChaosState W → List Text × ChaosState W
  run_threads m [] st = ([], st)
  run_threads m (target ∷ targets) st =
      let (raised, errors, w) = run_module true m target st.world in
      let (more, st1) = run_threads m targets (attempted m target w st) in (errors ++ more, st1)

  -- `run_parallel`: whether the queue stayed empty.
  unfoldable pub run_parallel : Module → List Text → ChaosState W → Bool × ChaosState W
  unfolding run_threads
  run_parallel m targets st = let (errors, st1) = run_threads m targets st in (is_empty errors, st1)

  -- The targets that are taken.
  unfoldable pub choose : ℕ → List Text → W → List Text × W
  choose instance_count targets w =
      if ltb 0 instance_count && ltb instance_count (length targets)
      then sample instance_count targets w
      else (targets, w)

  -- `time.sleep` raises on a negative number.
  unfoldable pub wait : Bool → Value → ChaosState W → Bool × ChaosState W
  unfolding is_negative count_of
  wait several v st =
      if not several
      then (true, st)
      else if is_negative v
      then (false, st)
      else (true, record st { world = sleep (count_of v) st.world })

  unfoldable pub run_targets : Module → List Text → ChaosState W → Bool × ChaosState W
  unfolding is_one_of run_serial run_parallel
  run_targets m targets st =
      if is_one_of (text "parallel" ∷ []) (get (text "execution") nothing m.config)
      then run_parallel m targets st
      else run_serial m targets st

  -- The loop's body on a module; whether no exception was raised.
  unfoldable pub run_chaos : Bool → Module → ChaosState W → Bool × ChaosState W
  unfolding choose wait run_targets
  run_chaos several m st =
      let (found, w) = get_targets m st.world in
      elim found [
        | none ↦ (false, record st { world = w })
        | some targets ↦
            let (chosen, w1) =
              choose (count_of (get (text "instance_count") nothing m.config)) targets w in
            let (worked, st1) = run_targets m chosen (record st { world = w1 }) in
            let waited = wait several (get (text "wait_duration") nothing m.config) st1 in
            if worked then waited else (false, st1)
      ]

  unfoldable pub run_config : Bool → Dict Value → ChaosState W → Bool × ChaosState W
  unfolding run_chaos
  run_config several config st = elim (get_instance config) [
    | err e ↦ (false, st)
    | ok m ↦ run_chaos several m st
  ]

  unfoldable pub run_configs : Bool → List (Dict Value) → ChaosState W → Bool × ChaosState W
  unfolding run_config
  run_configs several [] st = (true, st)
  run_configs several (config ∷ more) st =
      let (worked, st1) = run_config several config st in
      let rest = run_configs several more st1 in if worked then rest else (false, st1)

  -- `run`: an exception is caught and gives 1.
  unfoldable pub run : ScenarioFile → ChaosState W → ℕ × ChaosState W
  unfolding run_configs
  run unreadable st = (1, st)
  run not_a_list st = (1, st)
  run (configs cs) st =
      let (worked, st1) = run_configs (ltb 1 (length cs)) cs st in (if worked then 0 else 1, st1)

-- ===== src/Runner/Laws.antt =====
-- krkn/scenario_plugins/abstract_scenario_plugin.py: what the runner reports, and what it leaves
-- behind.
use krkn.Base.{
  ◌≡◌, refl, ap, ◌∙◌, Bool, true, false, not, Option, none, some, List, [], ◌∷◌, ◌++◌, map, keep,
  All-intro, if◌then◌else◌, Bool-cases, Option-cases, inl, inr,
}
use krkn.Base.Int.{ℤ, is_zero}
use krkn.Base.Text.{Text}
use krkn.Base.Result.{Result, ok, err, Result-cases}
use krkn.Rollback.Files.{FilePath, search_rollback_version_files}
use krkn.Rollback.Handler.{Error, Call, State}
use krkn.Rollback.Handler.Execution.{failure, called, pending}
use krkn.Rollback.Handler.Outcome.{
  execute_rollback_version_files_works, cleanup_rollback_version_files_works,
}
use krkn.Runner.{
  Entry, file, sub_list, ScenarioTelemetry, RunState, Plugin, return_value, after_run, telemetry_of,
  run_one, add_result, add_to, run_scenarios,
}

-- The scenario files before the first sub-list, and that sub-list.
abbrev pub files_before : List Entry → List Text
files_before [] = []
files_before (sub_list l ∷ entries) = []
files_before (file scenario ∷ entries) = scenario ∷ files_before entries

abbrev pub first_sub_list : List Entry → List Entry
first_sub_list [] = []
first_sub_list (sub_list l ∷ entries) = sub_list l ∷ []
first_sub_list (file scenario ∷ entries) = first_sub_list entries

abbrev pub not_zero : ScenarioTelemetry → Bool
not_zero tel = not (is_zero tel.exit_status)

-- What the two lists of a runner that returns are like.
abbrev pub Reported : List Entry → List Entry × List ScenarioTelemetry → Type 0
Reported entries r =
    (map (λ (tel : ScenarioTelemetry). tel.scenario) r.1 ≡ files_before entries)
    × (r.0
        ≡ map (λ (tel : ScenarioTelemetry). file tel.scenario) (keep not_zero r.1)
          ++ first_sub_list entries)

module _ {C : Type 0} (plugin : Plugin C) (run_uuid : Text) where
  Names : Text → Result Error ScenarioTelemetry → Type 0
  Names scenario (ok tel) = tel.scenario ≡ scenario
  Names scenario (err e) = Unit

  IfReported : List Entry → Result Error (List Entry × List ScenarioTelemetry) → Type 0
  IfReported entries (ok lists) = Reported entries lists
  IfReported entries (err e) = Unit

  -- The exception of the cleanup or rollback after a scenario.
  abbrev settled_error : Text → RunState C → Option Error
  settled_error scenario st =
      (after_run plugin run_uuid
        (return_value plugin run_uuid (plugin.run run_uuid scenario st.store).0)
        (plugin.run run_uuid scenario st.store).1).0

  run_one-Names :
      (scenario : Text) (st : RunState C) → Names scenario (run_one plugin run_uuid scenario st).0
  unfolding run_one telemetry_of Names
  run_one-Names scenario st = elim (Bool-cases (plugin.exists scenario)) [
    | inr e ↦ rw (run_one, e) refl
    | inl e ↦ elim (Option-cases (settled_error scenario st)) [
      | inl f ↦ rw (run_one, e, f) refl
      | inr (x, f) ↦ rw (run_one, e, f) tt
    ]
  ]

  Reported-add :
      (scenario : Text) (entries : List Entry) (tel : ScenarioTelemetry)
      (lists : List Entry × List ScenarioTelemetry)
      → tel.scenario ≡ scenario
      → Reported entries lists
      → Reported (file scenario ∷ entries) (add_result plugin run_uuid tel lists)
  unfolding add_result
  Reported-add scenario entries tel lists e (h, k) = elim (Bool-cases (is_zero tel.exit_status)) [
    | inl z ↦ rw z (
      ap (λ (t : Text). t ∷ map (λ (x : ScenarioTelemetry). x.scenario) lists.1) e
          ∙ ap (λ (ts : List Text). scenario ∷ ts) h,
      k,
    )
    | inr z ↦ rw z (
      ap (λ (t : Text). t ∷ map (λ (x : ScenarioTelemetry). x.scenario) lists.1) e
          ∙ ap (λ (ts : List Text). scenario ∷ ts) h,
      ap (λ (l : List Entry). file tel.scenario ∷ l) k,
    )
  ]

  add_to-IfReported :
      (scenario : Text) (entries : List Entry) (tel : ScenarioTelemetry)
      (rest : Result Error (List Entry × List ScenarioTelemetry))
      → tel.scenario ≡ scenario
      → IfReported entries rest
      → IfReported (file scenario ∷ entries) (add_to plugin run_uuid tel rest)
  unfolding IfReported
  add_to-IfReported scenario entries tel (ok lists) e h =
      Reported-add scenario entries tel lists e h
  add_to-IfReported scenario entries tel (err x) e h = tt

  run_scenarios-IfReported :
      (entries : List Entry) (st : RunState C)
      → IfReported entries (run_scenarios plugin run_uuid entries st).0
  unfolding run_scenarios IfReported Names
  run_scenarios-IfReported [] st = (refl, refl)
  run_scenarios-IfReported (sub_list l ∷ entries) st = (refl, refl)
  run_scenarios-IfReported (file scenario ∷ entries) st =
      elim (Result-cases (run_one plugin run_uuid scenario st).0) [
        | inr (x, e) ↦ rw (run_scenarios, e) tt
        | inl (tel, e) ↦
            rw (run_scenarios, e)
              (add_to-IfReported scenario entries tel _ (rw e at (run_one-Names scenario st))
                (run_scenarios-IfReported entries (run_one plugin run_uuid scenario st).1))
      ]

  -- A runner that returns reports one telemetry for each scenario file before the first sub-list, in
  -- order, and as failed exactly those whose exit status is not 0, followed by that sub-list.
  pub run_scenarios-Reported :
      (entries : List Entry) (st : RunState C) (lists : List Entry × List ScenarioTelemetry)
      → (run_scenarios plugin run_uuid entries st).0 ≡ ok lists
      → Reported entries lists
  unfolding IfReported
  run_scenarios-Reported entries st lists h = rw h at (run_scenarios-IfReported entries st)

  -- Where rollback is enabled and every callable and every removal works, a scenario leaves no
  -- version file of its own, whatever its exit status, and nothing is raised. After the status 0 no callable is
  -- called; after any other, those of the search are, in its order.
  pub after_run_clean :
      (value : ℤ) (st : State C)
      → plugin.auto ≡ true
      → ((p : FilePath) → failure plugin.world p ≡ none)
      → ((p : FilePath) → plugin.world.remove_works p ≡ true)
      → ((after_run plugin run_uuid value st).0 ≡ none)
        × (pending
              (some run_uuid)
              (some plugin.scenario_type)
              (after_run plugin run_uuid value st).1.files
            ≡ [])
        × (called plugin.world (after_run plugin run_uuid value st).1 ≡ (
            if is_zero value
            then called plugin.world st
            else called plugin.world st
              ++ search_rollback_version_files
                  (some run_uuid)
                  (some plugin.scenario_type)
                  st.files))
  unfolding after_run
  after_run_clean value st a f r = elim (Bool-cases (is_zero value)) [
    | inl z ↦
        let (failed, calls, left, _) =
          cleanup_rollback_version_files_works plugin.world (some run_uuid)
            (some plugin.scenario_type) none none st (All-intro _ r _) in
        rw (after_run, z) (failed, left, ap (map (λ (x : Call). x.path)) calls)
    | inr z ↦
        let (failed, calls, left, _) =
          execute_rollback_version_files_works plugin.world plugin.auto plugin.telemetry
            (some run_uuid) (some plugin.scenario_type) false st a (All-intro _ f _) in
        rw (after_run, z) (failed, left, calls)
  ]

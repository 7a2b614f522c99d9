-- ===== src/VmOutage/Plugin.antt =====
-- krkn/scenario_plugins/kubevirt_vm_outage: `execute_scenario` and `run`.
use krkn.Base.{
  ℕ, zero, suc, ◌+◌, Bool, true, false, not, ◌||◌, Option, none, some, List, [], ◌∷◌, ◌++◌, length,
  if◌then◌else◌, is_empty,
}
use krkn.Base.Text.{Text, text, text_eq}
use krkn.VmOutage.{
  Vmi, AffectedVmi, VmisStatus, Outside, Outcome, returns, raises, stuck, validate_environment,
  unrecovered_more, delete_vmi, wait_for_running,
}

-- A scenario of the file; `none` is a name or a selector that is not set or empty.
pub record Config : Type 0 where
  pub scenario : Text
  pub vm_name : Option Text
  pub label_selector : Option Text
  pub namespace : Text
  pub timeout : ℕ
  pub kill_count : ℕ
  pub disable_auto_restart : Bool

abbrev pub no_status : VmisStatus
no_status = record { recovered = []; unrecovered = [] }

-- The element at an index, where there is one.
abbrev pub element : ℕ → List Vmi → Option Vmi
element n [] = none
element zero (vmi ∷ vmis) = some vmi
element (suc n) (vmi ∷ vmis) = element n vmis

-- After the wait: the machine is recovered, it is not, or the wait raised.
unfoldable pub after_running : Outcome (Option ℕ) → AffectedVmi → VmisStatus → Outcome VmisStatus
after_running (returns (some time)) a st = returns (record st {
  recovered =
      st.recovered
      ++ record a {
        vmi_readiness_time = time;
        total_recovery_time = time + a.vmi_rescheduling_time;
      }
        ∷ [];
})
after_running (returns none) a st = returns (unrecovered_more a st)
after_running raises a st = raises
after_running stuck a st = stuck

abbrev pub name_regex : Option Text → Text
name_regex none = text ".*"
name_regex (some vm_name) = vm_name

abbrev pub is_targeted : Config → Bool
is_targeted config = elim config.vm_name [
  | some vm_name ↦ true
  | none ↦ elim config.label_selector [ some selector ↦ true | none ↦ false ]
]

-- `merge` of the library adds the lists.
abbrev pub merge : VmisStatus → VmisStatus → VmisStatus
merge st more = record {
  recovered = st.recovered ++ more.recovered;
  unrecovered = st.unrecovered ++ more.unrecovered;
}

module _ (outside : Outside) where
  open outside use {W, get_vmis, get_vmi, randint, now}

  -- A machine from its deletion on.
  unfoldable pub outage :
      ℕ
      → Config
      → (original : Vmi) → AffectedVmi
      → VmisStatus
      → W
      → Outcome VmisStatus × VmisStatus × W
  unfolding delete_vmi wait_for_running after_running
  outage fuel config original a st w =
      let (deleted, st1, w1) =
        delete_vmi outside fuel config.disable_auto_restart original a st w in
      elim deleted [
        | stuck ↦ (stuck, st1, w1)
        | raises ↦ (raises, st1, w1)
        | returns none ↦ (returns (unrecovered_more a st1), st1, w1)
        | returns (some a1) ↦
            let (ran, w2) =
              wait_for_running outside fuel config.timeout (now w1) a.vmi_name a.namespace w1 in
            (after_running ran a1 st1, st1, w2)
      ]

  -- One round of the loop over `kill_count`, with the status that an exception leaves.
  unfoldable pub kill_one : ℕ → Config → Vmi → VmisStatus → W → Outcome VmisStatus × VmisStatus × W
  unfolding outage validate_environment
  kill_one fuel config chosen st w =
      let a : AffectedVmi = record {
        vmi_name = chosen.name;
        namespace = chosen.namespace;
        vmi_rescheduling_time = 0;
        vmi_readiness_time = 0;
        total_recovery_time = 0;
      } in
      if not (validate_environment outside chosen.name chosen.namespace w)
      then (returns (unrecovered_more a st), st, w)
      else elim (get_vmi chosen.name chosen.namespace w) [
        | none ↦ (raises, st, w)
        | some none ↦ (returns (unrecovered_more a st), st, w)
        | some (some original) ↦ outage fuel config original a st w
      ]

  -- `vmis_list[random.randint(0, len(vmis_list) - 1)]`, in every round of the same list. An exception ends
  -- the loop, with the status as it is then.
  unfoldable pub kill_loop : ℕ → ℕ → Config → List Vmi → VmisStatus → W → Outcome VmisStatus × W
  unfolding kill_one
  kill_loop fuel zero config vmis st w = (returns st, w)
  kill_loop fuel (suc rounds) config vmis st w =
      let (index, w1) = randint (length vmis) w in
      elim (element index vmis) [
        | none ↦ (returns st, w1)
        | some chosen ↦
            let (killed, left, w2) = kill_one fuel config chosen st w1 in
            elim killed [
              | stuck ↦ (stuck, w2)
              | raises ↦ (returns left, w2)
              | returns st1 ↦ kill_loop fuel rounds config vmis st1 w2
            ]
      ]

  -- The machines that a scenario may kill.
  unfoldable pub matching : Config → W → List Vmi
  matching config w =
      elim (get_vmis (name_regex config.vm_name) config.namespace config.label_selector w) [
        | none ↦ []
        | some vmis ↦ vmis
      ]

  -- `execute_scenario`: an empty status where nothing is targeted or found.
  unfoldable pub execute_scenario : ℕ → Config → W → Outcome VmisStatus × W
  unfolding kill_loop matching
  execute_scenario fuel config w =
      if not (is_targeted config) || is_empty (matching config w)
      then (returns no_status, w)
      else kill_loop fuel config.kill_count config (matching config w) no_status w

  unfoldable pub run_scenarios : ℕ → List Config → VmisStatus → W → Outcome VmisStatus × W
  unfolding execute_scenario
  run_scenarios fuel [] st w = (returns st, w)
  run_scenarios fuel (config ∷ more) st w =
      let (executed, w1) = execute_scenario fuel config w in
      let skipped = run_scenarios fuel more st w in
      if not (text_eq config.scenario (text "kubevirt_vm_outage")) then skipped else elim executed [
        | stuck ↦ (stuck, w1)
        | raises ↦ (raises, w1)
        | returns st1 ↦ run_scenarios fuel more (merge st st1) w1
      ]

  -- `run`; `none` is a file that does not load.
  unfoldable pub run : ℕ → Option (List Config) → W → Outcome ℕ × W
  unfolding run_scenarios
  run fuel none w = (returns 1, w)
  run fuel (some scenarios) w =
      let (outcome, w1) = run_scenarios fuel scenarios no_status w in
      (
        elim outcome [
          | stuck ↦ stuck
          | raises ↦ returns 1
          | returns st ↦ if is_empty st.unrecovered then returns 0 else returns 1
        ],
        w1,
      )

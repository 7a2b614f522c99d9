-- ===== src/VmOutage/Tests.antt =====
-- A run of krkn/scenario_plugins/kubevirt_vm_outage: one machine, which is there anew after some seconds.
use krkn.Base.{ℕ, suc, refl, true, false, none, some, [], ◌∷◌, if◌then◌else◌, ltb, arith}
use krkn.Base.Text.{text, text_eq}
use krkn.VmOutage.{Vmi, VmisStatus, Outside}
use krkn.VmOutage.Plugin.{Config, no_status, matching, execute_scenario, run}
use krkn.VmOutage.Rounds.{Rounds, execute_scenario-Rounds}
use krkn.VmOutage.Ending.{IsCode, run_ends}

abbrev machine : ℕ → Vmi
machine w = record {
  name = text "vm";
  namespace = text "ns";
  creation_timestamp = if ltb w 3 then text "old" else text "new";
  phase = text "Running";
}

abbrev outside : Outside
outside = record {
  W = ℕ;
  get_vmis = λ name_regex namespace label_selector w. some (machine w ∷ []);
  get_vms = λ name namespace w. some (text "vm" ∷ []);
  get_vmi = λ name namespace w. some (some (machine w));
  patch_vm = λ name namespace running w. (true, w);
  delete = λ name namespace w. (true, suc w);
  randint = λ n w. (0, w);
  now = λ w. w;
  sleep = λ w. suc w;
}

abbrev config : Config
config = record {
  scenario = text "kubevirt_vm_outage";
  vm_name = some (text "vm");
  label_selector = none;
  namespace = text "ns";
  timeout = 60;
  kill_count = 1;
  disable_auto_restart = false;
}

abbrev reported : VmisStatus
reported = record {
  recovered =
      record {
        vmi_name = text "vm";
        namespace = text "ns";
        vmi_rescheduling_time = 3;
        vmi_readiness_time = 0;
        total_recovery_time = 3;
      }
      ∷ [];
  unrecovered = [];
}

execute_scenario-Rounds_example :
    Rounds outside 1 config (matching outside config 0) no_status 0 reported
unfolding execute_scenario text_eq matching
execute_scenario-Rounds_example =
    execute_scenario-Rounds outside 121 config 0 reported refl refl refl

run_ends_example : IsCode (run outside 121 (some (config ∷ [])) 0).0
run_ends_example =
    run_ends outside (λ w. omega arith, λ name namespace w. omega arith) 121 (config ∷ []) 0
      (omega arith) (omega arith, tt)

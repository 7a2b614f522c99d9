-- ===== src/HealthChecks/Virt/Thread.antt =====
-- krkn/health_checks/virt_health_check_plugin.py: the access to a machine, the loop of a thread over its
-- batch, and the checks after a run.
pub mod Laws
pub mod Samples
use krkn.Base.{
  ℕ, Bool, true, false, not, ◌&&◌, ◌||◌, Option, none, some, List, [], ◌∷◌, ◌++◌, any,
  if◌then◌else◌, is_empty, ltb, length,
}
use krkn.Base.Text.{Text, text, text_eq}
use krkn.Base.Dict.{Dict}
use krkn.HealthChecks.{HealthCheckPlugin, MainCall, apply_all, keeps_polling}
use krkn.HealthChecks.Virt.{
  Vm, Vmi, VirtConfig, Outside, Entry, status, check_type, VirtCheck, Tracking, track_vm, close_all,
}
use krkn.Base.Int.{pos}

-- Whether there is access, with a new address and a new node if there are any.
pub record Access : Type 0 where
  pub success : Bool
  pub new_ip_address : Text
  pub new_node_name : Text

-- A host to try, the address to try it with, and what success means.
pub record Attempt : Type 0 where
  pub applies : Bool
  pub host : Text
  pub found : Access

abbrev no_access : Access
no_access = record { success = false; new_ip_address = []; new_node_name = [] }

module _ (outside : Outside) where
  open outside use {W, virtctl, ssh, get_vmi, now, sleep}

  -- The attempts in their order, up to the first that succeeds.
  unfoldable pub try_hosts : Text → List Attempt → W → Access × W
  try_hosts ip [] w = (no_access, w)
  try_hosts ip (attempt ∷ attempts) w =
      let (works, w1) = ssh attempt.host ip w in
      if not attempt.applies
      then try_hosts ip attempts w
      else if works
      then (attempt.found, w1)
      else try_hosts ip attempts w1

  -- The address and the node where a machine is now.
  unfoldable pub location : Option Vmi → Option (Text × Text)
  location none = none
  location (some vmi) = elim vmi.interfaces [
    | [] ↦ some ([], vmi.node_name)
    | ip_address ∷ more ↦ some (ip_address, vmi.node_name)
  ]

  -- `check_disconnected_access`; `none` is an exception. The first command, whose output is only logged, is
  -- left out.
  unfoldable pub check_disconnected_access :
      VirtConfig → (ip_address worker_name vmi_name : Text) → W → Option Access × W
  unfolding try_hosts location
  check_disconnected_access config ip_address worker_name vmi_name w =
      let (works, w1) = ssh worker_name ip_address w in
      if works
      then (some (record { success = true; new_ip_address = []; new_node_name = [] }), w1)
      else elim (get_vmi vmi_name config.namespace w1) [
        | none ↦ (none, w1)
        | some vmi ↦ elim (location vmi) [
          | none ↦ (none, w1)
          | some (new_ip, new_node) ↦
              let (access, w2) =
                try_hosts new_ip
                  (record {
                    applies = not (text_eq new_ip ip_address);
                    host = worker_name;
                    found = record { success = true; new_ip_address = new_ip; new_node_name = [] };
                  }
                    ∷ record {
                      applies = not (text_eq new_node worker_name);
                      host = new_node;
                      found = record {
                        success = true;
                        new_ip_address = new_ip;
                        new_node_name = new_node;
                      };
                    }
                    ∷ record {
                      applies = not (is_empty config.ssh_node);
                      host = config.ssh_node;
                      found = record {
                        success = true;
                        new_ip_address = new_ip;
                        new_node_name = [];
                      };
                    }
                    ∷ [])
                  w1 in
              (some access, w2)
        ]
      ]

  -- `get_vm_access`
  unfoldable pub get_vm_access : Text → Text → W → Bool × W
  get_vm_access vm_name namespace w =
      let (first, w1) = virtctl vm_name namespace w in
      if first then (true, w1) else virtctl (text "vmi/" ++ vm_name) namespace w1

  -- The machine after it was found elsewhere for the first time.
  unfoldable pub moved : Access → Vm → Vm
  moved access vm = if not (is_empty vm.new_ip_address) then vm else record vm {
    new_ip_address =
        if not (is_empty access.new_ip_address) && not (text_eq vm.ip_address access.new_ip_address)
        then access.new_ip_address
        else vm.new_ip_address;
    node_name =
        if not (is_empty access.new_node_name) && not (text_eq vm.node_name access.new_node_name)
        then access.new_node_name
        else vm.node_name;
  }

  -- `_get_ssh_status`, where an exception counts as no access.
  unfoldable pub get_ssh_status : VirtConfig → Vm → W → Bool × Vm × W
  unfolding check_disconnected_access get_vm_access moved
  get_ssh_status config vm w =
      let (access, w1) = get_vm_access vm.vm_name vm.namespace w in
      let ip = if is_empty vm.new_ip_address then vm.ip_address else vm.new_ip_address in
      let (found, w2) = check_disconnected_access config ip vm.node_name vm.vm_name w in
      if not config.disconnected
      then (access, vm, w1)
      else elim found [ none ↦ (false, vm, w2) | some a ↦ (a.success, moved a vm, w2) ]

  -- `check_vmi_ready`
  unfoldable pub check_vmi_ready : Text → Text → W → Bool
  check_vmi_ready vmi_name namespace w = elim (get_vmi vmi_name namespace w) [
    | none ↦ false
    | some none ↦ false
    | some (some vmi) ↦
        text_eq vmi.phase (text "Running")
        && any (λ (c : Text × Text). text_eq c.0 (text "Ready") && text_eq c.1 (text "True"))
            vmi.conditions
  ]

  -- The checks of a machine: what `_make_tracker_entry` would make of them, and the machine after.
  unfoldable pub sample_vm : VirtConfig → Vm → W → Entry × Vm × W
  unfolding get_ssh_status check_vmi_ready
  sample_vm config vm w =
      let (access, vm1, w1) = get_ssh_status config vm w in
      (
        record {
          vm = vm1;
          ssh_status = access;
          ready = check_vmi_ready vm1.vm_name vm1.namespace w1;
          start_timestamp = now w1;
        },
        vm1,
        w1,
      )

  -- One pass over the batch.
  unfoldable pub check_batch : VirtConfig → List Vm → Tracking → W → List Vm × Tracking × W
  unfolding sample_vm track_vm
  check_batch config [] t w = ([], t, w)
  check_batch config (vm ∷ vms) t w =
      let (s, vm1, w1) = sample_vm config vm w in
      let (vms1, t1, w2) = check_batch config vms (track_vm config.only_failures s t) w1 in
      (vm1 ∷ vms1, t1, w2)

  -- The loop of a thread; `none` is a loop that still runs where the schedule ends.
  unfoldable pub batch_loop :
      List (List MainCall)
      → VirtConfig
      → HealthCheckPlugin
      → List Vm
      → Tracking
      → W
      → Option Tracking × W
  unfolding check_batch
  batch_loop [] config plugin vms t w = (none, w)
  batch_loop (calls ∷ schedule) config plugin vms t w =
      let plugin1 = apply_all calls plugin in
      let (vms1, t1, w1) = check_batch config vms t w in
      let rest = batch_loop schedule config plugin1 vms1 t1 (sleep config.interval w1) in
      if keeps_polling plugin1 then rest else (some t, w)

  -- `_run_virt_check_batch`: what the thread puts into the queue, if it ends.
  unfoldable pub run_virt_check_batch :
      List (List MainCall)
      → VirtConfig
      → HealthCheckPlugin
      → List Vm
      → W
      → Option (List VirtCheck) × W
  unfolding batch_loop close_all
  run_virt_check_batch schedule config plugin vms w =
      let (ended, w1) =
        batch_loop schedule config plugin vms (record { tracker = []; telemetry = [] }) w in
      (
        elim ended [
          | none ↦ none
          | some t ↦ some (close_all config.only_failures (now w1) t.tracker t.telemetry)
        ],
        w1,
      )

  -- `_run_post_virt_check`: the machines of a batch that fail after the run.
  unfoldable pub post_batch : ℕ → VirtConfig → List Vm → W → List VirtCheck × W
  unfolding sample_vm check_type
  post_batch start config [] w = ([], w)
  post_batch start config (vm ∷ vms) w =
      let (s, vm1, w1) = sample_vm config vm w in
      let (rest, w2) = post_batch start config vms w1 in
      let e = record s { start_timestamp = start } in
      (
        if status s
            then rest
            else record {
              entry = e;
              check_type = check_type e;
              end_timestamp = start;
              duration = pos 0;
            }
              ∷ rest,
        w2,
      )

  unfoldable pub post_batches : VirtConfig → List (List Vm) → W → List VirtCheck × W
  unfolding post_batch
  post_batches config [] w = ([], w)
  post_batches config (vms ∷ batches) w =
      let (failures, w1) = post_batch (now w) config vms w in
      let (rest, w2) = post_batches config batches w1 in (failures ++ rest, w2)

  -- `gather_post_virt_checks`, its threads one after the other.
  unfoldable pub gather_post_virt_checks :
      VirtConfig
      → HealthCheckPlugin
      → List (List Vm)
      → List VirtCheck
      → W
      → List VirtCheck × HealthCheckPlugin × W
  unfolding post_batches
  gather_post_virt_checks config plugin batches telemetry w =
      let (failures, w1) = post_batches config batches w in
      let result = if is_empty batches then telemetry else failures in
      (
        result,
        if config.exit_on_failure && ltb 0 (length result)
            then record plugin { ret_value = 3 }
            else plugin,
        w1,
      )

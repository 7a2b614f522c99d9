-- ===== src/HealthChecks/Virt.antt =====
-- krkn/health_checks/virt_health_check_plugin.py: the checks of virtual machines, in batches, each with
-- a thread of its own. The clients, `ssh` and the clock are parameters; a missing text is empty.
pub mod Thread
pub mod Batches
use krkn.Base.{
  ℕ, zero, suc, ◌+◌, ◌-◌, ◌/◌, ◌==◌, Bool, true, false, not, ◌&&◌, ◌||◌, Option, none, some, List,
  [], ◌∷◌, ◌++◌, any, keep, take, length, if◌then◌else◌, is_empty, ltb,
}
use krkn.Base.Int.{ℤ, pos, ◌-ℤ◌}
use krkn.Base.Text.{Text, text, text_eq, split, contains}
use krkn.Base.Dict.{Dict, lookup, insert}
use krkn.HealthChecks.{HealthCheckPlugin, MainCall, apply_all, keeps_polling}
use krkn.HealthChecks.Http.{delete}

pub record Vm : Type 0 where
  pub vm_name : Text
  pub ip_address : Text
  pub namespace : Text
  pub node_name : Text
  pub new_ip_address : Text

-- What the client says of a machine: its name, namespace, node and the addresses of its interfaces.
pub record Vmi : Type 0 where
  pub name : Text
  pub namespace : Text
  pub node_name : Text
  pub interfaces : List Text
  pub phase : Text
  pub conditions : List (Text × Text)

pub record VirtConfig : Type 0 where
  pub namespace : Text
  pub disconnected : Bool
  pub only_failures : Bool
  pub interval : ℕ
  pub ssh_node : Text
  pub node_names : Text
  pub exit_on_failure : Bool

-- `virtctl` and `ssh` say whether `True` is in the output; `none` is an exception.
pub record Outside : Type 1 where
  pub W : Type 0
  pub virtctl : (target namespace : Text) → W → Bool × W
  pub ssh : (host ip_address : Text) → W → Bool × W
  pub get_vmi : (name namespace : Text) → W → Option (Option Vmi)
  pub now : W → ℕ
  pub sleep : ℕ → W → W

pub data CheckType : Type 0 where
  both ssh_access vmi_ready healthy : CheckType

unfoldable pub compute_check_type : Bool → Bool → CheckType
compute_check_type ssh_status ready =
    if not ssh_status && not ready
    then both
    else if not ssh_status
    then ssh_access
    else if not ready
    then vmi_ready
    else healthy

-- An entry of the tracker. Its `status` and `check_type` are set from the two checks and never change.
pub record Entry : Type 0 where
  pub vm : Vm
  pub ssh_status : Bool
  pub ready : Bool
  pub start_timestamp : ℕ

abbrev pub status : Entry → Bool
status e = e.ssh_status && e.ready

unfoldable pub check_type : Entry → CheckType
unfolding compute_check_type
check_type e = compute_check_type e.ssh_status e.ready

pub record VirtCheck : Type 0 where
  pub entry : Entry
  pub check_type : CheckType
  pub end_timestamp : ℕ
  pub duration : ℤ

pub record Tracking : Type 0 where
  pub tracker : Dict Entry
  pub telemetry : List VirtCheck

-- The machines that are checked: those with an interface, on one of the nodes if any are named.
unfoldable pub vm_list : List Text → List Vmi → List Vm
vm_list nodes [] = []
vm_list nodes (vmi ∷ vmis) =
    let rest = vm_list nodes vmis in
    elim vmi.interfaces [
      | [] ↦ rest
      | ip_address ∷ more ↦
          if is_empty nodes || contains vmi.node_name nodes
          then record {
            vm_name = vmi.name;
            ip_address = ip_address;
            namespace = vmi.namespace;
            node_name = vmi.node_name;
            new_ip_address = [];
          }
            ∷ rest
          else rest
    ]

-- `[node_name for node_name in node_names.split(",") if node_name]`
unfoldable pub node_name_list : Text → List Text
node_name_list node_names = keep (λ t. not (is_empty t)) (split b',' node_names)

-- `math.ceil(n / threads_limit)`
unfoldable pub batch_size : ℕ → ℕ → ℕ
batch_size n threads_limit = (n + threads_limit - 1) / threads_limit

abbrev pub drop {ℓ} : {A : Type ℓ} → ℕ → List A → List A
drop zero xs = xs
drop (suc n) [] = []
drop (suc n) (x ∷ xs) = drop n xs

-- `vm_list[i : i + batch_size] for i in range(0, len(vm_list), batch_size)`; a slice takes at least one
-- machine, so the number of machines is fuel enough.
unfoldable pub slices : (fuel size : ℕ) → List Vm → List (List Vm)
slices zero size vms = []
slices (suc fuel) size [] = []
slices (suc fuel) size (vm ∷ vms) = take size (vm ∷ vms) ∷ slices fuel size (drop size (vm ∷ vms))

-- `batch_list`: the batches, one for each thread.
unfoldable pub batch_list : ℕ → List Vm → List (List Vm)
unfolding batch_size slices
batch_list threads_limit vms =
    let size = batch_size (length vms) threads_limit in
    if ltb 0 size then slices (length vms) size vms else []

-- `_close_tracker_entry` without the deletion: what is appended.
unfoldable pub close_entry : Bool → ℕ → Entry → List VirtCheck → List VirtCheck
unfolding check_type
close_entry only_failures end_timestamp e telemetry =
    if not only_failures || not (status e)
    then telemetry
      ++ record {
        entry = e;
        check_type = check_type e;
        end_timestamp = end_timestamp;
        duration = pos end_timestamp -ℤ pos e.start_timestamp;
      }
        ∷ []
    else telemetry

-- A machine that was found elsewhere brings its new address to the entry that is closed.
unfoldable pub with_new_ip : Text → Entry → Entry
with_new_ip new_ip e =
    if is_empty new_ip then e else record e { vm = record (e.vm) { new_ip_address = new_ip } }

-- What the loop does with the checks of a machine; the sample is the entry that would be made of it.
unfoldable pub track_vm : Bool → Entry → Tracking → Tracking
unfolding close_entry with_new_ip
track_vm only_failures s t = elim (lookup s.vm.vm_name t.tracker) [
  | none ↦ record t { tracker = insert s.vm.vm_name s t.tracker }
  | some e ↦
      if (if s.ssh_status then e.ssh_status else not e.ssh_status)
        && (if s.ready then e.ready else not e.ready)
      then t
      else record {
        tracker = insert s.vm.vm_name s (delete s.vm.vm_name t.tracker);
        telemetry =
            close_entry only_failures s.start_timestamp (with_new_ip s.vm.new_ip_address e)
              t.telemetry;
      }
]

-- The records of what is still tracked.
unfoldable pub close_all : Bool → ℕ → Dict Entry → List VirtCheck → List VirtCheck
unfolding close_entry
close_all only_failures end_timestamp [] telemetry = telemetry
close_all only_failures end_timestamp ((name, e) ∷ tracker) telemetry =
    close_all only_failures end_timestamp tracker
      (close_entry only_failures end_timestamp e telemetry)

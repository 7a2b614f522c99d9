-- ===== src/VmOutage.antt =====
-- krkn/scenario_plugins/kubevirt_vm_outage: the deletion of virtual machines, and the wait for them. The client, the
-- clock and the random choice are parameters. Times are seconds.
pub mod Plugin
pub mod Laws
pub mod Rounds
pub mod Ending
mod Tests
use krkn.Base.{
  ℕ, zero, suc, ◌+◌, ◌-◌, Bool, true, false, not, ◌&&◌, ◌||◌, Option, none, some, List, [], ◌∷◌,
  ◌++◌, length, if◌then◌else◌, is_empty, ltb,
}
use krkn.Base.Text.{Text, text, text_eq}

pub record Vmi : Type 0 where
  pub name : Text
  pub namespace : Text
  pub creation_timestamp : Text
  pub phase : Text

pub record AffectedVmi : Type 0 where
  pub vmi_name : Text
  pub namespace : Text
  pub vmi_rescheduling_time : ℕ
  pub vmi_readiness_time : ℕ
  pub total_recovery_time : ℕ

pub record VmisStatus : Type 0 where
  pub recovered : List AffectedVmi
  pub unrecovered : List AffectedVmi

-- The reading calls return `none` where they raise; the other calls say whether they worked.
-- `patch_vm` is the reading of a machine and the patch of its `spec.running`.
pub record Outside : Type 1 where
  pub W : Type 0
  pub get_vmis :
      (name_regex namespace : Text) → (label_selector : Option Text) → W → Option (List Vmi)
  pub get_vms : (name namespace : Text) → W → Option (List Text)
  pub get_vmi : (name namespace : Text) → W → Option (Option Vmi)
  pub patch_vm : (name namespace : Text) → (running : Bool) → W → Bool × W
  pub delete : (name namespace : Text) → W → Bool × W
  pub randint : ℕ → W → ℕ × W
  pub now : W → ℕ
  pub sleep : W → W

-- What a method with a loop does: it returns, it raises, or its fuel is used up.
pub data Outcome (A : Type 0) : Type 0 where
  returns : A → Outcome A
  raises : Outcome A
  stuck : Outcome A

abbrev pub unrecovered_more : AffectedVmi → VmisStatus → VmisStatus
unrecovered_more a st = record st { unrecovered = st.unrecovered ++ a ∷ [] }

-- The ends of `delete_vmi`: 0, with the machine as it is noted then, or 1. Every exception is caught.
unfoldable pub after_deletion :
    Outcome (Option ℕ) → AffectedVmi → VmisStatus → Outcome (Option AffectedVmi) × VmisStatus
after_deletion (returns (some time)) a st =
    (returns (some (record a { vmi_rescheduling_time = time })), st)
after_deletion (returns none) a st = (returns none, unrecovered_more a st)
after_deletion raises a st = (returns none, unrecovered_more a st)
after_deletion stuck a st = (stuck, st)

module _ (outside : Outside) where
  open outside use {W, get_vms, get_vmi, patch_vm, delete, now, sleep}

  -- `validate_environment`
  unfoldable pub validate_environment : Text → Text → W → Bool
  validate_environment vm_name namespace w = elim (get_vms vm_name namespace w) [
    | none ↦ false
    | some vms ↦ if is_empty vms then false else elim (get_vmi vm_name namespace w) [
      | none ↦ false
      | some none ↦ false
      | some (some vmi) ↦ true
    ]
  ]

  -- The loop of `delete_vmi`: the time that it took until the machine was there anew.
  unfoldable pub recreated_loop :
      ℕ
      → (timeout start_time : ℕ) → (vm_name namespace start_creation_time : Text) → W
      → Outcome (Option ℕ) × W
  recreated_loop zero timeout start_time vm_name namespace created w = (stuck, w)
  recreated_loop (suc fuel) timeout start_time vm_name namespace created w =
      let rest = recreated_loop fuel timeout start_time vm_name namespace created (sleep w) in
      if not (ltb (now w - start_time) timeout)
      then (returns none, w)
      else elim (get_vmi vm_name namespace w) [
        | none ↦ (raises, w)
        | some none ↦ rest
        | some (some vmi) ↦
            if text_eq created vmi.creation_timestamp
            then rest
            else (returns (some (now w - start_time)), w)
      ]

  -- `delete_vmi` with its timeout of 120 seconds.
  unfoldable pub delete_vmi :
      ℕ
      → (disable_auto_restart : Bool) → (original : Vmi) → AffectedVmi
      → VmisStatus
      → W
      → Outcome (Option AffectedVmi) × VmisStatus × W
  unfolding recreated_loop after_deletion
  delete_vmi fuel disable_auto_restart original a st w =
      let (patched, w1) = patch_vm a.vmi_name a.namespace false w in
      let w2 = if disable_auto_restart then w1 else w in
      let (deleted, w3) = delete a.vmi_name a.namespace w2 in
      let (outcome, w4) =
        recreated_loop fuel 120 (now w2) a.vmi_name a.namespace original.creation_timestamp w3 in
      if not deleted
      then (returns none, unrecovered_more a st, w3)
      else (let (result, st1) = after_deletion outcome a st in (result, st1, w4))

  -- `wait_for_running`: the time that it took, `none` for the result 1.
  unfoldable pub wait_for_running :
      ℕ → (timeout start_time : ℕ) → (vm_name namespace : Text) → W → Outcome (Option ℕ) × W
  wait_for_running zero timeout start_time vm_name namespace w = (stuck, w)
  wait_for_running (suc fuel) timeout start_time vm_name namespace w =
      let rest = wait_for_running fuel timeout start_time vm_name namespace (sleep w) in
      if not (ltb (now w - start_time) timeout)
      then (returns none, w)
      else elim (get_vmi vm_name namespace w) [
        | none ↦ (raises, w)
        | some none ↦ rest
        | some (some vmi) ↦
            if text_eq vmi.phase (text "Running")
            then (returns (some (now w - start_time)), w)
            else rest
      ]

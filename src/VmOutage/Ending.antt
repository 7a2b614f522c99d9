-- ===== src/VmOutage/Ending.antt =====
-- krkn/scenario_plugins/kubevirt_vm_outage: the waits end, and with them `run`.
use krkn.Base.{
  ℕ, zero, suc, ◌+◌, ◌-◌, ◌≤◌, ◌<◌, ◌≡◌, refl, ◌⊎◌, inl, inr, Bool, false, not, ◌||◌, Option, none,
  some, List, [], ◌∷◌, length, All, if◌then◌else◌, is_empty, ltb, Bool-cases, Option-cases, arith,
}
use krkn.Base.Text.{Text, text, text_eq}
use krkn.VmOutage.{
  Vmi, AffectedVmi, VmisStatus, Outside, Outcome, returns, raises, stuck, validate_environment,
  after_deletion, recreated_loop, delete_vmi, wait_for_running,
}
use krkn.VmOutage.Plugin.{
  Config, no_status, element, merge, after_running, outage, kill_one, kill_loop, matching,
  is_targeted, execute_scenario, run_scenarios, run,
}
use krkn.VmOutage.Laws.{Outcome-cases, Killed-cases}

abbrev pub NotStuck : {A : Type 0} → Outcome A → Type 0
NotStuck (returns a) = Unit
NotStuck raises = Unit
NotStuck stuck = ⊥

-- The result of `run`.
abbrev pub IsCode : Outcome ℕ → Type 0
IsCode (returns code) = (code ≡ 0) ⊎ (code ≡ 1)
IsCode raises = ⊥
IsCode stuck = ⊥

-- A sleep takes a second or more, and the clock does not go back during a deletion.
abbrev pub IsClock : Outside → Type 0
IsClock outside =
    ((w : outside.W) → suc (outside.now w) ≤ outside.now (outside.sleep w))
    × ((name namespace : Text) (w : outside.W)
        → outside.now w ≤ outside.now (outside.delete name namespace w).1)

after_deletion-NotStuck :
    (o : Outcome (Option ℕ)) (a : AffectedVmi) (st : VmisStatus)
    → NotStuck o
    → NotStuck (after_deletion o a st).0
unfolding after_deletion
after_deletion-NotStuck (returns (some time)) a st h = tt
after_deletion-NotStuck (returns none) a st h = tt
after_deletion-NotStuck raises a st h = tt
after_deletion-NotStuck stuck a st h = h

after_running-NotStuck :
    (o : Outcome (Option ℕ)) (a : AffectedVmi) (st : VmisStatus)
    → NotStuck o
    → NotStuck (after_running o a st)
unfolding after_running
after_running-NotStuck (returns (some time)) a st h = tt
after_running-NotStuck (returns none) a st h = tt
after_running-NotStuck raises a st h = tt
after_running-NotStuck stuck a st h = h

module _ (outside : Outside) (clock : IsClock outside) where
  open outside use {W, get_vmi, now, sleep, patch_vm, delete}

  recreated_loop-NotStuck :
      (fuel timeout start : ℕ) (vm_name namespace created : Text) (w : W)
      → 0 < fuel
      → timeout + start < fuel + now w
      → NotStuck (recreated_loop outside fuel timeout start vm_name namespace created w).0
  unfolding recreated_loop
  recreated_loop-NotStuck zero timeout start n ns created w p h = absurd (omega arith)
  recreated_loop-NotStuck (suc fuel) timeout start n ns created w p h =
      elim (Bool-cases (ltb (now w - start) timeout)) [
        | inr e ↦ rw (recreated_loop, e) tt
        | inl e ↦
            let later = clock.0 w in
            let rest =
              recreated_loop-NotStuck fuel timeout start n ns created (sleep w) (ground arith)
                (omega arith) in
            elim (Option-cases (get_vmi n ns w)) [
              | inl f ↦ rw (recreated_loop, e, f) tt
              | inr (none, f) ↦ rw (recreated_loop, e, f) rest
              | inr (some v, f) ↦ elim (Bool-cases (text_eq created v.creation_timestamp)) [
                | inl g ↦ rw (recreated_loop, e, f, g) rest
                | inr g ↦ rw (recreated_loop, e, f, g) tt
              ]
            ]
      ]

  wait_for_running-NotStuck :
      (fuel timeout start : ℕ) (vm_name namespace : Text) (w : W)
      → 0 < fuel
      → timeout + start < fuel + now w
      → NotStuck (wait_for_running outside fuel timeout start vm_name namespace w).0
  unfolding wait_for_running
  wait_for_running-NotStuck zero timeout start n ns w p h = absurd (omega arith)
  wait_for_running-NotStuck (suc fuel) timeout start n ns w p h =
      elim (Bool-cases (ltb (now w - start) timeout)) [
        | inr e ↦ rw (wait_for_running, e) tt
        | inl e ↦
            let later = clock.0 w in
            let rest =
              wait_for_running-NotStuck fuel timeout start n ns (sleep w) (ground arith)
                (omega arith) in
            elim (Option-cases (get_vmi n ns w)) [
              | inl f ↦ rw (wait_for_running, e, f) tt
              | inr (none, f) ↦ rw (wait_for_running, e, f) rest
              | inr (some v, f) ↦ elim (Bool-cases (text_eq v.phase (text "Running"))) [
                | inl g ↦ rw (wait_for_running, e, f, g) tt
                | inr g ↦ rw (wait_for_running, e, f, g) rest
              ]
            ]
      ]

  delete_vmi-NotStuck :
      (fuel : ℕ) (disable : Bool) (original : Vmi) (a : AffectedVmi) (st : VmisStatus) (w : W)
      → 120 < fuel
      → NotStuck (delete_vmi outside fuel disable original a st w).0
  unfolding delete_vmi
  delete_vmi-NotStuck fuel disable original a st w h =
      let w2 = if disable then (patch_vm a.vmi_name a.namespace false w).1 else w in
      let d = delete a.vmi_name a.namespace w2 in
      let forward = clock.1 a.vmi_name a.namespace w2 in
      elim (Bool-cases d.0) [
        | inr e ↦ rw (delete_vmi, e) tt
        | inl e ↦
            rw (delete_vmi, e)
              (after_deletion-NotStuck _ a st (
                recreated_loop-NotStuck fuel 120 (now w2) a.vmi_name a.namespace
                  original.creation_timestamp d.1 (omega arith) (omega arith)))
      ]

  outage-NotStuck :
      (fuel : ℕ) (config : Config) (original : Vmi) (a : AffectedVmi) (st : VmisStatus) (w : W)
      → 120 < fuel
      → config.timeout < fuel
      → NotStuck (outage outside fuel config original a st w).0
  unfolding outage
  outage-NotStuck fuel config original a st w h k =
      let d = delete_vmi outside fuel config.disable_auto_restart original a st w in
      let ends = delete_vmi-NotStuck fuel config.disable_auto_restart original a st w h in
      elim (Outcome-cases d.0) [
        | inl e ↦ rw (outage, e) tt
        | inr (inl (a1, e)) ↦
            rw (outage, e)
              (after_running-NotStuck _ a1 d.1 (
                wait_for_running-NotStuck fuel config.timeout (now d.2) a.vmi_name a.namespace d.2
                  (omega arith) (omega arith)))
        | inr (inr (inl e)) ↦ rw (outage, e) tt
        | inr (inr (inr e)) ↦ (let no : ⊥ = rw e at ends in absurd no)
      ]

  kill_one-NotStuck :
      (fuel : ℕ) (config : Config) (chosen : Vmi) (st : VmisStatus) (w : W)
      → 120 < fuel
      → config.timeout < fuel
      → NotStuck (kill_one outside fuel config chosen st w).0
  unfolding kill_one
  kill_one-NotStuck fuel config chosen st w h k =
      elim (Bool-cases (validate_environment outside chosen.name chosen.namespace w)) [
        | inr e ↦ rw (kill_one, e) tt
        | inl e ↦ elim (Option-cases (get_vmi chosen.name chosen.namespace w)) [
          | inl f ↦ rw (kill_one, e, f) tt
          | inr (none, f) ↦ rw (kill_one, e, f) tt
          | inr (some original, f) ↦
              rw (kill_one, e, f) (outage-NotStuck fuel config original _ st w h k)
        ]
      ]

  kill_loop-NotStuck :
      (fuel rounds : ℕ) (config : Config) (vmis : List Vmi) (st : VmisStatus) (w : W)
      → 120 < fuel
      → config.timeout < fuel
      → NotStuck (kill_loop outside fuel rounds config vmis st w).0
  unfolding kill_loop
  kill_loop-NotStuck fuel zero config vmis st w h k = tt
  kill_loop-NotStuck fuel (suc rounds) config vmis st w h k =
      let i = outside.randint (length vmis) w in
      elim (Option-cases (element i.0 vmis)) [
        | inl e ↦ rw (kill_loop, e) tt
        | inr (chosen, e) ↦
            let ends = kill_one-NotStuck fuel config chosen st i.1 h k in
            elim (Killed-cases (kill_one outside fuel config chosen st i.1).0) [
              | inl (st2, f) ↦
                  rw (kill_loop, e, f) (kill_loop-NotStuck fuel rounds config vmis st2 _ h k)
              | inr (inl f) ↦ rw (kill_loop, e, f) tt
              | inr (inr f) ↦ (let no : ⊥ = rw f at ends in absurd no)
            ]
      ]

  execute_scenario-NotStuck :
      (fuel : ℕ) (config : Config) (w : W)
      → 120 < fuel
      → config.timeout < fuel
      → NotStuck (execute_scenario outside fuel config w).0
  unfolding execute_scenario
  execute_scenario-NotStuck fuel config w h k =
      elim (Bool-cases (not (is_targeted config) || is_empty (matching outside config w))) [
        | inl e ↦ rw (execute_scenario, e) tt
        | inr e ↦
            rw (execute_scenario, e)
              (kill_loop-NotStuck fuel config.kill_count config _ no_status w h k)
      ]

  run_scenarios-NotStuck :
      (fuel : ℕ) (scenarios : List Config) (st : VmisStatus) (w : W)
      → 120 < fuel
      → All (λ (config : Config). config.timeout < fuel) scenarios
      → NotStuck (run_scenarios outside fuel scenarios st w).0
  unfolding run_scenarios
  run_scenarios-NotStuck fuel [] st w h k = tt
  run_scenarios-NotStuck fuel (config ∷ more) st w h (k, ks) =
      elim (Bool-cases (text_eq config.scenario (text "kubevirt_vm_outage"))) [
        | inr e ↦ rw (run_scenarios, e) (run_scenarios-NotStuck fuel more st w h ks)
        | inl e ↦
            let ends = execute_scenario-NotStuck fuel config w h k in
            elim (Killed-cases (execute_scenario outside fuel config w).0) [
              | inl (st1, f) ↦
                  rw (run_scenarios, e, f) (run_scenarios-NotStuck fuel more (merge st st1) _ h ks)
              | inr (inl f) ↦ rw (run_scenarios, e, f) tt
              | inr (inr f) ↦ (let no : ⊥ = rw f at ends in absurd no)
            ]
      ]

  -- If a sleep takes a second or more and the clock does not go back during a deletion, `run` ends with 0
  -- or 1, within a round of each wait for each second of its timeout and one more. The wait for a
  -- deletion has a timeout of 120 seconds.
  pub run_ends :
      (fuel : ℕ) (scenarios : List Config) (w : W)
      → 120 < fuel
      → All (λ (config : Config). config.timeout < fuel) scenarios
      → IsCode (run outside fuel (some scenarios) w).0
  unfolding run
  run_ends fuel scenarios w h k =
      let ends = run_scenarios-NotStuck fuel scenarios no_status w h k in
      elim (Killed-cases (run_scenarios outside fuel scenarios no_status w).0) [
        | inl (st, e) ↦ elim (Bool-cases (is_empty st.unrecovered)) [
          | inl f ↦ rw (run, e, f) (inl refl)
          | inr f ↦ rw (run, e, f) (inr refl)
        ]
        | inr (inl e) ↦ rw (run, e) (inr refl)
        | inr (inr e) ↦ (let no : ⊥ = rw e at ends in absurd no)
      ]

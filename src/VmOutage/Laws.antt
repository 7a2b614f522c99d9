-- ===== src/VmOutage/Laws.antt =====
-- krkn/scenario_plugins/kubevirt_vm_outage: what one round does, in the order of the worlds that it passes.
use krkn.Base.{
  ℕ, zero, suc, ◌-◌, ◌≤◌, ◌≡◌, refl, ◌⊎◌, inl, inr, Bool, true, false, Option, none, some,
  if◌then◌else◌, ltb, Bool-cases, Option-cases, arith,
}
use krkn.Base.Text.{Text, text, text_eq, text_eq_iff}
use krkn.VmOutage.{
  Vmi, AffectedVmi, VmisStatus, Outside, Outcome, returns, raises, stuck, unrecovered_more,
  after_deletion, recreated_loop, delete_vmi, wait_for_running,
}

pub Outcome-cases :
    (o : Outcome (Option AffectedVmi))
    → (o ≡ returns none)
      ⊎ (((a : AffectedVmi) × (o ≡ returns (some a))) ⊎ ((o ≡ raises) ⊎ (o ≡ stuck)))
Outcome-cases (returns none) = inl refl
Outcome-cases (returns (some a)) = inr (inl (a, refl))
Outcome-cases raises = inr (inr (inl refl))
Outcome-cases stuck = inr (inr (inr refl))

pub Killed-cases :
    (o : Outcome VmisStatus) → ((st : VmisStatus) × (o ≡ returns st)) ⊎ ((o ≡ raises) ⊎ (o ≡ stuck))
Killed-cases (returns st) = inl (st, refl)
Killed-cases raises = inr (inl refl)
Killed-cases stuck = inr (inr refl)

module _ (outside : Outside) where
  open outside use {W, get_vmi, now, sleep, patch_vm, delete}

  abbrev pub after_sleeps : ℕ → W → W
  after_sleeps zero w = w
  after_sleeps (suc n) w = after_sleeps n (sleep w)

  -- How a polling loop that starts in a world ends: it saw a machine as it waits for, and stays in the world in
  -- which it saw it; its time was over; or the client raised.
  abbrev pub LoopEnds :
      (Vmi → Type 0)
      → (timeout start_time : ℕ) → (vm_name namespace : Text) → W
      → Outcome (Option ℕ)
      → W
      → Type 0
  LoopEnds Seen timeout start n ns w (returns (some time)) w1 =
      (k : ℕ) × (v : Vmi) × (w1 ≡ after_sleeps k w)
      × (get_vmi n ns (after_sleeps k w) ≡ some (some v))
      × Seen v
  LoopEnds Seen timeout start n ns w (returns none) w1 =
      (k : ℕ) × (timeout ≤ now (after_sleeps k w) - start)
  LoopEnds Seen timeout start n ns w raises w1 = (k : ℕ) × (get_vmi n ns (after_sleeps k w) ≡ none)
  LoopEnds Seen timeout start n ns w stuck w1 = Unit

  LoopEnds-sleep :
      (Seen : Vmi → Type 0) (timeout start : ℕ) (n ns : Text) (w : W) (o : Outcome (Option ℕ))
      (w1 : W)
      → LoopEnds Seen timeout start n ns (sleep w) o w1
      → LoopEnds Seen timeout start n ns w o w1
  LoopEnds-sleep Seen timeout start n ns w (returns (some time)) w1 (k, v, same, seen, ok) =
      (suc k, v, same, seen, ok)
  LoopEnds-sleep Seen timeout start n ns w (returns none) w1 (k, late) = (suc k, late)
  LoopEnds-sleep Seen timeout start n ns w raises w1 (k, e) = (suc k, e)
  LoopEnds-sleep Seen timeout start n ns w stuck w1 h = tt

  abbrev pub IsAnew : Text → Vmi → Type 0
  IsAnew created v = text_eq created v.creation_timestamp ≡ false

  abbrev pub IsRunning : Vmi → Type 0
  IsRunning v = v.phase ≡ text "Running"

  recreated_loop-LoopEnds :
      (fuel timeout start : ℕ) (n ns created : Text) (w : W)
      → LoopEnds
          (IsAnew created)
          timeout
          start
          n
          ns
          w
          (recreated_loop outside fuel timeout start n ns created w).0
          (recreated_loop outside fuel timeout start n ns created w).1
  unfolding recreated_loop
  recreated_loop-LoopEnds zero timeout start n ns created w = tt
  recreated_loop-LoopEnds (suc fuel) timeout start n ns created w =
      let further =
        LoopEnds-sleep (IsAnew created) timeout start n ns w _ _
          (recreated_loop-LoopEnds fuel timeout start n ns created (sleep w)) in
      elim (Bool-cases (ltb (now w - start) timeout)) [
        | inr e ↦ rw (recreated_loop, e) (0, ground arith)
        | inl e ↦ elim (Option-cases (get_vmi n ns w)) [
          | inl f ↦ rw (recreated_loop, e, f) (0, f)
          | inr (none, f) ↦ rw (recreated_loop, e, f) further
          | inr (some v, f) ↦ elim (Bool-cases (text_eq created v.creation_timestamp)) [
            | inl g ↦ rw (recreated_loop, e, f, g) further
            | inr g ↦ rw (recreated_loop, e, f, g) (0, v, refl, f, g)
          ]
        ]
      ]

  pub wait_for_running-LoopEnds :
      (fuel timeout start : ℕ) (n ns : Text) (w : W)
      → LoopEnds IsRunning timeout start n ns w
          (wait_for_running outside fuel timeout start n ns w).0
          (wait_for_running outside fuel timeout start n ns w).1
  unfolding wait_for_running
  wait_for_running-LoopEnds zero timeout start n ns w = tt
  wait_for_running-LoopEnds (suc fuel) timeout start n ns w =
      let further =
        LoopEnds-sleep IsRunning timeout start n ns w _ _
          (wait_for_running-LoopEnds fuel timeout start n ns (sleep w)) in
      elim (Bool-cases (ltb (now w - start) timeout)) [
        | inr e ↦ rw (wait_for_running, e) (0, ground arith)
        | inl e ↦ elim (Option-cases (get_vmi n ns w)) [
          | inl f ↦ rw (wait_for_running, e, f) (0, f)
          | inr (none, f) ↦ rw (wait_for_running, e, f) further
          | inr (some v, f) ↦ elim (Bool-cases (text_eq v.phase (text "Running"))) [
            | inl g ↦
                rw (wait_for_running, e, f, g)
                  (0, v, refl, f, (text_eq_iff v.phase (text "Running")).0 g)
            | inr g ↦ rw (wait_for_running, e, f, g) further
          ]
        ]
      ]

  -- The world in which the deletion is called.
  abbrev pub before_deletion : Bool → (vm_name namespace : Text) → W → W
  before_deletion disable n ns w = if disable then (patch_vm n ns false w).1 else w

  abbrev pub after_call : Bool → (vm_name namespace : Text) → W → W
  after_call disable n ns w = (delete n ns (before_deletion disable n ns w)).1

  -- The call raised, or afterwards the client did, or 120 seconds passed.
  abbrev pub DeletionFails : Bool → (vm_name namespace : Text) → W → Type 0
  DeletionFails disable n ns w =
      ((delete n ns (before_deletion disable n ns w)).0 ≡ false)
      ⊎ ((k : ℕ) × ((get_vmi n ns (after_sleeps k (after_call disable n ns w)) ≡ none)
            ⊎ (120
                ≤ now (after_sleeps k (after_call disable n ns w))
                  - now (before_deletion disable n ns w))))

  -- The call worked, and after some seconds a machine with another creation timestamp was there.
  abbrev pub IsRecreated : Bool → (vm_name namespace created : Text) → W → W → Type 0
  IsRecreated disable n ns created w w1 =
      ((delete n ns (before_deletion disable n ns w)).0 ≡ true)
      × ((k : ℕ) × (v : Vmi) × (w1 ≡ after_sleeps k (after_call disable n ns w))
          × (get_vmi n ns (after_sleeps k (after_call disable n ns w)) ≡ some (some v))
          × IsAnew created v)

  abbrev pub Deletion :
      Bool
      → Vmi
      → AffectedVmi
      → VmisStatus
      → W
      → Outcome (Option AffectedVmi)
      → VmisStatus
      → W
      → Type 0
  Deletion disable original a st w (returns (some a1)) st1 w1 =
      (st1 ≡ st)
      × (a1.vmi_name ≡ a.vmi_name)
      × (a1.namespace ≡ a.namespace)
      × IsRecreated disable a.vmi_name a.namespace original.creation_timestamp w w1
  Deletion disable original a st w (returns none) st1 w1 =
      (st1 ≡ unrecovered_more a st) × DeletionFails disable a.vmi_name a.namespace w
  Deletion disable original a st w raises st1 w1 = ⊥
  Deletion disable original a st w stuck st1 w1 = Unit

  after_deletion-Deletion :
      (disable : Bool) (original : Vmi) (a : AffectedVmi) (st : VmisStatus) (w : W)
      (o : Outcome (Option ℕ)) (w1 : W)
      → (delete a.vmi_name a.namespace (before_deletion disable a.vmi_name a.namespace w)).0 ≡ true
      → LoopEnds
          (IsAnew original.creation_timestamp)
          120
          (now (before_deletion disable a.vmi_name a.namespace w))
          a.vmi_name
          a.namespace
          (after_call disable a.vmi_name a.namespace w)
          o
          w1
      → Deletion disable original a st w (after_deletion o a st).0 (after_deletion o a st).1 w1
  unfolding after_deletion
  after_deletion-Deletion disable original a st w (returns (some time)) w1 d h =
      (refl, refl, refl, (d, h))
  after_deletion-Deletion disable original a st w (returns none) w1 d (k, late) =
      (refl, inr (k, inr late))
  after_deletion-Deletion disable original a st w raises w1 d (k, e) = (refl, inr (k, inl e))
  after_deletion-Deletion disable original a st w stuck w1 d h = tt

  pub delete_vmi-Deletion :
      (fuel : ℕ) (disable : Bool) (original : Vmi) (a : AffectedVmi) (st : VmisStatus) (w : W)
      → Deletion disable original a st w
          (delete_vmi outside fuel disable original a st w).0
          (delete_vmi outside fuel disable original a st w).1
          (delete_vmi outside fuel disable original a st w).2
  unfolding delete_vmi
  delete_vmi-Deletion fuel disable original a st w =
      let n = a.vmi_name in
      let ns = a.namespace in
      let d = delete n ns (before_deletion disable n ns w) in
      elim (Bool-cases d.0) [
        | inr e ↦ rw (delete_vmi, e) (refl, inl e)
        | inl e ↦
            rw (delete_vmi, e)
              (after_deletion-Deletion disable original a st w _ _ e (
                recreated_loop-LoopEnds fuel 120 (now (before_deletion disable n ns w)) n ns
                  original.creation_timestamp d.1))
      ]

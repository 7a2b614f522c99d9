-- ===== src/PodDisruption/Killed.antt =====
-- krkn/scenario_plugins/pod_disruption: what `killing_pods` has done where it returns 0.
use krkn.Base.{
  ℕ, ◌≤◌, ◌≡◌, refl, Bool, true, not, some, List, [], ◌∷◌, ◌++◌, keep, take, length, if◌then◌else◌,
  ltb, Bool-cases, Option-cases, inl, inr, arith,
}
use krkn.PodDisruption.{
  Pod, InputParams, Outside, KillState, returns, candidates, excluded_pods, is_excluded,
  pods_to_kill, delete_one, delete_serial, delete_all, delete_pods, kill_and_wait, killing_pods,
}
use krkn.PodDisruption.Wait.{SawBack, wait_for_pods-SawBack}

module _ (outside : Outside) where
  open outside use {W, delete_pod, shuffle, interleaving}

  -- Each of the pods was deleted, in this order, and no call raised.
  abbrev pub Deleted : Bool → List Pod → KillState W → KillState W → Type 0
  Deleted force [] st st1 = st1 ≡ st
  Deleted force (pod ∷ pods) st st1 =
      ((delete_pod pod force st.world).0 ≡ true)
      × Deleted force pods
          (record {
            world = (delete_pod pod force st.world).1;
            deletions = st.deletions ++ pod ∷ [];
          })
          st1

  delete_serial-Deleted :
      (force : Bool) (pods : List Pod) (st : KillState W)
      → (delete_serial outside force pods st).0 ≡ true
      → Deleted force pods st (delete_serial outside force pods st).1
  unfolding delete_serial delete_one
  delete_serial-Deleted force [] st h = refl
  delete_serial-Deleted force (pod ∷ pods) st h =
      elim (Bool-cases (delete_pod pod force st.world).0) [
        | inr e ↦ (let h' = rw (delete_serial, e) at h in absurd (ground arith))
        | inl e ↦
            rw (delete_serial, e)
              (refl, delete_serial-Deleted force pods _ (rw (delete_serial, e) at h))
      ]

  delete_all-Deleted :
      (force : Bool) (pods : List Pod) (st : KillState W)
      → (delete_all outside force pods st).0 ≡ true
      → Deleted force pods st (delete_all outside force pods st).1
  unfolding delete_all delete_one
  delete_all-Deleted force [] st h = refl
  delete_all-Deleted force (pod ∷ pods) st h = elim (Bool-cases (delete_pod pod force st.world).0) [
    | inr e ↦ (let h' = rw e at h in absurd (ground arith))
    | inl e ↦ (e, delete_all-Deleted force pods _ (rw e at h))
  ]

  -- The chosen pods in the order in which their deletion reaches the server.
  abbrev pub in_order : InputParams → List Pod → W → List Pod
  in_order config pods w = if config.parallel then interleaving pods w else pods

  delete_pods-Deleted :
      (config : InputParams) (pods : List Pod) (st : KillState W)
      → (delete_pods outside config pods st).0 ≡ true
      → Deleted config.force
          (in_order config pods st.world)
          st
          (delete_pods outside config pods st).1
  unfolding delete_pods
  delete_pods-Deleted config pods st h = elim (Bool-cases config.parallel) [
    | inl e ↦ rw (delete_pods, e) (delete_all-Deleted config.force _ st (rw (delete_pods, e) at h))
    | inr e ↦
        rw (delete_pods, e) (delete_serial-Deleted config.force _ st (rw (delete_pods, e) at h))
  ]

  -- At least `kill` pods were found. The first `kill` of their shuffle, but for those with the name of an
  -- excluded one, were deleted, and afterwards the client found as many running pods as there were before.
  abbrev pub KilledAndBack : InputParams → KillState W → Type 0
  KilledAndBack config st =
      (pods : List Pod) × (exclude : List Pod) × (st1 : KillState W) × (candidates outside config
          st.world
        ≡ some pods)
      × (excluded_pods outside config st.world ≡ some exclude)
      × (config.kill ≤ length pods)
      × Deleted config.force
          (in_order config
            (keep (λ p. not (is_excluded exclude p)) (take config.kill (shuffle pods st.world)))
            st.world)
          st st1
      × SawBack outside config (length pods) st1.world

  pub killing_pods-KilledAndBack :
      (fuel : ℕ) (config : InputParams) (st : KillState W)
      → (killing_pods outside fuel config st).0 ≡ returns 0
      → KilledAndBack config st
  unfolding killing_pods kill_and_wait pods_to_kill
  killing_pods-KilledAndBack fuel config st h =
      elim (Option-cases (candidates outside config st.world)) [
        | inl c ↦ (let h' = rw (killing_pods, c) at h in absurd (ground arith))
        | inr (pods, c) ↦ elim (Option-cases (excluded_pods outside config st.world)) [
          | inl x ↦ (let h' = rw (killing_pods, c, x) at h in absurd (ground arith))
          | inr (exclude, x) ↦ elim (Bool-cases (ltb (length pods) config.kill)) [
            | inl f ↦ (let h' = rw (killing_pods, c, x, f) at h in absurd (ground arith))
            | inr f ↦
                let chosen = pods_to_kill config.kill exclude (shuffle pods st.world) in
                let d = delete_pods outside config chosen st in
                elim (Bool-cases d.0) [
                  | inr g ↦
                      (let h' = rw (killing_pods, c, x, f, kill_and_wait, g) at h in
                        absurd (ground arith))
                  | inl g ↦ (
                    pods,
                    exclude,
                    d.1,
                    c,
                    x,
                    ground arith,
                    delete_pods-Deleted config chosen st g,
                    wait_for_pods-SawBack outside fuel config (length pods) d.1.world
                        (rw (killing_pods, c, x, f, kill_and_wait, g) at h),
                  )
                ]
          ]
        ]
      ]

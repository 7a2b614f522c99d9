-- ===== src/PodDisruption/Wait.antt =====
-- krkn/scenario_plugins/pod_disruption: whether the wait for the pods ends.
use krkn.Base.{
  ℕ, zero, suc, ◌+◌, ◌-◌, ◌≤◌, ◌<◌, ◌==◌, ◌≡◌, refl, false, some, List, length, ltb, Bool-cases,
  Option-cases, inl, inr, arith,
}
use native.Mathlib.Nat.{mod-eq_of_lt, mod-lt}
use krkn.PodDisruption.{
  Pod, InputParams, Outside, Outcome, returns, raises, stuck, candidates, seconds_of, wait_loop,
  wait_for_pods,
}

abbrev pub NotStuck : Outcome → Type 0
NotStuck (returns ret) = Unit
NotStuck raises = Unit
NotStuck stuck = ⊥

-- Within a day, the seconds of a difference are the difference.
not_timed_out :
    (timeout elapsed : ℕ)
    → elapsed < 86400
    → ltb timeout (seconds_of elapsed) ≡ false
    → elapsed ≤ timeout
unfolding seconds_of
not_timed_out timeout elapsed h g = (let g' = rw (mod-eq_of_lt h) at g in ground arith)

module _ (outside : Outside) where
  open outside use {W, now, sleep}

  -- A sleep takes time, and not so long that a whole day passes before the timeout is noticed.
  abbrev pub Sleeps : InputParams → Type 0
  Sleeps config =
      (w : W)
      → (now w < now (sleep config.duration w))
        × (now (sleep config.duration w) + config.timeout < now w + 86400)

  wait_loop-NotStuck :
      (fuel start : ℕ) (config : InputParams) (pod_count : ℕ) (w : W)
      → Sleeps config
      → start ≤ now w
      → now w ≤ start + config.timeout
      → start + config.timeout < now w + fuel
      → NotStuck (wait_loop outside fuel start config pod_count w).0
  unfolding wait_loop seconds_of
  wait_loop-NotStuck zero start config pod_count w s a b c = absurd (omega arith)
  wait_loop-NotStuck (suc fuel) start config pod_count w s a b c =
      elim (Option-cases (candidates outside config w)) [
        | inl e ↦ rw (wait_loop, e) tt
        | inr (pods, e) ↦ elim (Bool-cases (pod_count == length pods)) [
          | inl f ↦ rw (wait_loop, e, f) tt
          | inr f ↦
              let slept = sleep config.duration w in
              elim (Bool-cases (ltb config.timeout (seconds_of (now slept - start)))) [
                | inl g ↦ rw (wait_loop, e, f, g) tt
                | inr g ↦
                    let (later, soon) = s w in
                    let near = not_timed_out config.timeout (now slept - start) (omega arith) g in
                    rw (wait_loop, e, f, g)
                      (wait_loop-NotStuck fuel start config pod_count slept s (omega arith)
                        (omega arith) (omega arith))
              ]
        ]
      ]

  -- Where each sleep takes time, but together with the timeout less than a day, the wait for the pods ends
  -- after at most one round for each second of the timeout and one more.
  pub wait_for_pods_ends :
      (config : InputParams) (pod_count : ℕ) (w : W)
      → Sleeps config
      → NotStuck (wait_for_pods outside (suc config.timeout) config pod_count w).0
  unfolding wait_for_pods
  wait_for_pods_ends config pod_count w s =
      wait_loop-NotStuck (suc config.timeout) (now w) config pod_count w s (omega arith)
        (omega arith) (omega arith)

  -- The client never finds the number of pods that there were.
  abbrev pub NeverRecovers : InputParams → ℕ → Type 0
  NeverRecovers config pod_count =
      (w : W)
      → (pods : List Pod) × (candidates outside config w ≡ some pods)
        × ((pod_count == length pods) ≡ false)

  never_over : (timeout elapsed : ℕ) → 86399 ≤ timeout → ltb timeout (seconds_of elapsed) ≡ false
  unfolding seconds_of
  never_over timeout elapsed h = (let l = mod-lt elapsed {m = 86400} (omega arith) in ground arith)

  wait_loop_stuck :
      (fuel start : ℕ) (config : InputParams) (pod_count : ℕ) (w : W)
      → 86399 ≤ config.timeout
      → NeverRecovers config pod_count
      → (wait_loop outside fuel start config pod_count w).0 ≡ stuck
  unfolding wait_loop
  wait_loop_stuck zero start config pod_count w h n = refl
  wait_loop_stuck (suc fuel) start config pod_count w h n =
      let (pods, e, f) = n w in
      rw (wait_loop, e, f, never_over config.timeout (now (sleep config.duration w) - start) h)
        (wait_loop_stuck fuel start config pod_count (sleep config.duration w) h n)

  -- A timeout of a day or more, less one second, is never noticed: where the pods do not come back, the
  -- wait does not end, however long it runs.
  pub long_timeout_waits_forever :
      (fuel : ℕ) (config : InputParams) (pod_count : ℕ) (w : W)
      → 86399 ≤ config.timeout
      → NeverRecovers config pod_count
      → (wait_for_pods outside fuel config pod_count w).0 ≡ stuck
  unfolding wait_for_pods
  long_timeout_waits_forever fuel config pod_count w h n =
      wait_loop_stuck fuel (now w) config pod_count w h n

  -- At some time of the wait the client found `pod_count` running pods: the worlds are those that the sleeps of
  -- the wait lead to.
  abbrev pub after_sleeps : ℕ → InputParams → W → W
  after_sleeps zero config w = w
  after_sleeps (suc n) config w = after_sleeps n config (sleep config.duration w)

  abbrev pub SawBack : InputParams → ℕ → W → Type 0
  SawBack config pod_count w =
      (n : ℕ) × (pods : List Pod) × (candidates outside config (after_sleeps n config w)
        ≡ some pods)
      × (length pods ≡ pod_count)

  wait_loop-SawBack :
      (fuel start : ℕ) (config : InputParams) (pod_count : ℕ) (w : W)
      → (wait_loop outside fuel start config pod_count w).0 ≡ returns 0
      → SawBack config pod_count w
  unfolding wait_loop
  wait_loop-SawBack zero start config pod_count w h = absurd (ground arith)
  wait_loop-SawBack (suc fuel) start config pod_count w h =
      elim (Option-cases (candidates outside config w)) [
        | inl e ↦ (let h' = rw (wait_loop, e) at h in absurd (ground arith))
        | inr (pods, e) ↦ elim (Bool-cases (pod_count == length pods)) [
          | inl f ↦ (0, pods, e, ground arith)
          | inr f ↦
              let slept = sleep config.duration w in
              elim (Bool-cases (ltb config.timeout (seconds_of (now slept - start)))) [
                | inl g ↦ (let h' = rw (wait_loop, e, f, g) at h in absurd (ground arith))
                | inr g ↦
                    let (n, found, seen, same) =
                      wait_loop-SawBack fuel start config pod_count slept
                        (rw (wait_loop, e, f, g) at h) in
                    (suc n, found, seen, same)
              ]
        ]
      ]

  pub wait_for_pods-SawBack :
      (fuel : ℕ) (config : InputParams) (pod_count : ℕ) (w : W)
      → (wait_for_pods outside fuel config pod_count w).0 ≡ returns 0
      → SawBack config pod_count w
  unfolding wait_for_pods
  wait_for_pods-SawBack fuel config pod_count w h =
      wait_loop-SawBack fuel (now w) config pod_count w h

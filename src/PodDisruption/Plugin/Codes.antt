-- ===== src/PodDisruption/Plugin/Codes.antt =====
-- krkn/scenario_plugins/pod_disruption: what `run` returns.
use krkn.Base.{ℕ, ◌≡◌, refl, ◌⊎◌, true, List, [], ◌∷◌, ltb, Bool-cases, inl, inr, arith}
use krkn.Base.Result.{ok, Result-cases}
use krkn.PodDisruption.{
  RawParams, InputParams, input_params, Outside, KillState, Outcome, returns, raises, stuck,
  killing_pods,
}
use krkn.PodDisruption.Killed.{KilledAndBack, killing_pods-KilledAndBack}
use krkn.PodDisruption.Plugin.{can_monitor, after_kill, run_kill_scenario, if_zero, run}

-- `run` returns 0 or 1.
abbrev pub IsCode : Outcome → Type 0
IsCode (returns ret) = (ret ≡ 0) ⊎ (ret ≡ 1)
IsCode raises = ⊥
IsCode stuck = Unit

module _ (outside : Outside) (unrecovered : InputParams → outside.W → ℕ) where
  open outside use {W}

  -- What a scenario that passes has done: its configuration is valid, the monitor could be started, the
  -- pods that it chose were deleted and as many ran again, and none is unrecovered.
  abbrev pub Passes : ℕ → RawParams → KillState W → Type 0
  Passes fuel raw st =
      (config : InputParams) × (input_params raw ≡ ok config)
      × (can_monitor config ≡ true)
      × KilledAndBack outside config st
      × (unrecovered config (killing_pods outside fuel config st).1.world ≡ 0)

  after_kill-IsCode :
      (config : InputParams) (o : Outcome) (w : W)
      → IsCode (after_kill outside unrecovered config o w)
  unfolding after_kill
  after_kill-IsCode config raises w = inr refl
  after_kill-IsCode config stuck w = tt
  after_kill-IsCode config (returns ret) w = elim (Bool-cases (ltb 1 ret)) [
    | inl e ↦ rw e (inr refl)
    | inr e ↦ elim (Bool-cases (ltb 0 (unrecovered config w))) [
      | inl f ↦ rw (e, f) (inr refl)
      | inr f ↦ elim (Bool-cases (ltb 0 ret)) [
        | inl g ↦ rw (e, f, g) (inr refl)
        | inr g ↦ rw (e, f, g) (inl refl)
      ]
    ]
  ]

  after_kill-zero :
      (config : InputParams) (o : Outcome) (w : W)
      → after_kill outside unrecovered config o w ≡ returns 0
      → (o ≡ returns 0) × (unrecovered config w ≡ 0)
  unfolding after_kill
  after_kill-zero config raises w e = ground arith
  after_kill-zero config stuck w e = ground arith
  after_kill-zero config (returns ret) w e = ground arith

  run_kill_scenario-IsCode :
      (fuel : ℕ) (raw : RawParams) (st : KillState W)
      → IsCode (run_kill_scenario outside unrecovered fuel raw st).0
  unfolding run_kill_scenario
  run_kill_scenario-IsCode fuel raw st = elim (Result-cases (input_params raw)) [
    | inr (x, e) ↦ rw (run_kill_scenario, e) (inr refl)
    | inl (config, e) ↦ elim (Bool-cases (can_monitor config)) [
      | inr f ↦ rw (run_kill_scenario, e, f) (inr refl)
      | inl f ↦
          rw (run_kill_scenario, e, f)
            (after_kill-IsCode config (killing_pods outside fuel config st).0
              (killing_pods outside fuel config st).1.world)
    ]
  ]

  run_kill_scenario-Passes :
      (fuel : ℕ) (raw : RawParams) (st : KillState W)
      → (run_kill_scenario outside unrecovered fuel raw st).0 ≡ returns 0
      → Passes fuel raw st
  unfolding run_kill_scenario
  run_kill_scenario-Passes fuel raw st h = elim (Result-cases (input_params raw)) [
    | inr (x, e) ↦ (let h' = rw (run_kill_scenario, e) at h in ground arith)
    | inl (config, e) ↦ elim (Bool-cases (can_monitor config)) [
      | inr f ↦ (let h' = rw (run_kill_scenario, e, f) at h in ground arith)
      | inl f ↦
          let (killed, back) =
            after_kill-zero config (killing_pods outside fuel config st).0
              (killing_pods outside fuel config st).1.world (rw (run_kill_scenario, e, f) at h) in
          (config, e, f, killing_pods-KilledAndBack outside fuel config st killed, back)
    ]
  ]

  -- All scenarios pass, each from the state that those before it left.
  abbrev pub AllPass : ℕ → List RawParams → KillState W → Type 0
  AllPass fuel [] st = Unit
  AllPass fuel (raw ∷ scenarios) st =
      Passes fuel raw st
      × AllPass fuel scenarios (run_kill_scenario outside unrecovered fuel raw st).1

  if_zero-IsCode :
      (o : Outcome) (st : KillState W) (further : Outcome × KillState W)
      → IsCode o
      → IsCode further.0
      → IsCode (if_zero outside unrecovered o (o, st) further).0
  if_zero-IsCode (returns ret) st further h k = elim (Bool-cases (ltb 0 ret)) [
    | inl e ↦ rw e h
    | inr e ↦ rw e k
  ]
  if_zero-IsCode raises st further h k = h
  if_zero-IsCode stuck st further h k = h

  if_zero-zero :
      (o : Outcome) (st : KillState W) (further : Outcome × KillState W)
      → (if_zero outside unrecovered o (o, st) further).0 ≡ returns 0
      → (o ≡ returns 0) × (further.0 ≡ returns 0)
  if_zero-zero (returns ret) st further h = ground arith
  if_zero-zero raises st further h = ground arith
  if_zero-zero stuck st further h = ground arith

  -- `run` lets no exception out: unless its waits do not end, it returns 0 or 1.
  pub run-IsCode :
      (fuel : ℕ) (scenarios : List RawParams) (st : KillState W)
      → IsCode (run outside unrecovered fuel scenarios st).0
  unfolding run
  run-IsCode fuel [] st = inl refl
  run-IsCode fuel (raw ∷ scenarios) st =
      if_zero-IsCode _ _ _ (run_kill_scenario-IsCode fuel raw st) (run-IsCode fuel scenarios _)

  -- `run` returns 0 only if for every scenario, each from the state that those before it left: the
  -- configuration is valid and can be monitored; at least `kill` pods were found; the first `kill` of their
  -- shuffle, but for those with the name of an excluded one, which may be all, were deleted without an
  -- exception; some time after that the client found as many running pods as before; and the monitor left
  -- none unrecovered.
  pub run_succeeds :
      (fuel : ℕ) (scenarios : List RawParams) (st : KillState W)
      → (run outside unrecovered fuel scenarios st).0 ≡ returns 0
      → AllPass fuel scenarios st
  unfolding run
  run_succeeds fuel [] st h = tt
  run_succeeds fuel (raw ∷ scenarios) st h =
      let step = run_kill_scenario outside unrecovered fuel raw st in
      let (first, rest) =
        if_zero-zero step.0 step.1 (run outside unrecovered fuel scenarios step.1) h in
      (run_kill_scenario-Passes fuel raw st first, run_succeeds fuel scenarios step.1 rest)

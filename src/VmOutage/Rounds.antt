-- ===== src/VmOutage/Rounds.antt =====
-- krkn/scenario_plugins/kubevirt_vm_outage: what `execute_scenario` reports, round by round.
use krkn.Base.{
  ℕ, zero, suc, ◌-◌, ◌≤◌, ◌≡◌, refl, sym, ap, ◌∙◌, ◌⊎◌, inl, inr, true, false, Option, none, some,
  List, [], ◌∷◌, ◌++◌, length, is_empty, Bool-cases, Option-cases, arith,
}
use mathlib.Core.List.{append_assoc}
use krkn.VmOutage.{
  Vmi, AffectedVmi, VmisStatus, Outside, Outcome, returns, raises, stuck, validate_environment,
  unrecovered_more, delete_vmi,
}
use krkn.VmOutage.Plugin.{
  Config, no_status, element, after_running, outage, kill_one, kill_loop, matching, is_targeted,
  execute_scenario,
}
use krkn.VmOutage.Laws.{
  Outcome-cases, Killed-cases, after_sleeps, IsRunning, IsRecreated, DeletionFails, LoopEnds,
  delete_vmi-Deletion, wait_for_running-LoopEnds,
}

returns-inj : (x y : VmisStatus) → Path (Outcome VmisStatus) (returns x) (returns y) → x ≡ y
returns-inj x y h = ap value h
  where
    value : Outcome VmisStatus → VmisStatus
    value (returns st) = st
    value raises = x
    value stuck = x

abbrev affected : Vmi → AffectedVmi
affected chosen = record {
  vmi_name = chosen.name;
  namespace = chosen.namespace;
  vmi_rescheduling_time = 0;
  vmi_readiness_time = 0;
  total_recovery_time = 0;
}

-- An entry for a machine.
abbrev pub IsOf : Vmi → AffectedVmi → Type 0
IsOf chosen a = (a.vmi_name ≡ chosen.name) × (a.namespace ≡ chosen.namespace)

unrecovered_twice :
    (a : AffectedVmi) (st : VmisStatus)
    → unrecovered_more a (unrecovered_more a st)
      ≡ record st { unrecovered = st.unrecovered ++ a ∷ a ∷ [] }
unrecovered_twice a st =
    ap (λ xs. record st { unrecovered = xs }) (append_assoc st.unrecovered (a ∷ []) (a ∷ []))

module _ (outside : Outside) where
  open outside use {W, get_vmi, now}

  -- The machine was not valid or not there: one unrecovered entry.
  abbrev pub NotThere : Vmi → VmisStatus → W → VmisStatus → Type 0
  NotThere chosen st w st1 =
      (a : AffectedVmi) × IsOf chosen a
      × ((validate_environment outside chosen.name chosen.namespace w ≡ false)
          ⊎ (get_vmi chosen.name chosen.namespace w ≡ some none))
      × (st1 ≡ record st { unrecovered = st.unrecovered ++ a ∷ [] })

  -- The deletion failed: two unrecovered entries.
  abbrev pub NotDeleted : Config → Vmi → VmisStatus → W → VmisStatus → Type 0
  NotDeleted config chosen st w st1 =
      (a : AffectedVmi) × IsOf chosen a
      × DeletionFails outside config.disable_auto_restart chosen.name chosen.namespace w
      × (st1 ≡ record st { unrecovered = st.unrecovered ++ a ∷ a ∷ [] })

  -- From the world in which it was there anew: not seen running up to the timeout, with one unrecovered
  -- entry, or seen running, with a recovered one.
  abbrev pub IsAwaited : Config → Vmi → VmisStatus → W → VmisStatus → W → Type 0
  IsAwaited config chosen st w1 st1 w2 =
      (a : AffectedVmi) × IsOf chosen a
      × (((k : ℕ) × (config.timeout ≤ now (after_sleeps outside k w1) - now w1)
            × (st1 ≡ record st { unrecovered = st.unrecovered ++ a ∷ [] }))
          ⊎ ((k : ℕ) × (v : Vmi) × (w2 ≡ after_sleeps outside k w1)
              × (get_vmi chosen.name chosen.namespace (after_sleeps outside k w1) ≡ some (some v))
              × IsRunning outside v
              × (st1 ≡ record st { recovered = st.recovered ++ a ∷ [] })))

  -- The ways in which a round ends that raises nothing.
  abbrev pub RoundEnds : Config → Vmi → VmisStatus → W → VmisStatus → W → Type 0
  RoundEnds config chosen st w st1 w2 =
      NotThere chosen st w st1
      ⊎ ((original : Vmi) × (get_vmi chosen.name chosen.namespace w ≡ some (some original))
          × (NotDeleted config chosen st w st1
              ⊎ ((w1 : W) × IsRecreated outside config.disable_auto_restart chosen.name
                    chosen.namespace original.creation_timestamp w w1
                  × IsAwaited config chosen st w1 st1 w2)))

  abbrev pub Raised : Vmi → Type 0
  Raised chosen = (w : W) × (get_vmi chosen.name chosen.namespace w ≡ none)

  abbrev Round : Config → Vmi → VmisStatus → W → Outcome VmisStatus → VmisStatus → W → Type 0
  Round config chosen st w (returns st1) left w2 = RoundEnds config chosen st w st1 w2
  Round config chosen st w raises left w2 = (left ≡ st) × Raised chosen
  Round config chosen st w stuck left w2 = Unit

  abbrev Awaited : Config → Vmi → VmisStatus → W → Outcome VmisStatus → W → Type 0
  Awaited config chosen st w1 (returns st1) w2 = IsAwaited config chosen st w1 st1 w2
  Awaited config chosen st w1 raises w2 = Raised chosen
  Awaited config chosen st w1 stuck w2 = Unit

  after_running-Awaited :
      (config : Config) (chosen : Vmi) (a : AffectedVmi) (st : VmisStatus) (w1 : W)
      (o : Outcome (Option ℕ)) (w2 : W)
      → IsOf chosen a
      → LoopEnds outside
          (IsRunning outside)
          config.timeout
          (now w1)
          chosen.name
          chosen.namespace
          w1
          o
          w2
      → Awaited config chosen st w1 (after_running o a st) w2
  unfolding after_running
  after_running-Awaited config chosen a st w1 (returns (some time)) w2 of (k, v, same, seen, runs) =
      (_, of, inr (k, v, same, seen, runs, refl))
  after_running-Awaited config chosen a st w1 (returns none) w2 of (k, late) =
      (a, of, inl (k, late, refl))
  after_running-Awaited config chosen a st w1 raises w2 of (k, e) = (_, e)
  after_running-Awaited config chosen a st w1 stuck w2 of h = tt

  Round-Awaited :
      (config : Config) (chosen original : Vmi) (st : VmisStatus) (w w1 : W)
      (o : Outcome VmisStatus) (w2 : W)
      → get_vmi chosen.name chosen.namespace w ≡ some (some original)
      → IsRecreated outside config.disable_auto_restart chosen.name chosen.namespace
          original.creation_timestamp w w1
      → Awaited config chosen st w1 o w2
      → Round config chosen st w o st w2
  Round-Awaited config chosen original st w w1 (returns st1) w2 read anew h =
      inr (original, read, inr (w1, anew, h))
  Round-Awaited config chosen original st w w1 raises w2 read anew h = (refl, h)
  Round-Awaited config chosen original st w w1 stuck w2 read anew h = tt

  outage-Round :
      (fuel : ℕ) (config : Config) (chosen original : Vmi) (st : VmisStatus) (w : W)
      → get_vmi chosen.name chosen.namespace w ≡ some (some original)
      → Round config chosen st w
          (outage outside fuel config original (affected chosen) st w).0
          (outage outside fuel config original (affected chosen) st w).1
          (outage outside fuel config original (affected chosen) st w).2
  unfolding outage
  outage-Round fuel config chosen original st w read =
      let a = affected chosen in
      let d = delete_vmi outside fuel config.disable_auto_restart original a st w in
      let law = delete_vmi-Deletion outside fuel config.disable_auto_restart original a st w in
      elim (Outcome-cases d.0) [
        | inl e ↦
            let (once, fails) = rw e at law in
            rw (outage, e)
              (inr (
                original,
                read,
                inl (a, (refl, refl), fails, ap (unrecovered_more a) once ∙ unrecovered_twice a st),
              ))
        | inr (inl (a1, e)) ↦
            let (same, name, namespace, anew) = rw e at law in
            rw (outage, e, same)
              (Round-Awaited config chosen original st w d.2 _ _ read anew (
                after_running-Awaited config chosen a1 st d.2 _ _ (name, namespace)
                  (wait_for_running-LoopEnds outside fuel config.timeout (now d.2) chosen.name
                    chosen.namespace d.2)))
        | inr (inr (inl e)) ↦ (let no : ⊥ = rw e at law in absurd no)
        | inr (inr (inr e)) ↦ rw (outage, e) tt
      ]

  kill_one-Round :
      (fuel : ℕ) (config : Config) (chosen : Vmi) (st : VmisStatus) (w : W)
      → Round config chosen st w
          (kill_one outside fuel config chosen st w).0
          (kill_one outside fuel config chosen st w).1
          (kill_one outside fuel config chosen st w).2
  unfolding kill_one
  kill_one-Round fuel config chosen st w =
      elim (Bool-cases (validate_environment outside chosen.name chosen.namespace w)) [
        | inr e ↦ rw (kill_one, e) (inl (_, (refl, refl), inl e, refl))
        | inl e ↦ elim (Option-cases (get_vmi chosen.name chosen.namespace w)) [
          | inl f ↦ rw (kill_one, e, f) (refl, (w, f))
          | inr (none, f) ↦ rw (kill_one, e, f) (inl (_, (refl, refl), inr f, refl))
          | inr (some original, f) ↦
              rw (kill_one, e, f) (outage-Round fuel config chosen original st w f)
        ]
      ]

  -- The rounds on a list of machines, each from the status and the world that the one before it left, up to
  -- the last of them or to one in which the client raises, which keeps the status that it found.
  abbrev pub Rounds : ℕ → Config → List Vmi → VmisStatus → W → VmisStatus → Type 0
  Rounds zero config vmis st w st1 = st1 ≡ st
  Rounds (suc n) config vmis st w st1 =
      ((element (outside.randint (length vmis) w).0 vmis ≡ none) × (st1 ≡ st))
      ⊎ ((chosen : Vmi) × (element (outside.randint (length vmis) w).0 vmis ≡ some chosen)
          × (((st1 ≡ st) × Raised chosen)
              ⊎ ((st2 : VmisStatus) × (w2 : W) × RoundEnds config chosen st
                    (outside.randint (length vmis) w).1 st2 w2
                  × Rounds n config vmis st2 w2 st1)))

  kill_loop-Rounds :
      (fuel n : ℕ) (config : Config) (vmis : List Vmi) (st st1 : VmisStatus) (w : W)
      → (kill_loop outside fuel n config vmis st w).0 ≡ returns st1
      → Rounds n config vmis st w st1
  unfolding kill_loop
  kill_loop-Rounds fuel zero config vmis st st1 w h = sym (returns-inj st st1 h)
  kill_loop-Rounds fuel (suc n) config vmis st st1 w h =
      let i = outside.randint (length vmis) w in
      elim (Option-cases (element i.0 vmis)) [
        | inl e ↦ inl (e, sym (returns-inj st st1 (rw (kill_loop, e) at h)))
        | inr (chosen, e) ↦
            let k = kill_one outside fuel config chosen st i.1 in
            let law = kill_one-Round fuel config chosen st i.1 in
            elim (Killed-cases k.0) [
              | inl (st2, f) ↦ inr (
                chosen,
                e,
                inr (
                  st2,
                  k.2,
                  rw f at law,
                  kill_loop-Rounds fuel n config vmis st2 st1 k.2 (rw (kill_loop, e, f) at h),
                ),
              )
              | inr (inl f) ↦
                  let (kept, raised) = rw f at law in
                  inr (
                    chosen,
                    e,
                    inl (sym (returns-inj k.1 st1 (rw (kill_loop, e, f) at h)) ∙ kept, raised),
                  )
              | inr (inr f) ↦ (let h' = rw (kill_loop, e, f) at h in absurd (ground arith))
            ]
      ]

  -- Where `execute_scenario` has a target and finds machines, the status that it returns is that of
  -- `kill_count` rounds, each on a machine that was found. A machine is recovered, once for its round, only if
  -- its deletion worked, later it was there with another creation timestamp, and after that it was seen
  -- running. A deletion that fails is reported as unrecovered twice, any other failure once. The rounds end
  -- early only where the client raises.
  pub execute_scenario-Rounds :
      (fuel : ℕ) (config : Config) (w : W) (st : VmisStatus)
      → is_targeted config ≡ true
      → is_empty (matching outside config w) ≡ false
      → (execute_scenario outside fuel config w).0 ≡ returns st
      → Rounds config.kill_count config (matching outside config w) no_status w st
  unfolding execute_scenario
  execute_scenario-Rounds fuel config w st t f h =
      kill_loop-Rounds fuel config.kill_count config (matching outside config w) no_status st w
        (rw (execute_scenario, t, f) at h)

-- ===== src/Main/Outcome.antt =====
-- run_kraken.py: the end of a run, and what its exit code says of it.
use krkn.Base.{
  ℕ, zero, suc, ◌+◌, ◌≤◌, ◌<◌, ◌≡◌, refl, ap, ◌⊎◌, true, false, not, ◌&&◌, some, List, [], ◌∷◌,
  ◌++◌, keep, keep-append, map, All, is_empty, length, ltb, Bool-cases, Option-cases, inl, inr,
  arith,
}
use krkn.Base.Int.{pos}
use krkn.Alerts.{ChaosRunAlert, ChaosRunAlertSummary, critical_alerts}
use krkn.Runner.{Entry, ScenarioTelemetry}
use krkn.Runner.Laws.{Reported, not_zero}
use krkn.Runner.Factory.{PluginClass, create_plugin}
use krkn.HealthChecks.{HealthCheckPlugin, increment_iterations, below_limit}
use krkn.HealthChecks.Factory.{increment_all_iterations}
use krkn.Main.{
  is_stop, Scenario, Outside, Settings, MainState, next, check_alerts, run_batch, scenario_loop,
  end_iteration, main_loop,
}
use krkn.Main.Exit.{Ending, after_loop}
use krkn.Main.Exit.Laws.{after_loop-zero}
use krkn.Main.Laws.{Leaves, after_step, scenario_loop_keeps, main_loop_keeps}

is_empty-append :
    {A : Type 0} (xs ys : List A)
    → is_empty (xs ++ ys) ≡ true
    → (is_empty xs ≡ true) × (is_empty ys ≡ true)
is_empty-append [] ys h = (refl, h)
is_empty-append (x ∷ xs) ys h = absurd (ground arith)

is_empty-map : {A B : Type 0} (f : A → B) (xs : List A) → is_empty (map f xs) ≡ true → xs ≡ []
is_empty-map f [] h = refl
is_empty-map f (x ∷ xs) h = absurd (ground arith)

module _ (outside : Outside) (settings : Settings) where
  abbrev pub after_batch :
      List Entry → List ScenarioTelemetry → ℕ → ChaosRunAlertSummary → MainState → MainState
  after_batch failed telemetries post summary m = record m {
    failed_post_scenarios = m.failed_post_scenarios ++ failed;
    scenarios = m.scenarios ++ telemetries;
    post_critical_alerts = post;
    summary = summary;
  }

  -- The number of alerts is 0 where they are not checked; else the summary has grown and is counted.
  abbrev pub Counted : MainState → ℕ → ChaosRunAlertSummary → Type 0
  Counted m post summary =
      ((settings.check_critical_alerts ≡ false) × (post ≡ 0) × (summary ≡ m.summary))
      ⊎ ((more : List ChaosRunAlert) × (summary.post_chaos_alerts
            ≡ m.summary.post_chaos_alerts ++ more)
          × (post ≡ length summary.post_chaos_alerts))

  -- What a batch changes: the two lists grow by its results, and the alerts are counted.
  pub run_batch_keeps :
      (Q : Type 0) (P : MainState → Type 0)
      → ((cls : PluginClass) (entries : List Entry) (w : outside.W)
            (r : List Entry × List ScenarioTelemetry) (post : ℕ) (summary : ChaosRunAlertSummary)
            (m : MainState)
          → (outside.plugin_run cls entries w).0 ≡ some r
          → Counted m post summary
          → P m
          → P (after_batch r.0 r.1 post summary m))
      → (scenario : Scenario) (m : MainState) (w : outside.W) → P m
      → Leaves Q P (run_batch outside settings scenario m w).0
  unfolding run_batch check_alerts critical_alerts
  run_batch_keeps Q P h scenario m w p =
      elim (Option-cases (create_plugin scenario.scenario_type settings.plugins)) [
        | inl e ↦ rw (run_batch, e) tt
        | inr (cls, e) ↦ elim (Option-cases (outside.plugin_run cls scenario.scenarios_list w).0) [
          | inl f ↦ rw (run_batch, e, f) tt
          | inr (r, f) ↦
              rw (run_batch, e, f)
                (alerts r _
                  (λ post summary c. h cls scenario.scenarios_list w r post summary m f c p))
        ]
      ]
    where
      alerts :
          (r : List Entry × List ScenarioTelemetry) (w1 : outside.W)
          → ((post : ℕ) (summary : ChaosRunAlertSummary)
              → Counted m post summary
              → P (after_batch r.0 r.1 post summary m))
          → Leaves Q P
              (check_alerts outside settings scenario.scenario_type
                (record m {
                  failed_post_scenarios = m.failed_post_scenarios ++ r.0;
                  scenarios = m.scenarios ++ r.1;
                })
                w1).0
      alerts r w1 k = elim (Bool-cases settings.check_critical_alerts) [
        | inr e ↦ rw (check_alerts, e) (k 0 m.summary (inl (e, refl, refl)))
        | inl e ↦ elim (Option-cases (outside.query_alerts w1).0) [
          | inl f ↦ rw (check_alerts, e, f) tt
          | inr ((during, post), f) ↦
              let summary = critical_alerts scenario.scenario_type during post m.summary in
              let counted = k (length summary.post_chaos_alerts) summary (inr (_, refl, refl)) in
              elim (Bool-cases (ltb 0 (length summary.post_chaos_alerts))) [
                | inl g ↦ rw (check_alerts, e, f, g) counted
                | inr g ↦ rw (check_alerts, e, f, g) counted
              ]
        ]
      ]

  -- Every plugin that is checked on counts the iterations that the run has begun.
  abbrev pub CountsAlong : MainState → Type 0
  CountsAlong m =
      All (λ (p : HealthCheckPlugin). p.current_iterations ≡ m.iteration)
        m.health_checks.active_plugins

  CountsAlong-end_iteration :
      (m : MainState) → CountsAlong m → CountsAlong (end_iteration outside settings m)
  unfolding end_iteration increment_all_iterations increment_iterations
  CountsAlong-end_iteration m h = counted m.health_checks.active_plugins h
    where
      counted :
          (ps : List HealthCheckPlugin)
          → All (λ (p : HealthCheckPlugin). p.current_iterations ≡ m.iteration) ps
          → All
              (λ (p : HealthCheckPlugin). p.current_iterations ≡ suc m.iteration)
              (map increment_iterations ps)
      counted [] k = tt
      counted (p ∷ ps) k = (ap suc k.0, counted ps k.1)

  -- Where the counts of the active health checks start with that of the run, they agree with it when
  -- the loop ends, however it was paused, stopped or left because of alerts.
  pub main_loop-CountsAlong :
      (fuel : ℕ) (m m1 : MainState) (w : outside.W)
      → CountsAlong m
      → (main_loop outside settings fuel m w).0 ≡ next m1
      → CountsAlong m1
  main_loop-CountsAlong fuel m m1 w h e = rw e at (
      main_loop_keeps outside settings Unit CountsAlong
        (run_batch_keeps Unit CountsAlong (λ cls entries w1 r post summary m2 f c p. p))
        (λ m2 signal answers p. p) CountsAlong-end_iteration tt fuel m w h)

  -- Without failed scenarios, every telemetry has the exit status 0.
  abbrev Honest : MainState → Type 0
  Honest m = is_empty m.failed_post_scenarios ≡ true → keep not_zero m.scenarios ≡ []

  Honest-after_batch :
      (entries : List Entry) (r : List Entry × List ScenarioTelemetry) (post : ℕ)
      (summary : ChaosRunAlertSummary) (m : MainState)
      → Reported entries r
      → Honest m
      → Honest (after_batch r.0 r.1 post summary m)
  Honest-after_batch entries r post summary m (names, failed) h e =
      let (before, now) = is_empty-append m.failed_post_scenarios r.0 e in
      let (own, _) = is_empty-append _ _ (rw failed at now) in
      rw (keep-append not_zero m.scenarios r.1, h before) (is_empty-map _ (keep not_zero r.1) own)

  main_loop-Honest :
      (fuel : ℕ) (m m1 : MainState) (w : outside.W)
      → ((cls : PluginClass) (entries : List Entry) (w : outside.W)
            (r : List Entry × List ScenarioTelemetry)
          → (outside.plugin_run cls entries w).0 ≡ some r
          → Reported entries r)
      → Honest m
      → (main_loop outside settings fuel m w).0 ≡ next m1
      → Honest m1
  unfolding end_iteration
  main_loop-Honest fuel m m1 w reports h e = rw e at (
      main_loop_keeps outside settings Unit Honest
        (run_batch_keeps Unit Honest (λ cls entries w1 r post summary m2 f c p.
          Honest-after_batch entries r post summary m2 (reports cls entries w1 r f) p))
        (λ m2 signal answers p. p) (λ m2 p. p) tt fuel m w h)

  -- If each batch reports its scenarios as the runner does, a run that starts without telemetries and exits
  -- with 0 has the exit status 0 in the telemetry of every scenario that it ran.
  pub success_is_clean :
      (fuel : ℕ) (m m1 : MainState) (w : outside.W) (e : Ending)
      → ((cls : PluginClass) (entries : List Entry) (w : outside.W)
            (r : List Entry × List ScenarioTelemetry)
          → (outside.plugin_run cls entries w).0 ≡ some r
          → Reported entries r)
      → m.scenarios ≡ []
      → (main_loop outside settings fuel m w).0 ≡ next m1
      → e.failed_post_scenarios ≡ m1.failed_post_scenarios
      → after_loop e ≡ pos 0
      → keep not_zero m1.scenarios ≡ []
  success_is_clean fuel m m1 w e reports none_yet ends same code =
      main_loop-Honest fuel m m1 w reports (λ h. rw none_yet refl) ends
        (rw same at ((after_loop-zero e).0 code).0)

  guard_ends :
      (m : MainState) (n : ℕ)
      → settings.iterations ≡ some n
      → (below_limit m.iteration settings.iterations && not (is_stop m.run_signal)) ≡ false
      → (n ≤ m.iteration) ⊎ (is_stop m.run_signal ≡ true)
  unfolding below_limit
  guard_ends m n h e = (let e' = rw h at e in ground arith)

  guard_holds :
      (m : MainState) (n : ℕ)
      → settings.iterations ≡ some n
      → (below_limit m.iteration settings.iterations && not (is_stop m.run_signal)) ≡ true
      → m.iteration < n
  unfolding below_limit
  guard_holds m n h e = (let e' = rw h at e in ground arith)

  scenario_loop-iteration :
      (scenarios : List Scenario) (m : MainState) (w : outside.W)
      → Leaves ⊥ (λ m1. m1.iteration ≡ m.iteration) (scenario_loop outside settings scenarios m w).0
  scenario_loop-iteration scenarios m w =
      scenario_loop_keeps outside settings ⊥ (λ m1. m1.iteration ≡ m.iteration)
        (run_batch_keeps ⊥ (λ m1. m1.iteration ≡ m.iteration)
          (λ cls entries w1 r post summary m2 f c p. p))
        (λ m2 signal answers p. p) scenarios m w refl

  -- With a number of iterations and fuel for those that are left, the loop does not run out of fuel, and
  -- where it ends the iterations are done or the run was stopped.
  pub main_loop_ends :
      (n fuel : ℕ) (m : MainState) (w : outside.W)
      → settings.iterations ≡ some n
      → n ≤ m.iteration + fuel
      → Leaves ⊥
          (λ m1. (n ≤ m1.iteration) ⊎ (is_stop m1.run_signal ≡ true))
          (main_loop outside settings (suc fuel) m w).0
  unfolding main_loop below_limit end_iteration
  main_loop_ends n zero m w h k =
      elim (Bool-cases
        (below_limit m.iteration settings.iterations && not (is_stop m.run_signal))) [
          | inr e ↦ rw (main_loop, e) (guard_ends m n h e)
          | inl e ↦ absurd (let below = guard_holds m n h e in omega arith)
        ]
  main_loop_ends n (suc fuel) m w h k =
      elim (Bool-cases
        (below_limit m.iteration settings.iterations && not (is_stop m.run_signal))) [
          | inr e ↦ rw (main_loop, e) (guard_ends m n h e)
          | inl e ↦
              rw (main_loop, e)
                (after_step outside settings ⊥ (λ m1. m1.iteration ≡ m.iteration) _ _ _
                  (λ m1 w1 q. main_loop_ends n fuel _ w1 h (omega (arith, q)))
                  (λ m1 w1 q. main_loop_ends n fuel _ w1 h (omega (arith, q)))
                  (scenario_loop outside settings settings.chaos_scenarios m w)
                  (scenario_loop-iteration settings.chaos_scenarios m w))
        ]

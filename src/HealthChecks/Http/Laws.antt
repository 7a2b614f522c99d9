-- ===== src/HealthChecks/Http/Laws.antt =====
-- krkn/health_checks/http_health_check_plugin.py: what is put into the queue, and the return value.
use krkn.Base.{
  ℕ, ◌≤◌, ◌+◌, ◌≡◌, refl, ap, ◌∙◌, ◌⊎◌, true, false, Option, none, some, is_some, List, [], ◌∷◌,
  any, keep, if◌then◌else◌, is_empty, length, Bool-cases, Option-cases, inl, inr, arith,
}
use krkn.Base.Text.{Text}
use krkn.Base.Dict.{lookup}
use krkn.HealthChecks.{HealthCheckPlugin, MainCall}
use krkn.HealthChecks.Http.{
  HttpConfig, HealthCheck, Outside, finish, started, is_defined, run_health_check,
}
use krkn.HealthChecks.Http.Periods.{Sample, track_all, concerns, sampled_at, periods}
use krkn.HealthChecks.Http.Refine.{all_records, track_all-periods}
use krkn.HealthChecks.Http.Loop.{
  observed, tracked, poll_loop-observed, observed_stopped, observed_counted, stops, all_increments,
}

-- The list that a run puts into its queue.
abbrev pub put_list : Option (HealthCheckPlugin × List (List HealthCheck)) → List HealthCheck
put_list none = []
put_list (some (plugin, [])) = []
put_list (some (plugin, records ∷ more)) = records

module _ (outside : Outside) where
  open outside use {W, now}

  -- A run over a defined configuration, from its samples.
  pub run_health_check-observed :
      (schedule : List (List MainCall)) (config : HttpConfig) (plugin plugin1 : HealthCheckPlugin)
      (ss : List Sample) (w w1 : W)
      → is_defined config ≡ true
      → observed outside schedule config plugin w ≡ (some (plugin1, ss), w1)
      → run_health_check outside schedule config plugin w ≡ (
        some (
          record plugin1 { ret_value = (track_all ss (started config plugin)).ret_value },
          all_records (now w1) (track_all ss (started config plugin)) ∷ [],
        ),
        w1,
      )
  unfolding run_health_check finish
  run_health_check-observed schedule config plugin plugin1 ss w w1 d o =
      let p =
        poll_loop-observed outside schedule config plugin (started config plugin) w
        ∙ ap (λ x. (tracked outside (started config plugin) x.0, x.1)) o in
      rw (run_health_check, d, ap (λ x. x.0) p, ap (λ x. x.1) p) refl

  -- Where the url of some entry is defined and the loop ends, what is put into the queue says of each
  -- url exactly what a monitor of this url alone would say of its samples, however the urls are interleaved.
  pub run_health_check_refines :
      (schedule : List (List MainCall)) (config : HttpConfig) (plugin plugin1 : HealthCheckPlugin)
      (ss : List Sample) (w w1 : W) (url : Text)
      → is_defined config ≡ true
      → observed outside schedule config plugin w ≡ (some (plugin1, ss), w1)
      → keep (concerns url) (put_list (run_health_check outside schedule config plugin w).0)
        ≡ periods url (now w1) none (keep (sampled_at url) ss)
  unfolding lookup
  run_health_check_refines schedule config plugin plugin1 ss w w1 url d o =
      rw (run_health_check-observed schedule config plugin plugin1 ss w w1 d o)
        (track_all-periods url (now w1) ss (started config plugin) refl)

  observed_ends :
      (schedule : List (List MainCall)) (config : HttpConfig) (plugin : HealthCheckPlugin) (w : W)
      (limit : ℕ)
      → (any stops schedule ≡ true)
        ⊎ ((plugin.iterations ≡ some limit)
            × (is_empty schedule ≡ false)
            × (limit ≤ plugin.current_iterations + all_increments schedule))
      → is_some (observed outside schedule config plugin w).0 ≡ true
  observed_ends schedule config plugin w limit (inl h) =
      observed_stopped outside schedule config plugin w h
  observed_ends schedule config plugin w limit (inr (h, n, k)) =
      observed_counted outside schedule config plugin w limit h n k

  -- If the main thread stops the plugin, or counts at least its iterations and the loop tests its
  -- condition, the thread ends, and it puts one list into the queue, or none if no url is defined.
  pub run_health_check_ends :
      (schedule : List (List MainCall)) (config : HttpConfig) (plugin : HealthCheckPlugin) (w : W)
      (limit : ℕ)
      → (any stops schedule ≡ true)
        ⊎ ((plugin.iterations ≡ some limit)
            × (is_empty schedule ≡ false)
            × (limit ≤ plugin.current_iterations + all_increments schedule))
      → (r : HealthCheckPlugin × List (List HealthCheck)) × ((run_health_check outside schedule
            config plugin w).0
          ≡ some r)
        × (length r.1 ≡ (if is_defined config then 1 else 0))
  unfolding run_health_check
  run_health_check_ends schedule config plugin w limit h = elim (Bool-cases (is_defined config)) [
    | inr d ↦ ((plugin, []), rw (run_health_check, d) refl, rw d refl)
    | inl d ↦ elim (Option-cases (observed outside schedule config plugin w).0) [
      | inl o ↦ (let e = observed_ends schedule config plugin w limit h in ground arith)
      | inr ((plugin1, ss), o) ↦ (
        _,
        ap (λ (r : Option (HealthCheckPlugin × List (List HealthCheck)) × W). r.0)
            (run_health_check-observed schedule config plugin plugin1 ss w _ d
              (ap (λ x. (x, (observed outside schedule config plugin w).1)) o)),
        rw d refl,
      )
    ]
  ]

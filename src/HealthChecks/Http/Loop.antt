-- ===== src/HealthChecks/Http/Loop.antt =====
-- krkn/health_checks/http_health_check_plugin.py: the samples that a run of the loop takes, and when
-- the loop ends.
use krkn.Base.{
  ℕ, suc, ◌+◌, ◌≤◌, ◌<◌, ◌||◌, ◌≡◌, refl, sym, ap, ◌∙◌, Bool, true, false, Option, none, some,
  is_some, List, [], ◌∷◌, ◌++◌, any, if◌then◌else◌, is_empty, Bool-cases, inl, inr, arith,
}
use krkn.HealthChecks.{
  HealthCheckPlugin, MainCall, increment, stop, increment_iterations, set_stop, apply, apply_all,
  below_limit, keeps_polling,
}
use krkn.HealthChecks.Http.{
  CheckConfig, HttpConfig, Outside, Monitor, request_for, check_all, poll_loop,
}
use krkn.HealthChecks.Http.Periods.{Sample, track_all}

-- What the main thread calls.
abbrev pub increments : List MainCall → ℕ
increments [] = 0
increments (increment ∷ calls) = suc (increments calls)
increments (stop ∷ calls) = increments calls

abbrev pub stops : List MainCall → Bool
stops [] = false
stops (increment ∷ calls) = stops calls
stops (stop ∷ calls) = true

abbrev pub all_increments : List (List MainCall) → ℕ
all_increments [] = 0
all_increments (calls ∷ schedule) = increments calls + all_increments schedule

stop_event-apply_all :
    (calls : List MainCall) (plugin : HealthCheckPlugin)
    → (apply_all calls plugin).stop_event ≡ (plugin.stop_event || stops calls)
unfolding apply_all apply increment_iterations set_stop
stop_event-apply_all [] plugin = ground arith
stop_event-apply_all (increment ∷ calls) plugin = stop_event-apply_all calls _
stop_event-apply_all (stop ∷ calls) plugin =
    ground (arith, stop_event-apply_all calls (set_stop plugin))

current_iterations-apply_all :
    (calls : List MainCall) (plugin : HealthCheckPlugin)
    → (apply_all calls plugin).current_iterations ≡ plugin.current_iterations + increments calls
unfolding apply_all apply increment_iterations set_stop
current_iterations-apply_all [] plugin = ground arith
current_iterations-apply_all (increment ∷ calls) plugin =
    omega (arith, current_iterations-apply_all calls (increment_iterations plugin))
current_iterations-apply_all (stop ∷ calls) plugin = current_iterations-apply_all calls _

iterations-apply_all :
    (calls : List MainCall) (plugin : HealthCheckPlugin)
    → (apply_all calls plugin).iterations ≡ plugin.iterations
unfolding apply_all apply increment_iterations set_stop
iterations-apply_all [] plugin = refl
iterations-apply_all (increment ∷ calls) plugin = iterations-apply_all calls _
iterations-apply_all (stop ∷ calls) plugin = iterations-apply_all calls _

-- A plugin that still polls has been counted below its limit, and not been stopped.
keeps_polling-stops :
    (calls : List MainCall) (plugin : HealthCheckPlugin)
    → keeps_polling (apply_all calls plugin) ≡ true
    → stops calls ≡ false
unfolding keeps_polling
keeps_polling-stops calls plugin e = ground (arith, stop_event-apply_all calls plugin)

keeps_polling-increments :
    (calls : List MainCall) (plugin : HealthCheckPlugin) (limit : ℕ)
    → plugin.iterations ≡ some limit
    → keeps_polling (apply_all calls plugin) ≡ true
    → plugin.current_iterations + increments calls < limit
unfolding keeps_polling below_limit
keeps_polling-increments calls plugin limit h e =
    ground (arith, current_iterations-apply_all calls plugin, iterations-apply_all calls plugin)

module _ (outside : Outside) where
  open outside use {W, now, sleep}

  abbrev pub sample_of : CheckConfig → ℕ → ℕ → Sample
  sample_of check_config status_code time = record {
    url = check_config.url;
    status_code = status_code;
    time = time;
    exit_on_failure = check_config.exit_on_failure;
  }

  -- The samples of one pass.
  abbrev pub samples : List CheckConfig → W → List Sample × W
  samples [] w = ([], w)
  samples (check_config ∷ configs) w =
      let (response, w1) = request_for outside check_config w in
      let (rest, w2) = samples configs w1 in
      if is_empty check_config.url
      then samples configs w
      else (sample_of check_config response.status_code (now w1) ∷ rest, w2)

  abbrev pub more_samples :
      List Sample
      → Option (HealthCheckPlugin × List Sample)
      → Option (HealthCheckPlugin × List Sample)
  more_samples ss none = none
  more_samples ss (some (plugin, rest)) = some (plugin, ss ++ rest)

  -- The samples of a whole run, which its records play no part in.
  abbrev pub observed :
      List (List MainCall)
      → HttpConfig
      → HealthCheckPlugin
      → W
      → Option (HealthCheckPlugin × List Sample) × W
  observed [] config plugin w = (none, w)
  observed (calls ∷ schedule) config plugin w =
      let plugin1 = apply_all calls plugin in
      let (ss, w1) = samples config.config w in
      let (rest, w2) = observed schedule config plugin1 (sleep config.interval w1) in
      if keeps_polling plugin1 then (more_samples ss rest, w2) else (some (plugin1, []), w)

  track_all-append :
      (ss ts : List Sample) (m : Monitor) → track_all (ss ++ ts) m ≡ track_all ts (track_all ss m)
  track_all-append [] ts m = refl
  track_all-append (s ∷ ss) ts m = track_all-append ss ts _

  check_all-samples :
      (configs : List CheckConfig) (m : Monitor) (w : W)
      → check_all outside configs m w ≡ (track_all (samples configs w).0 m, (samples configs w).1)
  unfolding check_all
  check_all-samples [] m w = refl
  check_all-samples (c ∷ configs) m w = elim (Bool-cases (is_empty c.url)) [
    | inl e ↦ rw (check_all, e) (check_all-samples configs m w)
    | inr e ↦ rw (check_all, e) (check_all-samples configs _ _)
  ]

  abbrev pub tracked :
      Monitor → Option (HealthCheckPlugin × List Sample) → Option (HealthCheckPlugin × Monitor)
  tracked m none = none
  tracked m (some (plugin, ss)) = some (plugin, track_all ss m)

  tracked-more_samples :
      (ss : List Sample) (o : Option (HealthCheckPlugin × List Sample)) (m : Monitor)
      → tracked (track_all ss m) o ≡ tracked m (more_samples ss o)
  tracked-more_samples ss none m = refl
  tracked-more_samples ss (some (plugin, rest)) m =
      ap (λ x. some (plugin, x)) (sym (track_all-append ss rest m))

  -- The loop keeps track of exactly the samples that it takes, in order.
  pub poll_loop-observed :
      (schedule : List (List MainCall)) (config : HttpConfig) (plugin : HealthCheckPlugin)
      (m : Monitor) (w : W)
      → poll_loop outside schedule config plugin m w
        ≡ (tracked m (observed schedule config plugin w).0, (observed schedule config plugin w).1)
  unfolding poll_loop
  poll_loop-observed [] config plugin m w = refl
  poll_loop-observed (calls ∷ schedule) config plugin m w =
      elim (Bool-cases (keeps_polling (apply_all calls plugin))) [
        | inr e ↦ rw (poll_loop, e) refl
        | inl e ↦
            rw (poll_loop, e, check_all-samples config.config m w)
              (poll_loop-observed schedule config (apply_all calls plugin) _ _
                ∙ ap
                    (λ x. (
                      x,
                      (observed schedule config (apply_all calls plugin)
                          (sleep config.interval (samples config.config w).1)).1,
                    ))
                    (tracked-more_samples (samples config.config w).0 _ m))
      ]

  is_some-more_samples :
      (ss : List Sample) (o : Option (HealthCheckPlugin × List Sample))
      → is_some (more_samples ss o) ≡ is_some o
  is_some-more_samples ss none = refl
  is_some-more_samples ss (some (plugin, rest)) = refl

  -- A loop that main stops ends, and so does one whose iterations main counts to their number.
  pub observed_stopped :
      (schedule : List (List MainCall)) (config : HttpConfig) (plugin : HealthCheckPlugin) (w : W)
      → any stops schedule ≡ true
      → is_some (observed schedule config plugin w).0 ≡ true
  observed_stopped [] config plugin w h = ground arith
  observed_stopped (calls ∷ schedule) config plugin w h =
      elim (Bool-cases (keeps_polling (apply_all calls plugin))) [
        | inr e ↦ rw e refl
        | inl e ↦
            rw (e, is_some-more_samples (samples config.config w).0)
              (observed_stopped schedule config _ _ (rw (keeps_polling-stops calls plugin e) at h))
      ]

  not_empty :
      (schedule : List (List MainCall)) → 0 < all_increments schedule → is_empty schedule ≡ false
  not_empty [] h = absurd (omega arith)
  not_empty (calls ∷ schedule) h = refl

  pub observed_counted :
      (schedule : List (List MainCall)) (config : HttpConfig) (plugin : HealthCheckPlugin) (w : W)
      (limit : ℕ)
      → plugin.iterations ≡ some limit
      → is_empty schedule ≡ false
      → limit ≤ plugin.current_iterations + all_increments schedule
      → is_some (observed schedule config plugin w).0 ≡ true
  observed_counted [] config plugin w limit h n k = ground arith
  observed_counted (calls ∷ schedule) config plugin w limit h n k =
      elim (Bool-cases (keeps_polling (apply_all calls plugin))) [
        | inr e ↦ rw e refl
        | inl e ↦
            let below = keeps_polling-increments calls plugin limit h e in
            rw (e, is_some-more_samples (samples config.config w).0)
              (observed_counted schedule config _ _ limit (iterations-apply_all calls plugin ∙ h)
                (not_empty schedule (omega arith))
                (omega (arith, current_iterations-apply_all calls plugin)))
      ]

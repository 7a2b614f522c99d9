-- ===== src/Main/Exit.antt =====
-- run_kraken.py: the exit code of a run whose loop has ended.
pub mod Laws
use krkn.Base.{
  ℕ, Bool, true, false, not, Option, none, some, List, [], ◌∷◌, ◌++◌, if◌then◌else◌, is_empty, ltb,
  length,
}
use krkn.Base.Int.{ℤ, pos, negsuc, is_zero}
use krkn.Runner.{Entry}
use krkn.HealthChecks.Http.{HealthCheck}

-- What the exit code is read from.
pub record Ending : Type 0 where
  pub failed_post_scenarios : List Entry
  -- `get_return_value()` of each checker that was started
  pub return_values : List ℤ
  pub post_critical_alerts : ℕ
  -- the number of alerts of the profile, none if no profile is defined
  pub profile_critical_alerts : Option ℕ
  pub enable_alerts : Bool
  -- whether a historical window is asked for, and if so whether its score was computed
  pub history : Option Bool

unfoldable pub first_failure : List ℤ → Option ℤ
first_failure [] = none
first_failure (value ∷ values) =
    let rest = first_failure values in if is_zero value then rest else some value

-- The alerts of the profile, of which there are none where alerts are not enabled.
unfoldable pub profile_alerts : Ending → Option ℕ
profile_alerts e = if e.enable_alerts then e.profile_critical_alerts else some 0

unfoldable pub job_status : ℕ → ℕ → Bool
job_status post profile = if ltb 0 post then false else not (ltb 0 profile)

-- The tests at the end of `main`, in their order.
unfoldable pub exit_code : Ending → ℕ → ℤ
unfolding first_failure job_status
exit_code e profile =
    if not (is_empty e.failed_post_scenarios) then pos 1 else elim (first_failure e.return_values) [
      | some value ↦ value
      | none ↦
          if ltb 0 e.post_critical_alerts
          then pos 2
          else if ltb 0 profile
          then pos 2
          else if not (job_status e.post_critical_alerts profile)
          then pos 1
          else pos 0
    ]

-- A score of a historical window that cannot be computed.
unfoldable pub history_failed : Option Bool → Bool
history_failed none = false
history_failed (some computed) = not computed

-- What `main` returns after its loop.
unfoldable pub after_loop : Ending → ℤ
unfolding profile_alerts exit_code history_failed
after_loop e = elim (profile_alerts e) [
  | none ↦ negsuc 0
  | some profile ↦ if history_failed e.history then negsuc 0 else exit_code e profile
]

-- The telemetry of the workers: a worker that put nothing is passed over.
unfoldable pub collect : List (Option (List HealthCheck)) → List HealthCheck
collect [] = []
collect (none ∷ queues) = collect queues
collect (some records ∷ queues) = records ++ collect queues

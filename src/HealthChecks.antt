-- ===== src/HealthChecks.antt =====
-- krkn/health_checks/abstract_health_check_plugin.py: the object of a plugin. The main thread counts its
-- iterations and stops it while its own thread polls, so what main does is a list of actions.
pub mod Http
pub mod Virt
pub mod Factory
mod Tests
use krkn.Base.{ℕ, suc, Bool, true, false, not, ◌&&◌, Option, none, some, List, [], ◌∷◌, ltb}
use krkn.Base.Text.{Text}

-- `iterations` is `none` for `float("inf")`, the daemon mode.
pub record HealthCheckPlugin : Type 0 where
  pub health_check_type : Text
  pub iterations : Option ℕ
  pub current_iterations : ℕ
  pub stop_event : Bool
  pub ret_value : ℕ

-- A call of the main thread on the object.
pub data MainCall : Type 0 where
  increment stop : MainCall

unfoldable pub increment_iterations : HealthCheckPlugin → HealthCheckPlugin
increment_iterations plugin = record plugin { current_iterations = suc plugin.current_iterations }

unfoldable pub set_stop : HealthCheckPlugin → HealthCheckPlugin
set_stop plugin = record plugin { stop_event = true }

unfoldable pub apply : MainCall → HealthCheckPlugin → HealthCheckPlugin
unfolding increment_iterations set_stop
apply increment plugin = increment_iterations plugin
apply stop plugin = set_stop plugin

unfoldable pub apply_all : List MainCall → HealthCheckPlugin → HealthCheckPlugin
unfolding apply
apply_all [] plugin = plugin
apply_all (call ∷ calls) plugin = apply_all calls (apply call plugin)

-- `current_iterations < iterations and not _stop_event.is_set()`
unfoldable pub below_limit : ℕ → Option ℕ → Bool
below_limit n none = true
below_limit n (some limit) = ltb n limit

unfoldable pub keeps_polling : HealthCheckPlugin → Bool
unfolding below_limit
keeps_polling plugin =
    below_limit plugin.current_iterations plugin.iterations && not plugin.stop_event

-- ===== src/Cerberus.antt =====
-- krkn/cerberus/setup.py: the go or no-go signal that a run asks Cerberus for. HTTP and the decoding of
-- JSON are parameters.
pub mod Laws
mod Tests
use krkn.Base.{
  ℕ, Bool, true, false, not, ◌&&◌, Option, none, some, List, [], ◌∷◌, map, keep, if◌then◌else◌,
  is_empty,
}
use krkn.Base.Text.{Text, text, text_eq}

-- The globals of the module.
pub record Globals : Type 0 where
  pub exit_on_failure : Bool
  pub cerberus_enabled : Bool
  pub cerberus_url : Text
  pub check_application_routes : Bool

-- What `set_url` reads of the configuration.
pub record CerberusConfig : Type 0 where
  pub exit_on_failure : Bool
  pub cerberus_enabled : Bool
  pub cerberus_url : Text
  pub check_application_routes : Bool

unfoldable pub set_url : CerberusConfig → Globals → Globals
set_url config g =
    if config.cerberus_enabled
    then record {
      exit_on_failure = config.exit_on_failure;
      cerberus_enabled = true;
      cerberus_url = config.cerberus_url;
      check_application_routes = config.check_application_routes;
    }
    else record g { exit_on_failure = config.exit_on_failure; cerberus_enabled = false }

-- A failure in the history of Cerberus.
pub record Failure : Type 0 where
  pub component : Text
  pub name : Text

-- `none` is an exception: of the request for the signal, which is not caught, or of the request for
-- the history and its decoding.
pub record Outside : Type 1 where
  pub W : Type 0
  pub get_signal : Text → W → Option Text
  pub get_failures : (url : Text) (start_time end_time : ℕ) → W → Option (List Failure)

-- A call that returns, `sys.exit(1)`, or an exception.
pub data Outcome (A : Type 0) : Type 0 where
  returns : A → Outcome A
  exits : Outcome A
  raises : Outcome A

unfoldable pub failed_routes : List Failure → List Text
failed_routes failures =
    map (λ (f : Failure). f.name)
      (keep (λ (f : Failure). text_eq f.component (text "route")) failures)

-- What is made of the signal and of the routes.
unfoldable pub judge : Bool → Bool → Outcome Bool
judge cerberus_status routes_status =
    if not routes_status then exits else if not cerberus_status then exits else returns true

module _ (outside : Outside) where
  open outside use {W, get_signal, get_failures}

  -- `application_status`: the routes that failed.
  unfoldable pub application_status : Globals → ℕ → ℕ → W → Outcome (List Text)
  unfolding failed_routes
  application_status g start_time end_time w =
      if is_empty g.cerberus_url
      then exits
      else elim (get_failures g.cerberus_url start_time end_time w) [
        | none ↦ exits
        | some failures ↦ returns (failed_routes failures)
      ]

  unfoldable pub get_status : Globals → ℕ → ℕ → W → Outcome Bool
  unfolding application_status judge
  get_status g start_time end_time w =
      if not g.cerberus_enabled
      then returns true
      else if is_empty g.cerberus_url
      then exits
      else elim (get_signal g.cerberus_url w) [
        | none ↦ raises
        | some signal ↦
            if not g.check_application_routes
            then judge (text_eq signal (text "True")) true
            else elim (application_status g start_time end_time w) [
              | returns routes ↦ judge (text_eq signal (text "True")) (is_empty routes)
              | exits ↦ exits
              | raises ↦ raises
            ]
      ]

  -- `publish_kraken_status`
  unfoldable pub publish_kraken_status : Globals → ℕ → ℕ → W → Outcome Bool
  unfolding get_status
  publish_kraken_status g start_time end_time w =
      if not g.cerberus_enabled then returns true else elim (get_status g start_time end_time w) [
        | returns cerberus_status ↦
            if not cerberus_status
            then if g.exit_on_failure then exits else returns false
            else if g.exit_on_failure
            then exits
            else returns true
        | exits ↦ exits
        | raises ↦ raises
      ]

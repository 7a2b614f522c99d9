-- ===== src/Resiliency/Collector.antt =====
-- krkn/prometheus/collector.py: from Prometheus answers to SLO verdicts. The query itself and the
-- reading of a sample as a float are the client's and the language's, hence parameters.
pub mod Laws
use krkn.Base.{ℕ, Bool, true, false, Option, none, some, List, [], ◌∷◌, any, if◌then◌else◌}
use krkn.Base.Text.{Text}
use krkn.Base.Dict.{Dict, insert}
use krkn.Base.Int.{ℤ}
use krkn.Base.Float.{Float}

-- One series of an answer: of a range query it has `values`, of an instant query `value`.
pub record Series : Type 0 where
  pub values : Option (List (ℕ × Text))
  pub value : Option (ℕ × Text)

-- An SLO after `Resiliency._normalise_alerts`.
pub record Slo : Type 0 where
  pub name : Text
  pub expr : Text
  pub severity : Text
  pub weight : Option ℤ

-- A Prometheus client and its answers over a window; `none` where the query raises.
abbrev pub Prometheus : Type 0
Prometheus = Text → ℕ → ℕ → Option (List Series)

module _ (float : Float) (parse_float : Text → Option (float.F)) where
  open float use {gt_zero, eq_zero}

  -- `float(val) > 0`, where a sample that is no number is passed over.
  abbrev pub exceeds : ℕ × Text → Bool
  exceeds (_, val) = elim (parse_float val) [ none ↦ false | some x ↦ gt_zero x ]

  -- `float(series["value"][1]) == 0`, false where it is no number.
  abbrev pub instant_passed : ℕ × Text → Bool
  instant_passed (_, val) = elim (parse_float val) [ none ↦ false | some x ↦ eq_zero x ]

  -- The loop over the series; the first argument is `has_samples`.
  scan_series : Bool → List Series → Option Bool
  scan_series true [] = some true
  scan_series false [] = none
  scan_series has_samples (series ∷ rest) =
      let sampled = scan_series true rest in
      let unsampled = scan_series has_samples rest in
      elim series.values [
        | some values ↦ if any exceeds values then some false else sampled
        | none ↦ elim series.value [ some value ↦ some (instant_passed value) | none ↦ unsampled ]
      ]

  unfoldable pub slo_passed : List Series → Option Bool
  unfolding scan_series
  slo_passed prometheus_result = scan_series false prometheus_result

  -- The body of the loop of `evaluate_slos`: no data is a pass, a failed query is a failure.
  unfoldable pub verdict : Option (List Series) → Bool
  verdict none = false
  verdict (some response) = elim (slo_passed response) [ none ↦ true | some passed ↦ passed ]

  evaluate_from : Prometheus → ℕ → ℕ → Dict Bool → List Slo → Dict Bool
  evaluate_from prom_cli start_time end_time results [] = results
  evaluate_from prom_cli start_time end_time results (slo ∷ slos) =
      evaluate_from prom_cli start_time end_time
        (insert slo.name (verdict (prom_cli slo.expr start_time end_time)) results) slos

  unfoldable pub evaluate_slos : Prometheus → List Slo → ℕ → ℕ → Dict Bool
  unfolding evaluate_from
  evaluate_slos prom_cli slo_list start_time end_time =
      evaluate_from prom_cli start_time end_time [] slo_list

-- ===== src/Resiliency/Orchestrator.antt =====
-- krkn/resiliency/resiliency.py: the class `Resiliency`. A method returns the new object; a
-- `RuntimeError`, `ValueError` or `ZeroDivisionError` that it raises is an `err`. Times are seconds.
pub mod Laws
pub mod Alerts
pub mod Telemetry
use krkn.Base.{
  ℕ, ◌+◌, Bool, true, false, Option, none, some, List, [], ◌∷◌, ◌++◌, is_empty, if◌then◌else◌, map,
  get_elem?, length, ◌==◌,
}
use krkn.Base.Text.{Text, text, lower, decimal, text_eq}
use krkn.Base.Dict.{Dict, insert, lookup, get}
use krkn.Base.Int.{ℤ, pos, ◌+ℤ◌, ◌*ℤ◌, is_zero}
use krkn.Base.Float.{Float}
use krkn.Base.Result.{Result, ok, err, ◌>>=◌}
use krkn.Resiliency.Score.{SloDef, detailed, Breakdown, calculate_resiliency_score}
use krkn.Resiliency.Collector.{Slo, Prometheus, evaluate_slos}

pub data Error : Type 0 where
  not_a_list not_calculated nothing_to_finalize not_finalized zero_division : Error

-- An entry of the alerts file: no mapping, or the keys that are read of it.
pub data RawAlert : Type 0 where
  not_mapping : RawAlert
  mapping : (description expr severity : Option Text) → (weight : Option ℤ) → RawAlert

-- `alert.get("description") or f"slo_{idx}"`
unfoldable pub slo_name : Option Text → ℕ → Text
slo_name (some (c ∷ s)) idx = c ∷ s
slo_name (some []) idx = text "slo_" ++ decimal idx
slo_name none idx = text "slo_" ++ decimal idx

unfoldable pub normalise_entry : ℕ → RawAlert → List Slo
unfolding slo_name
normalise_entry idx (mapping description (some expr) (some severity) weight) =
    record {
      name = slo_name description idx;
      expr = expr;
      severity = lower severity;
      weight = weight;
    }
    ∷ []
normalise_entry idx _ = []

unfoldable pub normalise_from : ℕ → List RawAlert → List Slo
unfolding normalise_entry
normalise_from idx [] = []
normalise_from idx (alert ∷ alerts) = normalise_entry idx alert ++ normalise_from (idx + 1) alerts

-- `_normalise_alerts`; `none` is YAML data that is no list.
unfoldable pub normalise_alerts : Option (List RawAlert) → Result Error (List Slo)
unfolding normalise_from
normalise_alerts none = err not_a_list
normalise_alerts (some raw_alerts) = ok (normalise_from 0 raw_alerts)

-- One entry of `scenario_reports`.
pub record Report : Type 0 where
  pub name : Text
  pub start : ℕ
  pub end : ℕ
  pub score : ℤ
  pub weight : ℤ
  pub breakdown : Breakdown
  pub slo_results : Dict Bool
  pub health_check_results : Dict Bool

pub record Summary : Type 0 where
  pub scenarios : Dict ℤ
  pub resiliency_score : ℤ
  pub passed_slos : ℕ
  pub total_slos : ℕ

pub record Resiliency : Type 0 where
  pub slos : List Slo
  pub results : Dict Bool
  pub score : Option ℤ
  pub breakdown : Option Breakdown
  pub health_check_results : Dict Bool
  pub scenario_reports : List Report
  pub summary : Option Summary
  pub detailed_report : Option (List Report)

-- `__init__`, once the alerts file is read.
unfoldable pub init : Option (List RawAlert) → Result Error Resiliency
unfolding normalise_alerts
init raw_yaml_data = normalise_alerts raw_yaml_data >>= λ slos. ok (record {
  slos = slos;
  results = [];
  score = none;
  breakdown = none;
  health_check_results = [];
  scenario_reports = [];
  summary = none;
  detailed_report = none;
})

-- `{slo["name"]: {...} for slo in self._slos}`
slo_defs_from : Dict SloDef → List Slo → Dict SloDef
slo_defs_from defs [] = defs
slo_defs_from defs (slo ∷ slos) =
    slo_defs_from (insert slo.name (detailed (some slo.severity) slo.weight) defs) slos

unfoldable pub slo_defs : List Slo → Dict SloDef
unfolding slo_defs_from
slo_defs slos = slo_defs_from [] slos

abbrev pub or_empty : Option (Dict Bool) → Dict Bool
or_empty none = []
or_empty (some checks) = checks

pub record ScoreDict : Type 0 where
  pub score : ℤ
  pub breakdown : Option Breakdown
  pub slo_results : Dict Bool
  pub health_check_results : Dict Bool

unfoldable pub to_dict : Resiliency → Result Error ScoreDict
to_dict self = elim self.score [
  | none ↦ err not_calculated
  | some score ↦ ok (record {
    score = score;
    breakdown = self.breakdown;
    slo_results = self.results;
    health_check_results = self.health_check_results;
  })
]

unfoldable pub get_summary : Resiliency → Result Error Summary
get_summary self = elim self.summary [ none ↦ err not_finalized | some summary ↦ ok summary ]

unfoldable pub get_detailed_report : Resiliency → Result Error (List Report)
get_detailed_report self = elim self.detailed_report [
  | none ↦ err not_finalized
  | some report ↦ ok report
]

-- `{rep["name"]: f(rep) for rep in reports}`
unfoldable pub by_name {ℓ} : {V : Type ℓ} → (Report → V) → Dict V → List Report → Dict V
by_name f d [] = d
by_name f d (rep ∷ reports) = by_name f (insert rep.name (f rep) d) reports

-- The dict that `finalize_report` assigns to `self.summary`.
unfoldable pub summary_of : List Report → ℤ → Breakdown → Summary
summary_of reports resiliency_score full_breakdown = record {
  scenarios = by_name (λ rep. rep.score) [] reports;
  resiliency_score = resiliency_score;
  passed_slos = full_breakdown.passed;
  total_slos = full_breakdown.passed + full_breakdown.failed;
}

unfoldable pub total_weight : List Report → ℤ
total_weight [] = pos 0
total_weight (rep ∷ reports) = rep.weight +ℤ total_weight reports

unfoldable pub weighted_scores : List Report → ℤ
weighted_scores [] = pos 0
weighted_scores (rep ∷ reports) = rep.score *ℤ rep.weight +ℤ weighted_scores reports

module _ (float : Float) (parse_float : Text → Option (float.F)) where
  unfoldable pub calculate_score : Option (Dict Bool) → Resiliency → ℤ × Resiliency
  calculate_score health_check_results self =
      let (score, breakdown) =
        calculate_resiliency_score float (slo_defs self.slos) self.results
          (or_empty health_check_results) in
      (
        score,
        record self {
          score = some score;
          breakdown = some breakdown;
          health_check_results = or_empty health_check_results;
        },
      )

  -- The dict that `add_scenario_report` appends.
  unfoldable pub scenario_report :
      Text → Prometheus → ℕ → ℕ → ℤ → Option (Dict Bool) → Resiliency → Report
  scenario_report scenario_name prom_cli start_time end_time weight checks self =
      let slo_results = evaluate_slos float parse_float prom_cli self.slos start_time end_time in
      let (score, breakdown) =
        calculate_resiliency_score float (slo_defs self.slos) slo_results (or_empty checks) in
      record {
        name = scenario_name;
        start = start_time;
        end = end_time;
        score = score;
        weight = weight;
        breakdown = breakdown;
        slo_results = slo_results;
        health_check_results = or_empty checks;
      }

  unfoldable pub add_scenario_report :
      Text → Prometheus → ℕ → ℕ → ℤ → Option (Dict Bool) → Resiliency → ℤ × Resiliency
  unfolding scenario_report
  add_scenario_report scenario_name prom_cli start_time end_time weight checks self =
      let report = scenario_report scenario_name prom_cli start_time end_time weight checks self in
      (report.score, record self { scenario_reports = self.scenario_reports ++ report ∷ [] })

  -- `int(sum(score * weight) / total_weight)`
  unfoldable pub weighted_average : List Report → Result Error ℤ
  weighted_average reports =
      if is_zero (total_weight reports)
      then err zero_division
      else ok (float.trunc (float.div (weighted_scores reports) (total_weight reports)))

  unfoldable pub finalize_report : Prometheus → ℕ → ℕ → Resiliency → Result Error Resiliency
  finalize_report prom_cli total_start_time total_end_time self =
      if is_empty self.scenario_reports
      then err nothing_to_finalize
      else (weighted_average self.scenario_reports >>= λ resiliency_score.
          let full_slo_results =
            evaluate_slos float parse_float prom_cli self.slos total_start_time total_end_time in
          let (_, full_breakdown) =
            calculate_resiliency_score float (slo_defs self.slos) full_slo_results [] in
          ok (record self {
            summary = some (summary_of self.scenario_reports resiliency_score full_breakdown);
            detailed_report = some self.scenario_reports;
          }))

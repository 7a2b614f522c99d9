-- ===== src/Resiliency/Orchestrator/Telemetry.antt =====
-- krkn/resiliency/resiliency.py: the compact reports that go into the telemetry of a run, and
-- `finalize_and_save`.
pub mod Laws
use krkn.Base.{
  ℕ, suc, ◌+◌, Bool, true, false, Option, none, some, List, [], ◌∷◌, map, if◌then◌else◌,
}
use krkn.Base.Text.{Text, text, text_eq}
use krkn.Base.Dict.{Dict, insert, lookup, get}
use krkn.Base.Int.{ℤ, pos}
use krkn.Base.Float.{Float}
use krkn.Base.Result.{ok, err}
use krkn.Resiliency.Collector.{Slo, Prometheus}
use krkn.Resiliency.Orchestrator.{
  Report, Resiliency, by_name, add_scenario_report, finalize_report, get_detailed_report,
}

pub record Compact : Type 0 where
  pub resiliency_score : ℤ
  pub passed_slos : ℕ
  pub total_slos : ℕ

-- A report that this class made has every key, so the fallback of `except` is not reached.
unfoldable pub compact_breakdown : Report → Compact
compact_breakdown report = record {
  resiliency_score = report.score;
  passed_slos = report.breakdown.passed;
  total_slos = report.breakdown.passed + report.breakdown.failed;
}

-- An item of a telemetry list: a dict or an object, with the fields that the class reads and sets.
pub record Item : Type 0 where
  pub is_dict : Bool
  pub scenario : Option Text
  pub start_timestamp : Option ℕ
  pub end_timestamp : Option ℕ
  pub resiliency_report : Option Compact

-- `name in score_map`, which is false of a name that is `None`.
abbrev pub mapped : Dict Compact → Option Text → Option Compact
mapped score_map none = none
mapped score_map (some name) = lookup name score_map

-- One round of `attach_compact_to_telemetry`: the item as a dict, with its report if it has one.
unfoldable pub attach_item : Dict Compact → Item → Item
attach_item score_map item = elim (mapped score_map item.scenario) [
  | none ↦ record item { is_dict = true }
  | some compact ↦ record item { is_dict = true; resiliency_report = some compact }
]

unfoldable pub attach_compact_to_telemetry : Resiliency → List Item → List Item
unfolding attach_item by_name
attach_compact_to_telemetry self scenarios =
    map (attach_item (by_name compact_breakdown [] self.scenario_reports)) scenarios

pub record SloDetail : Type 0 where
  pub name : Text
  pub severity : Text
  pub passed : Bool

severity_map : Dict Text → List Slo → Dict Text
severity_map d [] = d
severity_map d (slo ∷ slos) = severity_map (insert slo.name slo.severity d) slos

unfoldable pub get_scenario_slo_details : Resiliency → List (Text × List SloDetail)
unfolding severity_map
get_scenario_slo_details self =
    let severities = severity_map [] self.slos in
    map
      (λ (report : Report). (
        report.name,
        map
            (λ (e : Text × Bool).
              let detail : SloDetail = record {
                name = e.0;
                severity = get severities e.0 (text "unknown");
                passed = e.1;
              } in
              detail)
            report.slo_results,
      ))
      self.scenario_reports

-- `st_ts and en_ts`: both are there and neither is 0.
abbrev pub window : Option ℕ → Option ℕ → ℕ → ℕ → ℕ × ℕ
window (some (suc s)) (some (suc e)) batch_start batch_end = (suc s, suc e)
window _ _ batch_start batch_end = (batch_start, batch_end)

-- `none` is a missing key. A key that holds `None`, which `str` makes the text `None` of, is not represented.
abbrev pub scenario_or : Option Text → Text → Text
scenario_or none scenario_type = scenario_type
scenario_or (some name) _ = name

-- `self.scenario_reports[-1]`
unfoldable pub last_report : List Report → Option Report
last_report [] = none
last_report (rep ∷ []) = some rep
last_report (rep ∷ next ∷ reports) = last_report (next ∷ reports)

-- `tel["resiliency_report"] = compact`; an index out of range raises, and the item is left alone.
unfoldable pub set_report : Item → Option Report → Item
unfolding compact_breakdown
set_report tel none = tel
set_report tel (some rep) = record tel { resiliency_report = some (compact_breakdown rep) }

-- Where `finalize_and_save` puts the detailed report.
pub data Saved : Type 0 where
  nowhere : Saved
  stdout file : List Report → Saved

module _ (float : Float) (parse_float : Text → Option (float.F)) where
  -- `add_scenario_reports`: the new object, and the items with their reports set.
  unfoldable pub add_scenario_reports :
      List Item → Prometheus → Text → ℕ → ℕ → ℤ → Resiliency → Resiliency × List Item
  add_scenario_reports [] prom_cli scenario_type batch_start batch_end weight self = (self, [])
  add_scenario_reports (tel ∷ tels) prom_cli scenario_type batch_start batch_end weight self =
      let (st_dt, en_dt) = window tel.start_timestamp tel.end_timestamp batch_start batch_end in
      let (score, self') =
        add_scenario_report float parse_float (scenario_or tel.scenario scenario_type) prom_cli
          st_dt en_dt weight none self in
      let tel' = set_report tel (last_report self'.scenario_reports) in
      let (final, tels') =
        add_scenario_reports tels prom_cli scenario_type batch_start batch_end weight self' in
      (final, tel' ∷ tels')

  -- Every exception is logged and swallowed; printing and writing fail without an effect here.
  unfoldable pub finalize_and_save : Prometheus → ℕ → ℕ → Text → Resiliency → Resiliency × Saved
  finalize_and_save prom_cli total_start total_end run_mode self =
      elim (finalize_report float parse_float prom_cli total_start total_end self) [
        | err _ ↦ (self, nowhere)
        | ok self' ↦ elim (get_detailed_report self') [
          | err _ ↦ (self', nowhere)
          | ok detailed ↦
              (self', if text_eq run_mode (text "detailed") then stdout detailed else file detailed)
        ]
      ]

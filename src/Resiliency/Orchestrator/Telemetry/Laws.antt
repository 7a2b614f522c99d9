-- ===== src/Resiliency/Orchestrator/Telemetry/Laws.antt =====
-- How the compact reports reach the telemetry, and what `finalize_and_save` hands out.
use krkn.Base.{
  ℕ, ◌≡◌, refl, ◌∙◌, sym, ap, true, false, Option, none, some, List, [], ◌∷◌, ◌++◌, arith, is_empty,
  length, map, if◌then◌else◌, Option-cases, inl, inr,
}
use mathlib.Core.Path.{ap₂}
use mathlib.Core.List.{append-nil, append_assoc}
use krkn.Base.Text.{Text, text, text_eq}
use krkn.Base.Dict.{Dict, lookup, insert, lookup-insert}
use krkn.Base.Int.{ℤ, pos, ◌≤ℤ◌}
use krkn.Base.Float.{Float}
use krkn.Base.Result.{ok}
use krkn.Resiliency.Collector.{Prometheus}
use krkn.Resiliency.Orchestrator.{
  Report, Summary, Resiliency, by_name, add_scenario_report, scenario_report, finalize_report,
  get_summary, get_detailed_report, slo_defs,
}
use krkn.Resiliency.Orchestrator.Laws.{IsValid, add_scenario_report-IsValid, finalize_report-valid}
use krkn.Resiliency.Orchestrator.Telemetry.{
  Compact, compact_breakdown, Item, attach_item, attach_compact_to_telemetry, last_report,
  set_report, window, scenario_or, Saved, stdout, file, add_scenario_reports, finalize_and_save,
}

-- The last report that bears a name.
abbrev pub last_named : Text → List Report → Option Report
last_named name [] = none
last_named name (rep ∷ reports) = elim (last_named name reports) [
  | some later ↦ some later
  | none ↦ if text_eq rep.name name then some rep else none
]

lookup-by_name :
    (f : Report → Compact) (name : Text) (d : Dict Compact) (reports : List Report)
    → lookup name (by_name f d reports)
      ≡ elim (last_named name reports) [ some rep ↦ some (f rep) | none ↦ lookup name d ]
unfolding by_name
lookup-by_name f name d [] = refl
lookup-by_name f name d (rep ∷ reports) = ground (
  arith,
  lookup-by_name f name (insert rep.name (f rep) d) reports,
  lookup-insert rep.name name (f rep) d,
)

-- What an item becomes: a dict with the compact form of the last report of its scenario, or with
-- the report that it had where there is none.
abbrev pub attached : Resiliency → Item → Item
attached self item = elim item.scenario [
  | none ↦ record item { is_dict = true }
  | some name ↦ elim (last_named name self.scenario_reports) [
    | none ↦ record item { is_dict = true }
    | some rep ↦ record item { is_dict = true; resiliency_report = some (compact_breakdown rep) }
  ]
]

attach_item-attached :
    (self : Resiliency) (item : Item)
    → attach_item (by_name compact_breakdown [] self.scenario_reports) item ≡ attached self item
unfolding attach_item lookup
attach_item-attached self item = elim (Option-cases item.scenario) [
  | inl e ↦ ground arith
  | inr (name, e) ↦ ground (arith, lookup-by_name compact_breakdown name [] self.scenario_reports)
]

-- Each telemetry item gets the compact form of the last report that bears its scenario's name, so
-- of two runs of one scenario both items get the report of the later one.
pub attach_compact-last :
    (self : Resiliency) (scenarios : List Item)
    → attach_compact_to_telemetry self scenarios ≡ map (attached self) scenarios
unfolding attach_compact_to_telemetry
attach_compact-last self [] = refl
attach_compact-last self (item ∷ scenarios) =
    cc (attach_item-attached self item, attach_compact-last self scenarios)

pub last_report-append :
    (reports : List Report) (rep : Report) → last_report (reports ++ rep ∷ []) ≡ some rep
unfolding last_report
last_report-append [] rep = refl
last_report-append (r ∷ []) rep = refl
last_report-append (r ∷ s ∷ reports) rep = last_report-append (s ∷ reports) rep

-- An item with the compact form of a report of its own.
abbrev pub with_compact : (Item → Report) → Item → Item
with_compact report tel = record tel { resiliency_report = some (compact_breakdown (report tel)) }

module _ (float : Float) (parse_float : Text → Option (float.F)) where
  -- The report of one item, over its own window or else over that of the batch.
  abbrev pub item_report : Prometheus → Text → ℕ → ℕ → ℤ → Resiliency → Item → Report
  item_report prom scenario_type batch_start batch_end weight self tel =
      let (st, en) = window tel.start_timestamp tel.end_timestamp batch_start batch_end in
      scenario_report float parse_float (scenario_or tel.scenario scenario_type) prom st en weight
        none self

  -- Every item of the batch, in order, has its report appended to the object and its own compact
  -- form attached; the SLOs of the object stay.
  pub add_scenario_reports_lem :
      (tels : List Item) (prom : Prometheus) (scenario_type : Text) (batch_start batch_end : ℕ)
      (weight : ℤ) (self : Resiliency)
      → let (after, tels') =
          add_scenario_reports float parse_float tels prom scenario_type batch_start batch_end
            weight self in
        let report = item_report prom scenario_type batch_start batch_end weight self in
        (after.scenario_reports ≡ self.scenario_reports ++ map report tels)
        × (tels' ≡ map (with_compact report) tels)
        × (after.slos ≡ self.slos)
  unfolding add_scenario_reports add_scenario_report scenario_report set_report
  add_scenario_reports_lem [] prom scenario_type batch_start batch_end weight self =
      (sym (append-nil _), refl, refl)
  add_scenario_reports_lem (tel ∷ tels) prom scenario_type batch_start batch_end weight self =
      let report = item_report prom scenario_type batch_start batch_end weight self in
      let self' : Resiliency = record self {
        scenario_reports = self.scenario_reports ++ report tel ∷ [];
      } in
      let rest =
        add_scenario_reports_lem tels prom scenario_type batch_start batch_end weight self' in
      (
        rest.0 ∙ append_assoc self.scenario_reports (report tel ∷ []) (map report tels),
        ap₂ ◌∷◌ (ap (set_report tel) (last_report-append self.scenario_reports (report tel)))
            rest.1,
        rest.2,
      )

  add_scenario_reports-IsValid :
      (tels : List Item) (prom : Prometheus) (scenario_type : Text) (batch_start batch_end : ℕ)
      (weight : ℤ) (self : Resiliency)
      → pos 1 ≤ℤ weight
      → IsValid self
      → IsValid
          (add_scenario_reports float parse_float tels prom scenario_type batch_start batch_end
            weight self).0
  unfolding add_scenario_reports
  add_scenario_reports-IsValid [] prom scenario_type batch_start batch_end weight self w v = v
  add_scenario_reports-IsValid (tel ∷ tels) prom scenario_type batch_start batch_end weight self w
        v =
      add_scenario_reports-IsValid tels prom scenario_type batch_start batch_end weight _ w
        (add_scenario_report-IsValid float parse_float _ prom _ _ weight none self w v)

  finalize_and_save_ok :
      (prom : Prometheus) (total_start total_end : ℕ) (run_mode : Text) (self self' : Resiliency)
      (detailed : List Report)
      → finalize_report float parse_float prom total_start total_end self ≡ ok self'
      → get_detailed_report self' ≡ ok detailed
      → finalize_and_save float parse_float prom total_start total_end run_mode self
        ≡ (self', if text_eq run_mode (text "detailed") then stdout detailed else file detailed)
  unfolding finalize_and_save
  finalize_and_save_ok prom total_start total_end run_mode self self' detailed e d =
      rw (e, finalize_and_save) (rw d)

  get_summary_ok :
      (self : Resiliency) {summary : Summary}
      → get_summary self ≡ ok summary
      → self.summary ≡ some summary
  unfolding get_summary
  get_summary_ok self e = ground arith

  -- What is handed out of a finalised object: the detailed report, where the mode says, and a
  -- summary with a percentage that counts each SLO.
  abbrev pub HandedOut : Text → Resiliency → Resiliency × Saved → Type 0
  HandedOut run_mode self result =
      (result.1 ≡ (
        if text_eq run_mode (text "detailed")
        then stdout self.scenario_reports
        else file self.scenario_reports))
      × (summary : Summary) × (result.0.summary ≡ some summary)
      × (pos 0 ≤ℤ summary.resiliency_score)
      × (summary.resiliency_score ≤ℤ pos 100)
      × (summary.total_slos ≡ length (slo_defs self.slos))

  finalize_and_save-valid :
      (prom : Prometheus) (total_start total_end : ℕ) (run_mode : Text) (self : Resiliency)
      → is_empty self.scenario_reports ≡ false
      → IsValid self
      → HandedOut run_mode self
          (finalize_and_save float parse_float prom total_start total_end run_mode self)
  finalize_and_save-valid prom total_start total_end run_mode self some_report v =
      let (self', summary, e, s, low, high, total, d, _) =
        finalize_report-valid float parse_float prom total_start total_end self some_report v in
      rw (finalize_and_save_ok prom total_start total_end run_mode self self' _ e d)
        (refl, summary, get_summary_ok self' s, low, high, total)

  -- A run that adds a batch of at least one item to a valid object and then finalises it, in
  -- either mode, hands out a detailed report of every report so far; the summary has a score
  -- between 0 and 100 and counts each SLO.
  pub finalize_and_save-batch :
      (tel : Item) (tels : List Item) (prom : Prometheus) (scenario_type run_mode : Text)
      (batch_start batch_end total_start total_end : ℕ) (weight : ℤ) (self : Resiliency)
      → pos 1 ≤ℤ weight
      → IsValid self
      → let after =
          (add_scenario_reports float parse_float
            (tel ∷ tels)
            prom
            scenario_type
            batch_start
            batch_end
            weight
            self).0 in
        HandedOut run_mode after
          (finalize_and_save float parse_float prom total_start total_end run_mode after)
  finalize_and_save-batch tel tels prom scenario_type run_mode batch_start batch_end total_start
        total_end weight self w v =
      let (reports, _, _) =
        add_scenario_reports_lem (tel ∷ tels) prom scenario_type batch_start batch_end weight
          self in
      finalize_and_save-valid prom total_start total_end run_mode _
        (ap is_empty reports ∙ not_empty self.scenario_reports _ _)
        (add_scenario_reports-IsValid (tel ∷ tels) prom scenario_type batch_start batch_end weight
          self w v)
    where
      not_empty :
          (xs : List Report) (r : Report) (rs : List Report) → is_empty (xs ++ r ∷ rs) ≡ false
      not_empty [] r rs = refl
      not_empty (x ∷ xs) r rs = refl

-- ===== src/Resiliency/Orchestrator/Laws.antt =====
-- The life of a `Resiliency` object: what its reports hold, and what the summary makes of them.
use krkn.Base.{
  ℕ, ◌+◌, ◌*◌, ◌≤◌, ◌≡◌, refl, sym, Bool, true, false, ◌||◌, Option, some, List, [], ◌∷◌, arith,
  is_empty, length, any, All, All-append, All-mono, ◌∙◌, ap,
}
use native.Mathlib.Nat.{mul-le-mul_right, add-zero}
use krkn.Base.Text.{Text, text_eq}
use krkn.Base.Dict.{Dict, lookup, insert, has, lookup-insert, has-keys}
use krkn.Base.Int.{
  ℤ, pos, negsuc, ◌*ℤ◌, ◌≤ℤ◌, pos_part, neg_part-zero, is_zero, int_laws, *ℤ_pos, zero_*ℤ,
}
use krkn.Base.Float.{Float}
use krkn.Base.Result.{ok}
use krkn.Resiliency.Score.{SloDef, detailed, calculate_resiliency_score}
use krkn.Resiliency.Score.Laws.{WeightsNonNegative, score_bounds, evaluated_count, breakdown_counts}
use krkn.Resiliency.Collector.{Slo, Prometheus, evaluate_slos}
use krkn.Resiliency.Collector.Laws.{has-evaluate_slos}
use krkn.Resiliency.Orchestrator.{
  Report, Summary, Resiliency, slo_defs_from, slo_defs, or_empty, summary_of, total_weight,
  weighted_scores, weighted_average, add_scenario_report, finalize_report, get_summary,
  get_detailed_report,
}

-- A name is a key of the definitions exactly if some SLO bears it.
has-slo_defs_from :
    (name : Text) (defs : Dict SloDef) (slos : List Slo)
    → has (slo_defs_from defs slos) name
      ≡ (any (λ (s : Slo). text_eq s.name name) slos || has defs name)
unfolding slo_defs_from
has-slo_defs_from name defs [] = refl
has-slo_defs_from name defs (slo ∷ slos) =
    let d : SloDef = detailed (some slo.severity) slo.weight in
    ground (
      arith,
      has-slo_defs_from name (insert slo.name d defs) slos,
      lookup-insert slo.name name d defs,
    )

has-slo_defs :
    (name : Text) (slos : List Slo)
    → has (slo_defs slos) name ≡ any (λ (s : Slo). text_eq s.name name) slos
unfolding slo_defs lookup
has-slo_defs name slos = ground (arith, has-slo_defs_from name [] slos)

count-known :
    (defs : Dict SloDef) (results : Dict Bool)
    → All (λ (e : Text × SloDef). has results e.0 ≡ true) defs
    → evaluated_count defs results ≡ length defs
count-known [] results h = refl
count-known (e ∷ defs) results h = ground (arith, count-known defs results h.1)

-- A report whose score is a percentage and whose weight is not negative.
abbrev pub IsScored : Report → Type 0
IsScored rep = (pos 0 ≤ℤ rep.score) × (rep.score ≤ℤ pos 100) × (pos 0 ≤ℤ rep.weight)

product_bounds :
    (s w : ℤ)
    → pos 0 ≤ℤ s
    → s ≤ℤ pos 100
    → pos 0 ≤ℤ w
    → (pos 0 ≤ℤ s *ℤ w) × (s *ℤ w ≤ℤ pos (100 * pos_part w))
product_bounds (pos s) (pos w) low high h =
    let le : s * w ≤ 100 * w = mul-le-mul_right w (unfold_le s high) in
    rw (*ℤ_pos s w) (omega arith, omega arith)
  where
    unfold_le : (s : ℕ) → pos s ≤ℤ pos 100 → s ≤ 100
    unfold_le s h = omega arith
product_bounds (pos s) (negsuc w) low high h = absurd (omega arith)
product_bounds (negsuc s) w low high h = absurd (omega arith)

weighted_bounds :
    (reports : List Report)
    → All IsScored reports
    → (pos 0 ≤ℤ total_weight reports)
      × (pos 0 ≤ℤ weighted_scores reports)
      × (weighted_scores reports ≤ℤ pos (100 * pos_part (total_weight reports)))
unfolding total_weight weighted_scores
weighted_bounds [] h = omega arith
weighted_bounds (rep ∷ reports) h =
    let (low, high, weight) = h.0 in
    let product = product_bounds rep.score rep.weight low high weight in
    let rest = weighted_bounds reports h.1 in
    omega (
      int_laws,
      product,
      neg_part-zero (total_weight reports) rest.0,
      neg_part-zero rep.weight weight,
    )

module _ (float : Float) where
  open float use {div, trunc, div_mono, div_exact, trunc_mono, trunc_of_int}

  ratio_exact : (k : ℕ) (t : ℤ) → k ≤ 100 → pos 1 ≤ℤ t → trunc (div (pos k *ℤ t) t) ≡ pos k
  ratio_exact k t hk h =
      rw (div_exact (pos k) t h (omega arith)) (trunc_of_int (pos k) (omega arith))

  hundred_times : (t : ℤ) → pos 0 ≤ℤ t → pos (100 * pos_part t) ≡ pos 100 *ℤ t
  unfolding ◌*ℤ◌
  hundred_times t h = ground arith

  ratio_bounds :
      (a t : ℤ)
      → pos 1 ≤ℤ t
      → pos 0 ≤ℤ a
      → a ≤ℤ pos (100 * pos_part t)
      → (pos 0 ≤ℤ trunc (div a t)) × (trunc (div a t) ≤ℤ pos 100)
  ratio_bounds a t h low high =
      let below : pos 0 *ℤ t ≤ℤ a = rw (zero_*ℤ t) low in
      let above : a ≤ℤ pos 100 *ℤ t = rw (← hundred_times t (omega arith)) high in
      (
        rw (ratio_exact 0 t (omega arith) h) at (trunc_mono _ _ (div_mono _ a t below h)),
        rw (ratio_exact 100 t (omega arith) h) at (trunc_mono _ _ (div_mono a _ t above h)),
      )

-- An object that the methods below lead to: its definitions set no negative weight, and every
-- report is a percentage over all the SLOs, with the weight 1 or more.
pub record IsValid (self : Resiliency) : Type 0 where
  pub weights : WeightsNonNegative (slo_defs self.slos)
  pub scored : All IsScored self.scenario_reports
  pub weighted : All (λ (rep : Report). pos 1 ≤ℤ rep.weight) self.scenario_reports
  pub covered :
      All
        (λ (rep : Report).
          rep.breakdown.passed + rep.breakdown.failed
          ≡ length (slo_defs self.slos) + length rep.health_check_results)
        self.scenario_reports

total_weight-pos :
    (reports : List Report)
    → All (λ (rep : Report). pos 1 ≤ℤ rep.weight) reports
    → (pos 0 ≤ℤ total_weight reports) × (is_empty reports ≡ false → pos 1 ≤ℤ total_weight reports)
unfolding total_weight
total_weight-pos [] h = (omega arith, λ e. cc)
total_weight-pos (rep ∷ reports) h =
    let rest = (total_weight-pos reports h.1).0 in (omega int_laws, λ _. omega int_laws)

module _ (float : Float) (parse_float : Text → Option (float.F)) where
  -- The weighted average of reports whose scores are percentages, with no negative weight and a
  -- total weight of 1 or more, does not raise and is a percentage.
  pub weighted_average_bounds :
      (reports : List Report)
      → All IsScored reports
      → pos 1 ≤ℤ total_weight reports
      → (average : ℤ) × (weighted_average float parse_float reports ≡ ok average)
        × (pos 0 ≤ℤ average)
        × (average ≤ℤ pos 100)
  unfolding weighted_average
  weighted_average_bounds reports h w =
      let nonzero : is_zero (total_weight reports) ≡ false = ground arith in
      let (_, low, high) = weighted_bounds reports h in
      let (zero_le, le_hundred) = ratio_bounds float _ _ w low high in
      (_, rw nonzero, zero_le, le_hundred)

  evaluated_all :
      (prom : Prometheus) (slos : List Slo) (start end : ℕ)
      → evaluated_count (slo_defs slos) (evaluate_slos float parse_float prom slos start end)
        ≡ length (slo_defs slos)
  evaluated_all prom slos start end = count-known _ _ (
      All-mono _ _
        (λ e h.
          has-evaluate_slos float parse_float prom slos start end e.0
          ∙ sym (has-slo_defs e.0 slos)
          ∙ h)
        _ (has-keys (slo_defs slos)))

  -- Adding a report with a weight of 1 or more keeps the object valid.
  pub add_scenario_report-IsValid :
      (name : Text) (prom : Prometheus) (start end : ℕ) (weight : ℤ) (checks : Option (Dict Bool))
      (self : Resiliency)
      → pos 1 ≤ℤ weight
      → IsValid self
      → IsValid (add_scenario_report float parse_float name prom start end weight checks self).1
  unfolding add_scenario_report
  add_scenario_report-IsValid name prom start end weight checks self w v =
      let results = evaluate_slos float parse_float prom self.slos start end in
      let bounds = score_bounds float (slo_defs self.slos) results (or_empty checks) v.weights in
      record {
        weights = v.weights;
        scored =
            All-append IsScored self.scenario_reports _ v.scored
              ((bounds.0, bounds.1, omega arith), tt);
        weighted = All-append _ self.scenario_reports _ v.weighted (w, tt);
        covered = All-append _ self.scenario_reports _ v.covered (
          (breakdown_counts float (slo_defs self.slos) results (or_empty checks)).1
              ∙ ap (λ (n : ℕ). n + length (or_empty checks))
                  (evaluated_all prom self.slos start end),
          tt,
        );
      }

  -- Of a valid object with a report, `finalize_report` does not raise: the summary has a score
  -- between 0 and 100, the detailed report is the list of reports, and no report is lost.
  pub finalize_report-valid :
      (prom : Prometheus) (start end : ℕ) (self : Resiliency)
      → is_empty self.scenario_reports ≡ false
      → IsValid self
      → (self' : Resiliency) × (summary : Summary) × (finalize_report float parse_float prom start
            end self
          ≡ ok self')
        × (get_summary self' ≡ ok summary)
        × (pos 0 ≤ℤ summary.resiliency_score)
        × (summary.resiliency_score ≤ℤ pos 100)
        × (summary.total_slos ≡ length (slo_defs self.slos))
        × (get_detailed_report self' ≡ ok self.scenario_reports)
        × (self'.scenario_reports ≡ self.scenario_reports)
  unfolding finalize_report summary_of get_summary get_detailed_report
  finalize_report-valid prom start end self some_report v =
      let w = (total_weight-pos self.scenario_reports v.weighted).1 some_report in
      let (average, e, low, high) = weighted_average_bounds self.scenario_reports v.scored w in
      let results = evaluate_slos float parse_float prom self.slos start end in
      let total =
        (breakdown_counts float (slo_defs self.slos) results []).1
        ∙ ap (λ (n : ℕ). n + 0) (evaluated_all prom self.slos start end)
        ∙ add-zero _ in
      let b = (calculate_resiliency_score float (slo_defs self.slos) results []).1 in
      let summary = summary_of self.scenario_reports average b in
      (
        record self { summary = some summary; detailed_report = some self.scenario_reports },
        summary,
        rw (some_report, e),
        refl,
        low,
        high,
        total,
        refl,
        refl,
      )

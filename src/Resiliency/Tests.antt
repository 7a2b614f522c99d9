-- ===== src/Resiliency/Tests.antt =====
-- Runs of krkn/resiliency and krkn/prometheus on small inputs: two alerts, one of them violated.
use krkn.Base.{
  ◌+◌, ◌-◌, ◌≡◌, refl, sym, ap, Bool, true, false, not, Option, none, some, List, [], ◌∷◌, map,
  length, any, All, if◌then◌else◌, arith,
}
use krkn.Base.Text.{Text, text, text_eq, digits_from, lower, strip}
use krkn.Base.Dict.{Dict, lookup, insert}
use krkn.Base.Int.{ℤ, pos, pos_part, ◌≤ℤ◌, ◌+ℤ◌, ◌*ℤ◌}
use krkn.Base.Float.Fixed.{fixed}
use krkn.Base.Result.{ok}
use krkn.Resiliency.Score.{
  breakdown_of, sum_weights, defined_slos, weight, evaluated, health_check_slos, SloDef,
  severity_only, detailed, calculate_resiliency_score, slo_objects,
}
use krkn.Resiliency.Score.Laws.{
  WeightsNonNegative, NotWorse, evaluated_count, passed_count, score_bounds, score_mono,
  breakdown_counts,
}
use krkn.Resiliency.Collector.{Series, Slo, Prometheus, slo_passed}
use krkn.Resiliency.Collector.Laws.{sampled, violated, slo_passed_range}
use krkn.Resiliency.Orchestrator.{
  RawAlert, mapping, not_mapping, Resiliency, Summary, slo_defs, add_scenario_report,
  finalize_report, get_summary, get_detailed_report,
}
use krkn.Resiliency.Orchestrator.Laws.{IsValid, add_scenario_report-IsValid, finalize_report-valid}
use krkn.Resiliency.Orchestrator.Telemetry.{Item, attach_compact_to_telemetry}
use krkn.Resiliency.Orchestrator.Telemetry.Laws.{attached, attach_compact-last}
use krkn.Resiliency.History.{HistoryWindow, Library, parse_duration, parse_history_window}

abbrev defs : Dict SloDef
defs =
    (text "etcd", severity_only (text "critical"))
    ∷ (text "api", detailed (some (text "warning")) none)
    ∷ []

defs-NonNegative : WeightsNonNegative defs
defs-NonNegative = (λ w e. cc, (λ w e. cc, tt))

abbrev mixed : Dict Bool
mixed = (text "etcd", true) ∷ (text "api", false) ∷ []

abbrev passing : Dict Bool
passing = (text "etcd", true) ∷ (text "api", true) ∷ []

score_bounds_example :
    let (score, b) = calculate_resiliency_score fixed defs mixed [] in
    (pos 0 ≤ℤ score)
    × (score ≤ℤ pos 100)
    × (pos 0 ≤ℤ b.points_lost)
    × (b.points_lost ≤ℤ b.total_points)
score_bounds_example = score_bounds fixed defs mixed [] defs-NonNegative

NotWorse-by :
    (a b : Bool)
    → NotWorse
        (if a then some true else if b then some false else none)
        (if a then some true else if b then some true else none)
NotWorse-by true b = λ h. h
NotWorse-by false true = λ h. refl
NotWorse-by false false = tt

mixed-NotWorse : (k : Text) → NotWorse (lookup k mixed) (lookup k passing)
unfolding lookup
mixed-NotWorse k = NotWorse-by (text_eq (text "etcd") k) (text_eq (text "api") k)

score_mono_example :
    let (score, b) = calculate_resiliency_score fixed defs mixed [] in
    let (score', b') = calculate_resiliency_score fixed defs passing [] in
    (b.total_points ≡ b'.total_points) × (score ≤ℤ score')
score_mono_example = score_mono fixed defs mixed passing [] [] defs-NonNegative mixed-NotWorse tt

breakdown_counts_example :
    let (_, b) = calculate_resiliency_score fixed defs mixed [] in
    (b.passed ≡ passed_count defs mixed + 0)
    × (b.passed + b.failed ≡ evaluated_count defs mixed + 0)
breakdown_counts_example = breakdown_counts fixed defs mixed []

passing_points : (calculate_resiliency_score fixed defs passing []).1.total_points ≡ pos 4
unfolding calculate_resiliency_score breakdown_of sum_weights slo_objects defined_slos lookup
    text_eq ◌+ℤ◌ weight evaluated health_check_slos
passing_points = refl

passing_outcomes : All (λ slo. slo.passed ≡ true) (slo_objects defs passing [])
unfolding slo_objects defined_slos lookup text_eq evaluated health_check_slos
passing_outcomes = (refl, (refl, tt))

-- `float(s)` of a text of digits.
abbrev read_digits : Text → Option ℤ
read_digits s = some (pos (digits_from 0 s))

abbrev down : Series
down = record { values = some ((10, text "0") ∷ (20, text "2") ∷ []); value = none }

abbrev prom : Prometheus
prom expr start end = if text_eq expr (text "down") then some (down ∷ []) else some []

abbrev slo_down : Slo
slo_down = record {
  name = text "etcd";
  expr = text "down";
  severity = text "critical";
  weight = none;
}

abbrev slo_up : Slo
slo_up = record { name = text "api"; expr = text "up"; severity = text "warning"; weight = none }

slo_passed_range_example : slo_passed fixed read_digits (down ∷ []) ≡ (
    if any sampled (down ∷ [])
    then some (not (any (violated fixed read_digits) (down ∷ [])))
    else none)
slo_passed_range_example = slo_passed_range fixed read_digits (down ∷ []) (refl, tt)

abbrev alerts : List RawAlert
alerts =
    mapping none (some (text "down")) (some (text "Critical")) none
    ∷ not_mapping
    ∷ mapping (some (text "api")) (some (text "up")) (some (text "warning")) (some (pos 2))
    ∷ []

two_NonNegative : (w : ℤ) → ◌≡◌ {A = Option ℤ} (some (pos 2)) (some w) → pos 0 ≤ℤ w
two_NonNegative w e =
    let same : pos 2 ≡ w = ap (λ (o : Option ℤ). elim o [ none ↦ pos 2 | some x ↦ x ]) e in
    rw (sym same) (omega arith)

-- An object with two SLOs, as `init` leaves it.
abbrev fresh : Resiliency
fresh = record {
  slos = slo_down ∷ slo_up ∷ [];
  results = [];
  score = none;
  breakdown = none;
  health_check_results = [];
  scenario_reports = [];
  summary = none;
  detailed_report = none;
}

fresh-IsValid : IsValid fresh
unfolding slo_defs insert text_eq
fresh-IsValid = record {
  weights = (λ w e. cc, (λ w e. cc, tt));
  scored = tt;
  weighted = tt;
  covered = tt;
}

abbrev after_one : Resiliency
after_one = (add_scenario_report fixed read_digits (text "pods") prom 10 20 (pos 1) none fresh).1

after_one-IsValid : IsValid after_one
after_one-IsValid =
    add_scenario_report-IsValid fixed read_digits (text "pods") prom 10 20 (pos 1) none fresh
      (omega arith) fresh-IsValid

finalize_report-valid_example :
    (self' : Resiliency) × (summary : Summary) × (finalize_report fixed read_digits prom 10 20
        after_one
      ≡ ok self')
    × (get_summary self' ≡ ok summary)
    × (pos 0 ≤ℤ summary.resiliency_score)
    × (summary.resiliency_score ≤ℤ pos 100)
    × (summary.total_slos ≡ length (slo_defs (after_one.slos)))
    × (get_detailed_report self' ≡ ok (after_one.scenario_reports))
    × (self'.scenario_reports ≡ after_one.scenario_reports)
unfolding add_scenario_report
finalize_report-valid_example =
    finalize_report-valid fixed read_digits prom 10 20 after_one refl after_one-IsValid

abbrev item : Item
item = record {
  is_dict = false;
  scenario = some (text "pods");
  start_timestamp = some 10;
  end_timestamp = none;
  resiliency_report = none;
}

attach_compact-last_example :
    attach_compact_to_telemetry after_one (item ∷ []) ≡ map (attached after_one) (item ∷ [])
attach_compact-last_example = attach_compact-last after_one (item ∷ [])

abbrev clock_library : Library fixed
clock_library = record {
  parse_float = read_digits;
  strptime = λ s format. none;
  minus = λ end duration. end - pos_part duration;
  format_label = λ start end. text "window";
}

abbrev last_day : HistoryWindow
last_day = record { start = 400; end = 1000; label = text "10m" }

last_day-parsed :
    parse_history_window fixed clock_library 1000 (some (text "10m")) none none false
    ≡ ok (some last_day)
unfolding parse_history_window parse_duration lower strip digits_from ◌*ℤ◌
last_day-parsed = refl

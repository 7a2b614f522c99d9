-- ===== src/Resiliency/History.antt =====
-- krkn/resiliency/history.py: scores of a past window. The reading of floats and of date texts, the
-- present time and the subtraction of a duration are the language's and the library's: parameters.
pub mod Laws
use krkn.Base.{
  ℕ, ◌+◌, Bool, true, false, not, ◌&&◌, ◌||◌, Option, none, some, List, [], ◌∷◌, is_empty, is_some,
  ltb, leb, ◌==◌, length, if◌then◌else◌,
}
use krkn.Base.Text.{Text, text, strip, lower}
use krkn.Base.Dict.{Dict}
use krkn.Base.Int.{ℤ, pos}
use krkn.Base.Float.{Float}
use krkn.Base.Result.{Result, ok, err, ◌>>=◌}
use krkn.Resiliency.Collector.{Prometheus}
use krkn.Resiliency.Orchestrator.{Resiliency, Report, Summary, add_scenario_report}
use krkn.Resiliency.Orchestrator.Telemetry.{last_report}

pub data Error : Type 0 where
  too_short unknown_unit not_numeric not_positive bad_datetime exclusive flag_missing : Error
  half_window empty_window unavailable : Error

-- The seconds of a unit; `none` where it is not in `units`.
unfoldable pub unit_seconds : ℕ → Option ℕ
unit_seconds c =
    if c == b's'
    then some 1
    else if c == b'm'
    then some 60
    else if c == b'h'
    then some 3600
    else if c == b'd'
    then some 86400
    else if c == b'w'
    then some 604800
    else none

-- `s[:-1]` and `s[-1]`
unfoldable pub split_last : Text → Option (Text × ℕ)
split_last [] = none
split_last (c ∷ []) = some ([], c)
split_last (c ∷ d ∷ s) = elim (split_last (d ∷ s)) [
  | none ↦ none
  | some (front, last) ↦ some (c ∷ front, last)
]

pub record HistoryWindow : Type 0 where
  pub start : ℕ
  pub end : ℕ
  pub label : Text

-- A text that is there and not empty.
abbrev pub truthy : Option Text → Bool
truthy none = false
truthy (some s) = not (is_empty s)

abbrev pub or_blank : Option Text → Text
or_blank none = []
or_blank (some s) = s

-- What the module takes from the language and the library.
pub record Library (float : Float) : Type 0 where
  pub parse_float : Text → Option (float.F)
  -- `datetime.strptime(text, format)`, as UTC seconds
  pub strptime : Text → Text → Option ℕ
  -- `end - timedelta(...)`
  pub minus : ℕ → float.F → ℕ
  pub format_label : ℕ → ℕ → Text

module _ (float : Float) (library : Library float) where
  open library use {parse_float, strptime, minus, format_label}

  -- A duration in seconds.
  unfoldable pub parse_value : Text → ℕ → Result Error (float.F)
  parse_value digits seconds = elim (parse_float digits) [
    | none ↦ err not_numeric
    | some value ↦
        if float.gt_zero value then ok (float.mul value (pos seconds)) else err not_positive
  ]

  unfoldable pub parse_duration : Text → Result Error (float.F)
  unfolding split_last parse_value unit_seconds
  parse_duration duration_str =
      let s = lower (strip duration_str) in
      if ltb (length s) 2 then err too_short else elim (split_last s) [
        | none ↦ err too_short
        | some (digits, unit) ↦ elim (unit_seconds unit) [
          | none ↦ err unknown_unit
          | some seconds ↦ parse_value digits seconds
        ]
      ]

  -- The loop over the formats.
  try_formats : List Text → Text → Result Error ℕ
  try_formats [] dt_str = err bad_datetime
  try_formats (fmt ∷ fmts) dt_str =
      let rest = try_formats fmts dt_str in
      elim (strptime (strip dt_str) fmt) [ some t ↦ ok t | none ↦ rest ]

  unfoldable pub parse_datetime : Text → Result Error ℕ
  unfolding try_formats
  parse_datetime dt_str =
      try_formats (text "%Y-%m-%dT%H:%M:%S" ∷ text "%Y-%m-%d %H:%M:%S" ∷ text "%Y-%m-%d" ∷ [])
        dt_str

  -- The branch of `--start-time` and `--end-time`.
  unfoldable pub explicit_window : Option Text → Option Text → Result Error HistoryWindow
  explicit_window hist_start hist_end =
      if not (truthy hist_start) || not (truthy hist_end)
      then err half_window
      else (parse_datetime (or_blank hist_start) >>= λ start.
          parse_datetime (or_blank hist_end) >>= λ end.
          if leb end start
          then err empty_window
          else ok (record { start = start; end = end; label = format_label start end }))

  -- The branch of `--past-resiliency-score`.
  unfoldable pub trailing_window : ℕ → Text → Result Error HistoryWindow
  trailing_window now past = parse_duration past >>= λ duration.
      ok (record { start = minus now duration; end = now; label = past })

  unfoldable pub parse_history_window :
      ℕ → Option Text → Option Text → Option Text → Bool → Result Error (Option HistoryWindow)
  unfolding explicit_window trailing_window
  parse_history_window now past hist_start hist_end flag =
      if is_some past && (truthy hist_start || truthy hist_end)
      then err exclusive
      else if (truthy hist_start || truthy hist_end) && not flag
      then err flag_missing
      else elim past [
        | some p ↦ trailing_window now p >>= λ w. ok (some w)
        | none ↦
            if truthy hist_start || truthy hist_end
            then (explicit_window hist_start hist_end >>= λ w. ok (some w))
            else ok none
      ]

  -- The `ResiliencyReport` that goes into the telemetry, from the report that was just appended.
  abbrev pub history_summary : Report → Summary
  history_summary rep = record {
    scenarios = (text "historical", rep.score) ∷ [];
    resiliency_score = rep.score;
    passed_slos = rep.breakdown.passed;
    total_slos = rep.breakdown.passed + rep.breakdown.failed;
  }

  -- `None` for the object or for Prometheus raises a `RuntimeError`.
  unfoldable pub apply_historical_resiliency :
      HistoryWindow → Option Resiliency → Option Prometheus → Result Error (Resiliency × Summary)
  apply_historical_resiliency window none prometheus = err unavailable
  apply_historical_resiliency window (some resiliency) none = err unavailable
  apply_historical_resiliency window (some resiliency) (some prometheus) =
      let (score, after) =
        add_scenario_report float parse_float (text "historical") prometheus window.start window.end
          (pos 1) none resiliency in
      elim (last_report after.scenario_reports) [
        | none ↦ err unavailable
        | some rep ↦ ok (after, history_summary rep)
      ]

-- ===== src/Resiliency/History/Laws.antt =====
-- What the historical options let through, and what the telemetry gets.
use krkn.Base.{
  ℕ, ◌+◌, ◌<◌, ◌≡◌, refl, Bool, true, false, Option, none, some, [], ◌∷◌, ◌++◌, arith, ◌⊎◌, inl,
  inr, length, ◌↔◌, All-last,
}
use krkn.Base.Text.{Text, text}
use krkn.Base.Int.{pos, ◌≤ℤ◌}
use krkn.Base.Float.{Float}
use krkn.Base.Result.{ok}
use krkn.Resiliency.Collector.{Prometheus}
use krkn.Resiliency.Orchestrator.{
  Resiliency, Report, Summary, add_scenario_report, scenario_report, slo_defs,
}
use krkn.Resiliency.Orchestrator.Laws.{IsValid, IsScored, add_scenario_report-IsValid}
use krkn.Resiliency.Orchestrator.Telemetry.Laws.{last_report-append}
use krkn.Resiliency.History.{
  history_summary, HistoryWindow, truthy, Library, explicit_window, trailing_window,
  parse_history_window, apply_historical_resiliency,
}

-- A window comes from one of the two sources, never from both.
abbrev pub FromTrailing : ℕ → Option Text → Option Text → Option Text → HistoryWindow → Type 0
FromTrailing now past hist_start hist_end w =
    (past ≡ some w.label) × (truthy hist_start ≡ false) × (truthy hist_end ≡ false) × (w.end ≡ now)

abbrev pub FromExplicit : Option Text → Option Text → Option Text → Bool → HistoryWindow → Type 0
FromExplicit past hist_start hist_end flag w =
    (past ≡ none)
    × (flag ≡ true)
    × (truthy hist_start ≡ true)
    × (truthy hist_end ≡ true)
    × (w.start < w.end)

module _ (float : Float) (library : Library float) where
  explicit_window_lem :
      (hist_start hist_end : Option Text) {w : HistoryWindow}
      → explicit_window float library hist_start hist_end ≡ ok w
      → (truthy hist_start ≡ true) × (truthy hist_end ≡ true) × (w.start < w.end)
  unfolding explicit_window
  explicit_window_lem hist_start hist_end e = ground arith

  trailing_window_lem :
      (now : ℕ) (past : Text) {w : HistoryWindow}
      → trailing_window float library now past ≡ ok w
      → (w.label ≡ past) × (w.end ≡ now)
  unfolding trailing_window
  trailing_window_lem now past e = ground arith

  -- A window that is returned ends now and bears the duration as its label, or it was given by
  -- both of its ends with the flag set and its start lies before its end; the options of the other
  -- kind are absent.
  pub parse_history_window_window :
      (now : ℕ) (past hist_start hist_end : Option Text) (flag : Bool) {w : HistoryWindow}
      → parse_history_window float library now past hist_start hist_end flag ≡ ok (some w)
      → FromTrailing now past hist_start hist_end w ⊎ FromExplicit past hist_start hist_end flag w
  unfolding parse_history_window
  parse_history_window_window now (some p) hist_start hist_end flag e =
      inl (ground (arith, trailing_window_lem now p))
  parse_history_window_window now none hist_start hist_end flag e =
      inr (ground (arith, explicit_window_lem hist_start hist_end))

  -- A normal chaos run, with no window, is recognised exactly by the absence of every option.
  pub parse_history_window-none :
      (now : ℕ) (past hist_start hist_end : Option Text) (flag : Bool)
      → (parse_history_window float library now past hist_start hist_end flag ≡ ok none)
        ↔ ((past ≡ none) × (truthy hist_start ≡ false) × (truthy hist_end ≡ false))
  unfolding parse_history_window
  parse_history_window-none now past hist_start hist_end flag = ground arith

  -- Over a valid object and a reachable Prometheus the call does not raise: one report is
  -- appended to the object, the object stays valid, and the telemetry gets that report's score,
  -- between 0 and 100, with its counts.
  pub apply_historical_resiliency_lem :
      (window : HistoryWindow) (self : Resiliency) (prom : Prometheus)
      → IsValid self
      → (after : Resiliency) × (rep : Report) × (summary : Summary) × (apply_historical_resiliency
            float library window
            (some self)
            (some prom)
          ≡ ok (after, summary))
        × (after.scenario_reports ≡ self.scenario_reports ++ rep ∷ [])
        × (summary.resiliency_score ≡ rep.score)
        × (pos 0 ≤ℤ rep.score)
        × (rep.score ≤ℤ pos 100)
        × (summary.total_slos ≡ length (slo_defs self.slos) + 0)
        × IsValid after
  unfolding apply_historical_resiliency add_scenario_report
  apply_historical_resiliency_lem window self prom v =
      let rep =
        scenario_report float library.parse_float (text "historical") prom window.start window.end
          (pos 1) none self in
      let after = record self { scenario_reports = self.scenario_reports ++ rep ∷ [] } in
      let v' =
        add_scenario_report-IsValid float library.parse_float (text "historical") prom window.start
          window.end (pos 1) none self (omega arith) v in
      let (low, high, _) = All-last IsScored self.scenario_reports rep v'.scored in
      (
        after,
        rep,
        history_summary float library rep,
        rw (last_report-append self.scenario_reports rep, apply_historical_resiliency),
        refl,
        refl,
        low,
        high,
        All-last _ self.scenario_reports rep v'.covered,
        v',
      )

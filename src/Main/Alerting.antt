-- ===== src/Main/Alerting.antt =====
-- run_kraken.py and krkn/prometheus/client.py: what becomes of an alert that fired.
use krkn.Base.{
  ℕ, ◌≡◌, ◌≢◌, sym, ap, ◌∙◌, true, false, List, [], ◌∷◌, ◌++◌, length, is_empty, inl, inr, arith,
}
use mathlib.Core.List.{append_assoc, append-nil}
use krkn.Base.Int.{pos}
use krkn.Alerts.{ChaosRunAlert, ChaosRunAlertSummary}
use krkn.Main.{Outside, Settings, MainState, next, end_iteration, main_loop}
use krkn.Main.Exit.{Ending, after_loop}
use krkn.Main.Exit.Laws.{after_loop-zero}
use krkn.Main.Laws.{main_loop_keeps}
use krkn.Main.Outcome.{Counted, run_batch_keeps}

-- The summary has grown from some alerts, and the number of the run is its length.
abbrev pub KeepsAlerts : List ChaosRunAlert → MainState → Type 0
KeepsAlerts alerts m =
    ((more : List ChaosRunAlert) × (m.summary.post_chaos_alerts ≡ alerts ++ more))
    × (m.post_critical_alerts ≡ length m.summary.post_chaos_alerts)

some_length :
    (alerts more : List ChaosRunAlert) → is_empty alerts ≡ false → length (alerts ++ more) ≢ 0
some_length [] more h = absurd (ground arith)
some_length (a ∷ alerts) more h = λ e. omega arith

module _ (outside : Outside) (settings : Settings) where
  after_batch-KeepsAlerts :
      (alerts : List ChaosRunAlert) (post : ℕ) (summary : ChaosRunAlertSummary) (m : MainState)
      → settings.check_critical_alerts ≡ true
      → Counted outside settings m post summary
      → KeepsAlerts alerts m
      → ((more : List ChaosRunAlert) × (summary.post_chaos_alerts ≡ alerts ++ more))
        × (post ≡ length summary.post_chaos_alerts)
  after_batch-KeepsAlerts alerts post summary m on (inl (off, _, _)) k = absurd (ground arith)
  after_batch-KeepsAlerts alerts post summary m on (inr (new, grown, counted)) ((more, e), _) =
      ((more ++ new, grown ∙ ap (λ xs. xs ++ new) e ∙ append_assoc alerts more new), counted)

  main_loop-KeepsAlerts :
      (fuel : ℕ) (alerts : List ChaosRunAlert) (m m1 : MainState) (w : outside.W)
      → settings.check_critical_alerts ≡ true
      → KeepsAlerts alerts m
      → (main_loop outside settings fuel m w).0 ≡ next m1
      → KeepsAlerts alerts m1
  unfolding end_iteration
  main_loop-KeepsAlerts fuel alerts m m1 w on h e = rw e at (
      main_loop_keeps outside settings Unit (KeepsAlerts alerts)
        (run_batch_keeps outside settings Unit (KeepsAlerts alerts)
          (λ cls entries w1 r post summary m2 f c p.
            after_batch-KeepsAlerts alerts post summary m2 on c p))
        (λ m2 signal answers p. p) (λ m2 p. p) tt fuel m w h)

  -- Where critical alerts are checked, an alert that fired after a batch is never forgotten: from a state
  -- whose count is that of the summary, the loop ends with a summary that begins with the alerts that
  -- it had and is counted in full, and if there were any, `main` does not return 0 on that count.
  pub alerts_persist :
      (fuel : ℕ) (m m1 : MainState) (w : outside.W) (e : Ending)
      → settings.check_critical_alerts ≡ true
      → m.post_critical_alerts ≡ length m.summary.post_chaos_alerts
      → is_empty m.summary.post_chaos_alerts ≡ false
      → (main_loop outside settings fuel m w).0 ≡ next m1
      → e.post_critical_alerts ≡ m1.post_critical_alerts
      → ((more : List ChaosRunAlert) × (m1.summary.post_chaos_alerts
            ≡ m.summary.post_chaos_alerts ++ more))
        × (m1.post_critical_alerts ≡ length m1.summary.post_chaos_alerts)
        × (after_loop e ≢ pos 0)
  alerts_persist fuel m m1 w e on counted fired ends same =
      let alerts = m.summary.post_chaos_alerts in
      let ((more, grown), all_counted) =
        main_loop-KeepsAlerts fuel alerts m m1 w on (([], sym (append-nil alerts)), counted) ends in
      (
        (more, grown),
        all_counted,
        λ zero.
            some_length alerts more fired
              (sym (ap length grown) ∙ sym all_counted ∙ sym same ∙ ((after_loop-zero e).0 zero).2),
      )

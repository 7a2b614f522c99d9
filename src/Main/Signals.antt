-- ===== src/Main/Signals.antt =====
-- run_kraken.py: signals while a run goes on.
use krkn.Base.{ℕ, zero, suc, ◌≡◌, refl, ap, Bool, true, false, ◌&&◌, some, List, ◌∷◌, arith}
use krkn.HealthChecks.{below_limit}
use krkn.Main.{
  Signal, stop, pause, is_stop, is_pause, Scenario, Outside, Settings, MainState, next, pause_loop,
  read_signal, after_signal, run_scenario, scenario_loop, end_iteration, main_loop,
}

module _ (outside : Outside) (settings : Settings) where
  -- The answers of the server while a run is paused.
  abbrev pub pauses : ℕ → List Signal → List Signal
  pauses zero answers = answers
  pauses (suc n) answers = pause ∷ pauses n answers

  pause_loop-stop :
      (n : ℕ) (answers : List Signal) (m : MainState)
      → pause_loop (pauses n (stop ∷ answers)) m
        ≡ some (record m { run_signal = stop; answers = answers })
  unfolding pause_loop is_pause
  pause_loop-stop zero answers m = refl
  pause_loop-stop (suc n) answers m = pause_loop-stop n answers m

  read_signal-stop :
      (n : ℕ) (answers : List Signal) (m : MainState)
      → m.answers ≡ pauses n (stop ∷ answers)
      → read_signal true m ≡ some (record m { run_signal = stop; answers = answers })
  unfolding read_signal is_pause
  read_signal-stop zero answers m a = rw (read_signal, a) refl
  read_signal-stop (suc n) answers m a = rw (read_signal, a) (pause_loop-stop n answers _)

  scenario_loop-stop :
      (n : ℕ) (answers : List Signal) (scenario : Scenario) (scenarios : List Scenario)
      (m : MainState) (w : outside.W)
      → settings.publish_running_status ≡ true
      → m.answers ≡ pauses n (stop ∷ answers)
      → scenario_loop outside settings (scenario ∷ scenarios) m w
        ≡ (next (record m { run_signal = stop; answers = answers }), w)
  unfolding scenario_loop run_scenario after_signal is_stop
  scenario_loop-stop n answers scenario scenarios m w p a =
      rw (scenario_loop, run_scenario, p, read_signal-stop n answers m a) refl

  and_false : (b : Bool) → (b && false) ≡ false
  and_false b = ground arith

  -- A STOP that the server answers before a scenario, after any number of PAUSE, ends the run: no further
  -- scenario is run, nothing outside is touched, and the iteration is counted once more.
  pub stop_ends_run :
      (n fuel : ℕ) (answers : List Signal) (scenario : Scenario) (scenarios : List Scenario)
      (m : MainState) (w : outside.W)
      → settings.publish_running_status ≡ true
      → settings.chaos_scenarios ≡ scenario ∷ scenarios
      → below_limit m.iteration settings.iterations ≡ true
      → is_stop m.run_signal ≡ false
      → m.answers ≡ pauses n (stop ∷ answers)
      → main_loop outside settings (suc (suc fuel)) m w ≡ (
        next (end_iteration outside settings (record m { run_signal = stop; answers = answers })),
        w,
      )
  unfolding main_loop is_stop end_iteration
  stop_ends_run n fuel answers scenario scenarios m w p c b s a =
      rw
        (
          main_loop,
          b,
          s,
          ap (λ l. scenario_loop outside settings l m w) c,
          scenario_loop-stop n answers scenario scenarios m w p a,
          and_false (below_limit (suc m.iteration) settings.iterations),
        )
        refl

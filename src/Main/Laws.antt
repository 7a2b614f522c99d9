-- ===== src/Main/Laws.antt =====
-- run_kraken.py: what a run has done when its loop ends.
use krkn.Base.{
  ℕ, zero, suc, Bool, true, false, not, ◌&&◌, Option, none, some, List, [], ◌∷◌, if◌then◌else◌,
  is_empty, Bool-cases, Option-cases, inl, inr,
}
use krkn.HealthChecks.{below_limit}
use krkn.Main.{
  Signal, is_stop, is_pause, Scenario, Outside, Settings, MainState, Step, and_then, next, leaves,
  exits, raises, waits, stuck, pause_loop, read_signal, run_batch, after_signal, run_scenario,
  scenario_loop, end_iteration, main_loop,
}

-- A condition on the state that a piece of the loop leaves, if it goes on, and one for fuel that ran out.
abbrev pub Leaves : Type 0 → (MainState → Type 0) → Step → Type 0
Leaves Q P (next m) = P m
Leaves Q P (leaves m) = P m
Leaves Q P (exits code) = Unit
Leaves Q P raises = Unit
Leaves Q P waits = Unit
Leaves Q P stuck = Q

-- What goes on after a step.
pub after_step :
    (outside : Outside) (settings : Settings) (Q : Type 0) (P R : MainState → Type 0)
    (on_next on_leaves : MainState → outside.W → Step × outside.W)
    → ((m : MainState) (w : outside.W) → P m → Leaves Q R (on_next m w).0)
    → ((m : MainState) (w : outside.W) → P m → Leaves Q R (on_leaves m w).0)
    → (r : Step × outside.W) → Leaves Q P r.0
    → Leaves Q R (and_then outside settings on_next on_leaves r).0
after_step outside settings Q P R on_next on_leaves h k (next m, w) q = h m w q
after_step outside settings Q P R on_next on_leaves h k (leaves m, w) q = k m w q
after_step outside settings Q P R on_next on_leaves h k (exits code, w) q = tt
after_step outside settings Q P R on_next on_leaves h k (raises, w) q = tt
after_step outside settings Q P R on_next on_leaves h k (waits, w) q = tt
after_step outside settings Q P R on_next on_leaves h k (stuck, w) q = q

-- A condition that every piece of the loop keeps holds where the loop ends.
module _ (outside : Outside) (settings : Settings) (Q : Type 0) (P : MainState → Type 0)
    (batch_keeps : (scenario : Scenario) (m : MainState) (w : outside.W)
      → P m
      → Leaves Q P (run_batch outside settings scenario m w).0)
    (signal_keeps : (m : MainState) (signal : Signal) (answers : List Signal)
      → P m
      → P (record m { run_signal = signal; answers = answers })) where
  IfSome : Option MainState → Type 0
  IfSome none = Unit
  IfSome (some m) = P m

  pause_loop_keeps : (answers : List Signal) (m : MainState) → P m → IfSome (pause_loop answers m)
  unfolding pause_loop IfSome
  pause_loop_keeps [] m p = tt
  pause_loop_keeps (signal ∷ answers) m p = elim (Bool-cases (is_pause signal)) [
    | inl e ↦ rw (pause_loop, e) (pause_loop_keeps answers m p)
    | inr e ↦ rw (pause_loop, e) (signal_keeps m signal answers p)
  ]

  read_signal_keeps : (b : Bool) (m : MainState) → P m → IfSome (read_signal b m)
  unfolding read_signal IfSome
  read_signal_keeps false m p = p
  read_signal_keeps true m p = answered m.answers
    where
      answered :
          (answers : List Signal)
          → IfSome (elim answers [
            | [] ↦ none
            | signal ∷ rest ↦
                let m1 = record m { run_signal = signal; answers = rest } in
                if is_pause signal then pause_loop rest m1 else some m1
          ])
      answered [] = tt
      answered (signal ∷ rest) = elim (Bool-cases (is_pause signal)) [
        | inl e ↦ rw e (pause_loop_keeps rest _ (signal_keeps m signal rest p))
        | inr e ↦ rw e (signal_keeps m signal rest p)
      ]

  run_scenario_keeps :
      (scenario : Scenario) (m : MainState) (w : outside.W)
      → P m
      → Leaves Q P (run_scenario outside settings scenario m w).0
  unfolding run_scenario after_signal IfSome
  run_scenario_keeps scenario m w p =
      elim (Option-cases (read_signal settings.publish_running_status m)) [
        | inl e ↦ rw (run_scenario, e) tt
        | inr (m1, e) ↦
            let q : P m1 = rw e at (read_signal_keeps settings.publish_running_status m p) in
            elim (Bool-cases (is_stop m1.run_signal)) [
              | inl f ↦ rw (run_scenario, e, after_signal, f) q
              | inr f ↦ elim (Bool-cases (is_empty scenario.scenarios_list)) [
                | inl g ↦ rw (run_scenario, e, after_signal, f, g) q
                | inr g ↦ rw (run_scenario, e, after_signal, f, g) (batch_keeps scenario m1 w q)
              ]
            ]
      ]

  pub scenario_loop_keeps :
      (scenarios : List Scenario) (m : MainState) (w : outside.W)
      → P m
      → Leaves Q P (scenario_loop outside settings scenarios m w).0
  unfolding scenario_loop
  scenario_loop_keeps [] m w p = p
  scenario_loop_keeps (scenario ∷ scenarios) m w p =
      after_step outside settings Q P P (scenario_loop outside settings scenarios)
        (λ m1 w1. (next m1, w1)) (scenario_loop_keeps scenarios) (λ m1 w1 q. q)
        (run_scenario outside settings scenario m w) (run_scenario_keeps scenario m w p)

  module _ (iteration_keeps : (m : MainState) → P m → P (end_iteration outside settings m))
      (out_of_fuel : Q) where
    pub main_loop_keeps :
        (fuel : ℕ) (m : MainState) (w : outside.W)
        → P m
        → Leaves Q P (main_loop outside settings fuel m w).0
    unfolding main_loop
    main_loop_keeps zero m w p = out_of_fuel
    main_loop_keeps (suc fuel) m w p =
        elim (Bool-cases
          (below_limit m.iteration settings.iterations && not (is_stop m.run_signal))) [
            | inr e ↦ rw (main_loop, e) p
            | inl e ↦
                rw (main_loop, e)
                  (after_step outside settings Q P P
                    (λ m1 w1.
                      main_loop outside settings fuel (end_iteration outside settings m1) w1)
                    (λ m1 w1.
                      main_loop outside settings fuel (end_iteration outside settings m1) w1)
                    (λ m1 w1 q. main_loop_keeps fuel _ w1 (iteration_keeps m1 q))
                    (λ m1 w1 q. main_loop_keeps fuel _ w1 (iteration_keeps m1 q))
                    (scenario_loop outside settings settings.chaos_scenarios m w)
                    (scenario_loop_keeps settings.chaos_scenarios m w p))
          ]

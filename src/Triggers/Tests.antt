-- ===== src/Triggers/Tests.antt =====
-- Runs of the triggers of krkn/scenario_plugins/triggers, with a counter for the clock.
use krkn.Base.{
  ℕ, suc, ◌+◌, ◌≡◌, refl, Bool, true, false, none, some, List, [], ◌∷◌, ◌++◌, All, arith, leb, ◌==◌,
  if◌then◌else◌, is_empty,
}
use krkn.Base.Int.{ℤ, pos, negsuc, pos_part}
use krkn.Base.Text.{text, strip, text_eq, isdigit, digits_from}
use krkn.Base.Result.{ok, err}
use krkn.Triggers.Values.{
  Numbers, int, word, dict, items, Fields, no_field, field, no_item, item, parse_int,
}
use krkn.Triggers.Condition.{equal, not_found, no_path, no_value, parse_condition, coerce}
use krkn.Triggers.Condition.Laws.{Plain, symbol, parse_condition_reads}
use krkn.Triggers.Kinds.{Outside, Trigger, command}
use krkn.Triggers.Manager.{TriggerManager, all_of, skip, new_manager, wait_for_triggers}
use krkn.Triggers.Manager.Laws.{IsClock, Ended, wait_for_triggers_ends}

abbrev eq_int : ℤ → ℤ → Bool
eq_int (pos a) (pos b) = a == b
eq_int (pos a) (negsuc b) = false
eq_int (negsuc a) (pos b) = false
eq_int (negsuc a) (negsuc b) = a == b

abbrev le_int : ℤ → ℤ → Bool
le_int (pos a) (pos b) = leb a b
le_int (pos a) (negsuc b) = false
le_int (negsuc a) (pos b) = true
le_int (negsuc a) (negsuc b) = leb b a

-- Whole floats.
abbrev whole : Numbers
whole = record {
  F = ℤ;
  of_int = λ n. n;
  eq = eq_int;
  le = le_int;
  parse_float = λ s. none;
  print_float = λ x. text "1.0";
  whole = λ x. x;
  ticks = pos_part;
}

-- A world that is its clock: every question takes a tick, and the command succeeds from tick 20 on.
abbrev ticking : Outside whole
ticking = record {
  W = ℕ;
  monotonic = λ w. (w, w);
  sleep = λ d w. w + d;
  run_command = λ cmd w. (if leb 20 w then some (pos 0) else none, suc w);
  request = λ method url headers w. (none, suc w);
  process_query = λ query url token w. (none, suc w);
  resources_get = λ version kind w. (ok false, suc w);
  resource_get = λ version kind name namespace w. (err not_found, suc w);
  getattr = λ v name. err not_found;
  container = λ v. [];
}

abbrev ticking-IsClock : IsClock whole ticking
ticking-IsClock = record {
  clock = λ w. w;
  reads = λ w. refl;
  after_reading = λ w. omega arith;
  after_sleep = λ d w. omega arith;
  after_command = λ cmd w. omega arith;
  after_request = λ method url headers w. omega arith;
  after_query = λ q u t w. omega arith;
  after_resources = λ v k w. omega arith;
  after_resource = λ v k n space w. omega arith;
}

path-Plain : All Plain (text "status.phase ")
path-Plain = (
  refl,
  (
    refl,
    (refl, (refl, (refl, (refl, (refl, (refl, (refl, (refl, (refl, (refl, (refl, tt))))))))))),
  ),
)

parse_condition_reads_example :
    parse_condition whole (text "status.phase " ++ (symbol equal ++ text " Running")) ≡ (
      if is_empty (strip (text "status.phase "))
      then err no_path
      else if is_empty (strip (text " Running"))
      then err no_value
      else ok (strip (text "status.phase "), (equal, coerce whole (strip (text " Running")))))
parse_condition_reads_example =
    parse_condition_reads whole (text "status.phase ") (text " Running") equal path-Plain refl

abbrev ready : Trigger whole
ready = record { kind = command (word (text "true")) (pos 0); last_result = none; notices = [] }

abbrev config : Fields ℤ
config =
    field (text "conditions")
      (items (
        item
          (dict (
            field (text "type") (word (text "command"))
              (field (text "cmd") (word (text "true")) no_field)))
          no_item))
      (field (text "timeout") (int (pos 60)) no_field)

abbrev manager : TriggerManager whole
manager = record {
  mode = all_of;
  on_timeout = skip;
  timeout = 60;
  interval = 5;
  triggers = ready ∷ [];
  trigger_states = none ∷ [];
}

config-manager : new_manager whole (λ v. []) false config ≡ ok manager
unfolding new_manager text_eq
config-manager = refl

wait_for_triggers_ends_example :
    Ended whole ticking ticking-IsClock (3 + 60) manager (wait_for_triggers whole ticking manager 3)
wait_for_triggers_ends_example =
    wait_for_triggers_ends whole ticking ticking-IsClock manager 3 (omega arith)

abbrev scenarios : List ℕ
scenarios = 1 ∷ 2 ∷ []

-- The underscores of a number stand alone between two digits.
parse_int_tests :
    (parse_int whole (text " -1_000 ") ≡ some (negsuc 999))
    × (parse_int whole (text "_1") ≡ none)
    × (parse_int whole (text "1_") ≡ none)
    × (parse_int whole (text "1__0") ≡ none)
unfolding parse_int strip isdigit digits_from
parse_int_tests = (refl, refl, refl, refl)

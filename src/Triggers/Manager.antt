-- ===== src/Triggers/Manager.antt =====
-- krkn/scenario_plugins/triggers/trigger_manager.py, and what run_kraken.py does with its answer. The
-- clock counts ticks; a timeout and an interval are finite floats, taken as numbers of ticks once they are
-- tested.
pub mod Laws
pub mod Config
use krkn.Base.{
  ℕ, zero, suc, ◌+◌, ◌-◌, min, ◌≡◌, Bool, true, false, not, ◌&&◌, ◌||◌, Option, none, some, List,
  [], ◌∷◌, ◌++◌, map, if◌then◌else◌, all, any, leb, ltb,
}
use krkn.Base.Int.{ℤ, pos, negsuc}
use krkn.Base.Text.{Text, text, text_eq}
use krkn.Base.Result.{Result, ok, err, ◌>>=◌}
use krkn.Triggers.Values.{
  Numbers, Value, nothing, int, word, dict, items, Fields, get_field, truthy, get_or_none, get_or,
  float_of, items_list,
}
use krkn.Triggers.Kinds.{
  ConfigError, no_type, unknown_type, bad_entry, no_conditions, not_a_list, bad_mode, mode_type,
  bad_on_timeout, on_timeout_type, is_value_error, not_numeric, timeout_range, interval_range,
  Trigger, Outside, new_command, new_http, new_prometheus, new_k8s, evaluate,
}

pub data Mode : Type 0 where
  all_of any_of : Mode

pub data OnTimeout : Type 0 where
  skip fail run_anyway : OnTimeout

module _ (numbers : Numbers) where
  open numbers use {F, ticks}

  pub record TriggerManager : Type 0 where
    pub mode : Mode
    pub on_timeout : OnTimeout
    pub timeout : ℕ
    pub interval : ℕ
    pub triggers : List (Trigger numbers)
    pub trigger_states : List (Option Bool)

  -- A list or a dict cannot be looked up in the set of the known modes: a `TypeError`.
  unfoldable pub mode_of : Value F → Result ConfigError Mode
  mode_of v = elim v [
    | word s ↦
        if text_eq s (text "all_of")
        then ok all_of
        else if text_eq s (text "any_of")
        then ok any_of
        else err bad_mode
    | dict f ↦ err mode_type
    | items i ↦ err mode_type
    | _ ↦ err bad_mode
  ]

  unfoldable pub on_timeout_of : Value F → Result ConfigError OnTimeout
  on_timeout_of v = elim v [
    | word s ↦
        if text_eq s (text "skip")
        then ok skip
        else if text_eq s (text "fail")
        then ok fail
        else if text_eq s (text "run_anyway")
        then ok run_anyway
        else err bad_on_timeout
    | dict f ↦ err on_timeout_type
    | items i ↦ err on_timeout_type
    | _ ↦ err bad_on_timeout
  ]

  -- A time that must be positive, in ticks.
  unfoldable pub positive : ConfigError → F → Result ConfigError ℕ
  positive error x = if numbers.le x (numbers.of_int (pos 0)) then err error else ok (ticks x)

  module _ (container : Value F → Text) (has_kubecli : Bool) where
    -- `_build_trigger`
    unfoldable pub build_trigger : Fields F → Result ConfigError (Trigger numbers)
    unfolding get_or_none truthy new_command new_http new_prometheus new_k8s
    build_trigger config =
        let type = get_or_none numbers (text "type") config in
        if not (truthy numbers type) then err no_type else elim type [
          | word s ↦
              if text_eq s (text "command")
              then new_command numbers config
              else if text_eq s (text "http")
              then new_http numbers container config
              else if text_eq s (text "prometheus")
              then new_prometheus numbers config
              else if text_eq s (text "k8s")
              then new_k8s numbers has_kubecli config
              else err unknown_type
          | _ ↦ err unknown_type
        ]

    unfoldable pub build_entry : Value F → Result ConfigError (Trigger numbers)
    unfolding build_trigger
    build_entry v = elim v [ dict config ↦ build_trigger config | _ ↦ err bad_entry ]

    -- The loop over the conditions, the first problem first; an entry that is not a dict has no `get`.
    unfoldable pub build_all : List (Value F) → Result ConfigError (List (Trigger numbers))
    unfolding build_entry
    build_all [] = ok []
    build_all (v ∷ vs) = (build_entry v >>= λ t. build_all vs >>= λ ts. ok (t ∷ ts))

    -- A conversion that must succeed.
    unfoldable pub numeric : Option F → Result ConfigError F
    numeric none = err not_numeric
    numeric (some x) = ok x

    -- The numbers of the configuration, and the triggers.
    unfoldable pub with_times :
        Mode → OnTimeout → Fields F → List (Value F) → Result ConfigError TriggerManager
    unfolding get_or float_of positive build_all numeric
    with_times mode on_timeout config conditions =
        (numeric (float_of numbers (get_or numbers (text "timeout") (int (pos 300)) config))
          >>= λ t.
              numeric (float_of numbers (get_or numbers (text "interval") (int (pos 5)) config))
              >>= λ i. positive timeout_range t >>= λ timeout.
                  positive interval_range i >>= λ interval. build_all conditions >>= λ triggers.
                  ok (record {
                    mode = mode;
                    on_timeout = on_timeout;
                    timeout = timeout;
                    interval = interval;
                    triggers = triggers;
                    trigger_states = map (λ _. none) triggers;
                  }))

    -- A list that is not empty.
    unfoldable pub conditions_of : Value F → Result ConfigError (List (Value F))
    unfolding truthy items_list
    conditions_of v =
        if not (truthy numbers v)
        then err no_conditions
        else elim v [ items vs ↦ ok (items_list numbers vs) | _ ↦ err not_a_list ]

    -- `TriggerManager(trigger_config, kubecli)`
    unfoldable pub new_manager : Fields F → Result ConfigError TriggerManager
    unfolding get_or_none get_or conditions_of mode_of on_timeout_of with_times
    new_manager config =
        (conditions_of (get_or_none numbers (text "conditions") config) >>= λ vs.
        mode_of (get_or numbers (text "mode") (word (text "all_of")) config) >>= λ mode.
        on_timeout_of (get_or numbers (text "on_timeout") (word (text "skip")) config) >>= λ o.
        with_times mode o config vs)

  module _ (outside : Outside numbers) where
    open outside use {W, monotonic, sleep}

    -- One poll: every trigger is asked, in order.
    unfoldable pub poll : List (Trigger numbers) → W → List Bool × (List (Trigger numbers) × W)
    unfolding evaluate
    poll [] w = ([], ([], w))
    poll (t ∷ ts) w =
        let (b, (t1, w1)) = evaluate numbers outside t w in
        let (bs, (ts1, w2)) = poll ts w1 in (b ∷ bs, (t1 ∷ ts1, w2))

    unfoldable pub satisfied : Mode → List Bool → Bool
    satisfied all_of results = all (λ b. b) results
    satisfied any_of results = any (λ b. b) results

    -- `self._trigger_states[i] = result` for every trigger
    unfoldable pub after_poll : List Bool → List (Trigger numbers) → TriggerManager → TriggerManager
    after_poll results triggers m = record m {
      triggers = triggers;
      trigger_states = map some results;
    }

    -- The loop up to the deadline; `none` where the fuel does not reach it.
    unfoldable pub wait_until :
        (fuel deadline : ℕ) → TriggerManager → W → Option Bool × (TriggerManager × W)
    unfolding poll satisfied after_poll
    wait_until zero deadline m w = (none, (m, w))
    wait_until (suc fuel) deadline m w =
        let (now, w1) = monotonic w in
        let (results, (triggers, w2)) = poll (m.triggers) w1 in
        let m1 = after_poll results triggers m in
        let (later, w3) = monotonic w2 in
        let again = wait_until fuel deadline m1 (sleep (min (m.interval) (deadline - later)) w3) in
        if not (ltb now deadline)
        then (some false, (m, w1))
        else if satisfied (m.mode) results
        then (some true, (m1, w2))
        else if leb deadline later
        then (some false, (m1, w3))
        else again

    -- `wait_for_triggers`: a round for every tick of the timeout is enough.
    unfoldable pub wait_for_triggers : TriggerManager → W → Option Bool × (TriggerManager × W)
    unfolding wait_until
    wait_for_triggers m w =
        let (now, w1) = monotonic w in wait_until (suc (m.timeout)) (now + m.timeout) m w1

    zip : List Text → List (Option Bool) → List (Text × Option Bool)
    zip [] bs = []
    zip (d ∷ ds) [] = []
    zip (d ∷ ds) (b ∷ bs) = (d, b) ∷ zip ds bs

    -- `_trigger_states` with the descriptions, as `get_status` gives them.
    unfoldable pub get_status :
        (describe : Trigger numbers → Text) → TriggerManager → List (Text × Option Bool)
    unfolding zip
    get_status describe m = zip (map describe (m.triggers)) (m.trigger_states)

  -- How a run goes on: an exception that `main` does not catch, `return 1`, or the scenarios that are
  -- run. `stuck` stands for fuel that ran out.
  pub data Gate (S : Type 0) : Type 0 where
    stuck : Gate S
    raised : Gate S
    returns_one : Gate S
    runs : List S → Gate S

  module _ {S : Type 0} (outside : Outside numbers) where
    open outside use {W}

    unfoldable pub after_wait : Bool → OnTimeout → List S → Gate S
    after_wait true on_timeout chaos_scenarios = runs chaos_scenarios
    after_wait false skip chaos_scenarios = runs []
    after_wait false fail chaos_scenarios = returns_one
    after_wait false run_anyway chaos_scenarios = runs chaos_scenarios

    -- The block on `config["triggers"]` of `main`.
    unfoldable pub gate : Bool → Value F → List S → W → Gate S × W
    unfolding truthy new_manager wait_for_triggers after_wait is_value_error
    gate has_kubecli trigger_config chaos_scenarios w =
        if not (truthy numbers trigger_config)
        then (runs chaos_scenarios, w)
        else elim trigger_config [
          | dict config ↦ elim (new_manager (outside.container) has_kubecli config) [
            | err e ↦ (if is_value_error e then returns_one else raised, w)
            | ok m ↦
                let (outcome, (m1, after)) = wait_for_triggers outside m w in
                (
                  elim outcome [
                    | none ↦ stuck
                    | some triggered ↦ after_wait triggered (m1.on_timeout) chaos_scenarios
                  ],
                  after,
                )
          ]
          | _ ↦ (raised, w)
        ]

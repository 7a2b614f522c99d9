-- ===== src/Triggers/Manager/Config.antt =====
-- krkn/scenario_plugins/triggers/trigger_manager.py: what a manager that was constructed is like, and
-- run_kraken.py: what a run does after its triggers.
use krkn.Base.{
  ℕ, suc, ◌≤◌, ◌≡◌, refl, sym, ap, ◌∙◌, ◌⊎◌, inl, inr, Bool, true, false, not, none, List, [], ◌∷◌,
  map, length, arith, Bool-cases, if◌then◌else◌,
}
use krkn.Base.Int.{pos}
use krkn.Base.Text.{Text, text}
use krkn.Base.Result.{Result, ok, err, ◌>>=◌}
use krkn.Triggers.Values.{
  Numbers, Value, Fields, dict, items, no_item, item, instance_of, float, nothing, truth, truthy,
  float_of, get_or, get_or_none, items_list, int, word,
}
use krkn.Triggers.Kinds.{
  headers_type, not_a_text, bad_entry, mode_type, on_timeout_type, Trigger, Outside, ConfigError,
  timeout_range, interval_range, no_conditions, not_a_list,
}
use krkn.Triggers.Manager.{
  Mode, OnTimeout, Gate, TriggerManager, mode_of, on_timeout_of, new_manager, with_times,
  conditions_of, numeric, positive, build_all, build_entry, runs, returns_one, raised,
}

module _ {E A B : Type 0} where
  -- A chain that gives a result has gone through its first call.
  bind_ok :
      (r : Result E A) (f : A → Result E B) (b : B)
      → (r >>= f) ≡ ok b
      → (a : A) × (r ≡ ok a) × (f a ≡ ok b)
  bind_ok (ok a) f b h = (a, refl, h)
  bind_ok (err e) f b h = cc

value_or : {E A : Type 0} → A → Result E A → A
value_or d (ok a) = a
value_or d (err e) = d

ok-inj : {E A : Type 0} (a b : A) → ◌≡◌ {A = Result E A} (ok a) (ok b) → a ≡ b
unfolding value_or
ok-inj a b h = ap (value_or a) h

-- The refusals that are a `TypeError` or an `AttributeError` of Python, and all others.
abbrev pub IsTypeError : ConfigError → Type 0
IsTypeError headers_type = Unit
IsTypeError not_a_text = Unit
IsTypeError bad_entry = Unit
IsTypeError mode_type = Unit
IsTypeError on_timeout_type = Unit
IsTypeError _ = ⊥

abbrev pub IsValueError : ConfigError → Type 0
IsValueError headers_type = ⊥
IsValueError not_a_text = ⊥
IsValueError bad_entry = ⊥
IsValueError mode_type = ⊥
IsValueError on_timeout_type = ⊥
IsValueError _ = Unit

module _ (numbers : Numbers) where
  open numbers use {F}

  -- A time that is positive has at least one tick.
  abbrev pub HasTicks : Type 0
  HasTicks = (x : F) → numbers.le x (numbers.of_int (pos 0)) ≡ false → 1 ≤ numbers.ticks x

  positive-ok : HasTicks → (e : ConfigError) (x : F) (n : ℕ) → positive numbers e x ≡ ok n → 1 ≤ n
  unfolding positive
  positive-ok law e x n h = elim (Bool-cases (numbers.le x (numbers.of_int (pos 0)))) [
    | inl f ↦ (let h' = rw (positive, f) at h in cc)
    | inr f ↦ rw (sym (ok-inj (numbers.ticks x) n (rw (positive, f) at h))) (law x f)
  ]

  -- Times of at least one tick, a trigger for every condition, and no state yet.
  abbrev pub IsFresh : (conditions : ℕ) → OnTimeout → TriggerManager numbers → Type 0
  IsFresh conditions on_timeout m =
      (m.on_timeout ≡ on_timeout)
      × (1 ≤ m.timeout)
      × (1 ≤ m.interval)
      × (length (m.triggers) ≡ conditions)
      × (m.trigger_states ≡ map (λ _. none) (m.triggers))

  module _ (law : HasTicks) (container : Value F → Text) (has_kubecli : Bool) where
    build_all-length :
        (vs : List (Value F)) (ts : List (Trigger numbers))
        → build_all numbers container has_kubecli vs ≡ ok ts
        → length ts ≡ length vs
    unfolding build_all
    build_all-length [] ts h = ap length (sym (ok-inj [] ts h))
    build_all-length (v ∷ vs) ts h =
        let (t, p, q) = bind_ok (build_entry numbers container has_kubecli v) _ ts h in
        let (rest, r, k) = bind_ok (build_all numbers container has_kubecli vs) _ ts q in
        ap length (sym (ok-inj (t ∷ rest) ts k)) ∙ ap suc (build_all-length vs rest r)

    with_times-IsFresh :
        (mode : Mode) (on_timeout : OnTimeout) (config : Fields F) (vs : List (Value F))
        (m : TriggerManager numbers)
        → with_times numbers container has_kubecli mode on_timeout config vs ≡ ok m
        → IsFresh (length vs) on_timeout m
    unfolding with_times
    with_times-IsFresh mode on_timeout config vs m h =
        let (t, _, h1) =
          bind_ok
            (numeric numbers container has_kubecli
              (float_of numbers (get_or numbers (text "timeout") (int (pos 300)) config)))
            _ m h in
        let (i, _, h2) =
          bind_ok
            (numeric numbers container has_kubecli
              (float_of numbers (get_or numbers (text "interval") (int (pos 5)) config)))
            _ m h1 in
        let (timeout, p, h3) = bind_ok (positive numbers timeout_range t) _ m h2 in
        let (interval, q, h4) = bind_ok (positive numbers interval_range i) _ m h3 in
        let (triggers, r, h5) = bind_ok (build_all numbers container has_kubecli vs) _ m h4 in
        rw
          (sym (
            ok-inj
              (record {
                mode = mode;
                on_timeout = on_timeout;
                timeout = timeout;
                interval = interval;
                triggers = triggers;
                trigger_states = map (λ _. none) triggers;
              })
              m h5))
          (
            refl,
            positive-ok law timeout_range t timeout p,
            positive-ok law interval_range i interval q,
            build_all-length vs triggers r,
            refl,
          )

    not_listed :
        (b : Bool) (vs : List (Value F))
        → (if b then err no_conditions else err not_a_list) ≡ ok vs
        → 1 ≤ length vs
    not_listed true vs h = cc
    not_listed false vs h = cc

    conditions_of-nonempty :
        (v : Value F) (vs : List (Value F))
        → conditions_of numbers container has_kubecli v ≡ ok vs
        → 1 ≤ length vs
    unfolding conditions_of truthy items_list
    conditions_of-nonempty nothing vs h = cc
    conditions_of-nonempty (truth b) vs h = not_listed (not (truthy numbers (truth b))) vs h
    conditions_of-nonempty (int n) vs h = not_listed (not (truthy numbers (int n))) vs h
    conditions_of-nonempty (float x) vs h = not_listed (not (truthy numbers (float x))) vs h
    conditions_of-nonempty (word s) vs h = not_listed (not (truthy numbers (word s))) vs h
    conditions_of-nonempty (dict f) vs h = not_listed (not (truthy numbers (dict f))) vs h
    conditions_of-nonempty (items no_item) vs h = cc
    conditions_of-nonempty (items (item v rest)) vs h =
        rw (sym (ok-inj (v ∷ items_list numbers rest) vs h)) (omega arith)
    conditions_of-nonempty (instance_of f) vs h = cc

    -- A manager that is constructed has a timeout and an interval of at least one tick, one trigger for
    -- each entry of `conditions`, a list that is not empty, and no state of a trigger yet.
    pub new_manager-IsFresh :
        (config : Fields F) (m : TriggerManager numbers)
        → new_manager numbers container has_kubecli config ≡ ok m
        → (vs : List (Value F)) × (conditions_of numbers container has_kubecli
              (get_or_none numbers (text "conditions") config)
            ≡ ok vs)
          × (1 ≤ length vs)
          × (on_timeout : OnTimeout) × (on_timeout_of numbers
                (get_or numbers (text "on_timeout") (word (text "skip")) config)
              ≡ ok on_timeout)
          × IsFresh (length vs) on_timeout m
    unfolding new_manager
    new_manager-IsFresh config m h =
        let (vs, e, h1) =
          bind_ok
            (conditions_of numbers container has_kubecli
              (get_or_none numbers (text "conditions") config))
            _ m h in
        let (mode, _, h2) =
          bind_ok (mode_of numbers (get_or numbers (text "mode") (word (text "all_of")) config)) _ m
            h1 in
        let (on_timeout, o, h3) =
          bind_ok
            (on_timeout_of numbers (get_or numbers (text "on_timeout") (word (text "skip")) config))
            _ m h2 in
        (
          vs,
          e,
          conditions_of-nonempty (get_or_none numbers (text "conditions") config) vs e,
          on_timeout,
          o,
          with_times-IsFresh mode on_timeout config vs m h3,
        )

  -- The value of `on_timeout` that a run reads.
  abbrev pub on_timeout_value : Fields F → Value F
  on_timeout_value config = get_or numbers (text "on_timeout") (word (text "skip")) config

  module _ {S : Type 0} (outside : Outside numbers) where
    open outside use {W, monotonic}

    -- What a run does with a configuration that the manager refuses.
    abbrev pub Refused : ConfigError → Gate numbers S → Type 0
    Refused e g = (IsTypeError e × (g ≡ raised)) ⊎ (IsValueError e × (g ≡ returns_one))

    -- What a run does after its timeout: no scenario, a return of 1, or all scenarios.
    abbrev pub TimedOut : Fields F → List S → Gate numbers S → Type 0
    TimedOut config chaos_scenarios g =
        ((on_timeout_value config ≡ word (text "skip")) × (g ≡ runs []))
        ⊎ (((on_timeout_value config ≡ word (text "fail")) × (g ≡ returns_one))
            ⊎ ((on_timeout_value config ≡ word (text "run_anyway")) × (g ≡ runs chaos_scenarios)))

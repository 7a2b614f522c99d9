-- ===== src/Triggers/Manager/Laws.antt =====
-- krkn/scenario_plugins/triggers/trigger_manager.py: when the wait ends, and with what answer.
use krkn.Base.{
  ℕ, zero, suc, ◌+◌, ◌-◌, ◌≤◌, ◌<◌, min, ◌≡◌, refl, ◌⊎◌, inl, inr, Bool, true, false, not, ◌&&◌,
  Option, none, some, List, [], ◌∷◌, map, arith, ltb, leb, leb→le, ltb→lt, Bool-cases,
  if◌then◌else◌, All,
}
use krkn.Base.Text.{Text}
use krkn.Base.Result.{Result-cases}
use krkn.Triggers.Values.{Numbers, Value, Fields, truthy}
use krkn.Triggers.Kinds.{
  Trigger, Outside, Kind, command, http, prometheus, k8s, met, evaluate, look_up,
}
use krkn.Triggers.Manager.{
  TriggerManager, Mode, all_of, any_of, poll, satisfied, after_poll, wait_until, wait_for_triggers,
}

ltb-false : (a b : ℕ) → ltb a b ≡ false → b ≤ a
ltb-false a b h = ground arith

leb-false : (a b : ℕ) → leb a b ≡ false → b < a
leb-false a b h = ground arith

-- What a mode asks of the answers of a poll: that each is yes, or that not all are no.
abbrev pub IsMet : Mode → List Bool → Type 0
IsMet all_of results = All (λ b. b ≡ true) results
IsMet any_of results = ¬ All (λ b. b ≡ false) results

module _ (numbers : Numbers) (outside : Outside numbers) where
  open outside use {
    W, monotonic, sleep, run_command, request, process_query, resources_get, resource_get,
  }

  -- The clock never goes back, and a sleep takes at least the time that it is asked for.
  pub record IsClock : Type 0 where
    pub clock : W → ℕ
    pub reads : (w : W) → (monotonic w).0 ≡ clock w
    pub after_reading : (w : W) → clock w ≤ clock ((monotonic w).1)
    pub after_sleep : (d : ℕ) (w : W) → clock w + d ≤ clock (sleep d w)
    pub after_command : (c : Value (numbers.F)) (w : W) → clock w ≤ clock ((run_command c w).1)
    pub after_request :
        (method : Text) (url : Value (numbers.F)) (headers : Fields (numbers.F)) (w : W)
        → clock w ≤ clock ((request method url headers w).1)
    pub after_query :
        (q u t : Value (numbers.F)) (w : W) → clock w ≤ clock ((process_query q u t w).1)
    pub after_resources :
        (v k : Value (numbers.F)) (w : W) → clock w ≤ clock ((resources_get v k w).1)
    pub after_resource :
        (v k n : Value (numbers.F)) (space : Option (Value (numbers.F))) (w : W)
        → clock w ≤ clock ((resource_get v k n space w).1)

  module _ (c : IsClock) where
    open c use {clock}

    look_up_later :
        (v k n space : Value (numbers.F)) (w : W)
        → clock w ≤ clock ((look_up numbers outside v k n space w).1)
    unfolding look_up
    look_up_later v k n space w = elim (Result-cases ((resources_get v k w).0)) [
      | inl (namespaced, e) ↦ elim (Bool-cases (namespaced && not (truthy numbers space))) [
        | inl h ↦ rw (look_up, e, h) (c.after_resources v k w)
        | inr h ↦
            rw (look_up, e, h)
              (omega (
                arith,
                c.after_resources v k w,
                c.after_resource v k n (if truthy numbers space then some space else none)
                    ((resources_get v k w).1),
              ))
      ]
      | inr (problem, e) ↦ rw (look_up, e) (c.after_resources v k w)
    ]

    met_later : (k : Kind numbers) (w : W) → clock w ≤ clock ((met numbers outside k w).1)
    unfolding met
    met_later (command cmd rc) w = c.after_command cmd w
    met_later (http url method status headers body) w = c.after_request method url headers w
    met_later (prometheus q u tok) w = c.after_query q u tok w
    met_later (k8s v k n space path op e) w = look_up_later v k n space w

    evaluate_later :
        (t : Trigger numbers) (w : W) → clock w ≤ clock ((evaluate numbers outside t w).1.1)
    unfolding evaluate
    evaluate_later t w = met_later (t.kind) w

    poll_later :
        (ts : List (Trigger numbers)) (w : W) → clock w ≤ clock ((poll numbers outside ts w).1.1)
    unfolding poll
    poll_later [] w = omega arith
    poll_later (t ∷ ts) w =
        omega (arith, evaluate_later t w, poll_later ts ((evaluate numbers outside t w).1.1))

    satisfied-IsMet :
        (mode : Mode) (results : List Bool)
        → satisfied numbers outside mode results ≡ true
        → IsMet mode results
    unfolding satisfied
    satisfied-IsMet all_of [] h = tt
    satisfied-IsMet all_of (true ∷ rs) h = (refl, satisfied-IsMet all_of rs h)
    satisfied-IsMet all_of (false ∷ rs) h = cc
    satisfied-IsMet any_of [] h = cc
    satisfied-IsMet any_of (true ∷ rs) h = λ a. (let no = a.0 in cc)
    satisfied-IsMet any_of (false ∷ rs) h = λ a. satisfied-IsMet any_of rs h a.1

    -- How the loop ends: a last poll met the condition, or the deadline is past.
    abbrev pub Ended :
        ℕ → TriggerManager numbers → Option Bool × (TriggerManager numbers × W) → Type 0
    Ended deadline m r =
        (r.1.0.on_timeout ≡ m.on_timeout)
        × (((results : List Bool) × (r.0 ≡ some true)
              × IsMet (m.mode) results
              × (r.1.0.trigger_states ≡ map some results))
            ⊎ ((r.0 ≡ some false) × (deadline ≤ clock (r.1.1))))

    -- The state of the clock when a poll is done, and the result of the poll.
    abbrev results_of : TriggerManager numbers → W → List Bool
    results_of m w = (poll numbers outside (m.triggers) ((monotonic w).1)).0

    abbrev polled : TriggerManager numbers → W → W
    polled m w = (poll numbers outside (m.triggers) ((monotonic w).1)).1.1

    polled_later : (m : TriggerManager numbers) (w : W) → clock w ≤ clock (polled m w)
    polled_later m w = omega (arith, c.after_reading w, poll_later (m.triggers) ((monotonic w).1))

    -- A round that goes on has slept for the interval, or up to the deadline.
    next_round :
        (fuel deadline : ℕ) (m : TriggerManager numbers) (w : W)
        → 1 ≤ m.interval
        → deadline < clock w + suc fuel
        → 1 ≤ fuel
        → (monotonic (polled m w)).0 < deadline
        → deadline
          < clock (
              sleep
                (min (m.interval) (deadline - (monotonic (polled m w)).0))
                ((monotonic (polled m w)).1))
            + fuel
    next_round fuel deadline m w hi hf h1 left = omega (
      arith,
      c.reads (polled m w),
      c.after_reading (polled m w),
      polled_later m w,
      c.after_sleep (min (m.interval) (deadline - (monotonic (polled m w)).0))
          ((monotonic (polled m w)).1),
    )

    wait_until_ends :
        (fuel deadline : ℕ) (m : TriggerManager numbers) (w : W)
        → 1 ≤ m.interval
        → 1 ≤ fuel
        → deadline < clock w + fuel
        → Ended deadline m (wait_until numbers outside fuel deadline m w)
    unfolding wait_until after_poll
    wait_until_ends zero deadline m w hi h1 hf = absurd (omega (arith, h1))
    wait_until_ends (suc fuel) deadline m w hi h1 hf =
        elim (Bool-cases (ltb ((monotonic w).0) deadline)) [
          | inr late ↦ rw late (
            refl,
            inr (
              refl,
              omega
                  (arith, ltb-false ((monotonic w).0) deadline late, c.reads w, c.after_reading w),
            ),
          )
          | inl early ↦ elim (Bool-cases (satisfied numbers outside (m.mode) (results_of m w))) [
            | inl good ↦
                rw (early, good)
                  (
                    refl,
                    inl (
                      results_of m w,
                      refl,
                      satisfied-IsMet (m.mode) (results_of m w) good,
                      refl,
                    ),
                  )
            | inr bad ↦ elim (Bool-cases (leb deadline ((monotonic (polled m w)).0))) [
              | inl over ↦
                  rw (early, bad, over)
                    (
                      refl,
                      inr (
                        refl,
                        omega (
                          arith,
                          leb→le deadline ((monotonic (polled m w)).0) over,
                          c.reads (polled m w),
                          c.after_reading (polled m w),
                        ),
                      ),
                    )
              | inr left ↦
                  rw (early, bad, left)
                    (wait_until_ends fuel deadline _ _ hi
                      (omega (arith, hf, ltb→lt ((monotonic w).0) deadline early, c.reads w))
                      (next_round fuel deadline m w hi hf
                        (omega (arith, hf, ltb→lt ((monotonic w).0) deadline early, c.reads w))
                        (leb-false deadline ((monotonic (polled m w)).0) left)))
            ]
          ]
        ]

    -- On a clock that never goes back, and for an interval of at least one tick, `wait_for_triggers`
    -- returns: with true when the answers of a poll, which are the states that it leaves, were all yes,
    -- or in the mode `any` not all no, and with false no earlier than the timeout after its first reading
    -- of the clock. It keeps `on_timeout`.
    pub wait_for_triggers_ends :
        (m : TriggerManager numbers) (w : W)
        → 1 ≤ m.interval
        → Ended ((monotonic w).0 + m.timeout) m (wait_for_triggers numbers outside m w)
    unfolding wait_for_triggers
    wait_for_triggers_ends m w hi =
        wait_until_ends (suc (m.timeout)) ((monotonic w).0 + m.timeout) m ((monotonic w).1) hi
          (omega arith) (omega (arith, c.reads w, c.after_reading w))

-- ===== src/Cerberus/Laws.antt =====
-- krkn/cerberus/setup.py: when a run goes on.
use krkn.Base.{
  all, not, ℕ, ◌≡◌, ◌⊎◌, refl, Bool, true, false, some, List, [], ◌∷◌, if◌then◌else◌, is_empty,
  Bool-cases, Option-cases, inl, inr, arith,
}
use krkn.Base.Text.{Text, text, text_eq, text_eq_iff}
use krkn.Cerberus.{
  Globals, Failure, Outside, Outcome, returns, exits, raises, failed_routes, application_status,
  judge, get_status, publish_kraken_status,
}

judge_lem :
    (cerberus routes b : Bool)
    → judge cerberus routes ≡ returns b
    → (cerberus ≡ true) × (routes ≡ true) × (b ≡ true)
unfolding judge
judge_lem true true b h = ground arith
judge_lem true false b h = ground arith
judge_lem false true b h = ground arith
judge_lem false false b h = ground arith

no_routes : (routes : List Text) → is_empty routes ≡ true → routes ≡ []
no_routes [] h = refl
no_routes (r ∷ routes) h = absurd (ground arith)

routes_only :
    (failures : List Failure)
    → failed_routes failures ≡ []
    → all (λ (f : Failure). not (text_eq f.component (text "route"))) failures ≡ true
unfolding failed_routes
routes_only [] h = refl
routes_only (f ∷ failures) h = elim (Bool-cases (text_eq f.component (text "route"))) [
  | inl e ↦ (let h' = rw e at h in absurd (ground arith))
  | inr e ↦ rw e (routes_only failures (rw e at h))
]

Outcome-cases :
    {A : Type 0} (o : Outcome A) → ((a : A) × (o ≡ returns a)) ⊎ ((o ≡ exits) ⊎ (o ≡ raises))
Outcome-cases (returns a) = inl (a, refl)
Outcome-cases exits = inr (inl refl)
Outcome-cases raises = inr (inr refl)

module _ (outside : Outside) where
  open outside use {W, get_signal, get_failures}

  -- The routes of the history, where they are checked.
  abbrev pub NoRouteFailed : Globals → ℕ → ℕ → W → Type 0
  NoRouteFailed g start end w =
      (failures : List Failure) × (get_failures g.cerberus_url start end w ≡ some failures)
      × (all (λ (f : Failure). not (text_eq f.component (text "route"))) failures ≡ true)

  abbrev pub IsGo : Globals → ℕ → ℕ → W → Type 0
  IsGo g start end w =
      (is_empty g.cerberus_url ≡ false)
      × (get_signal g.cerberus_url w ≡ some (text "True"))
      × (if g.check_application_routes then NoRouteFailed g start end w else Unit)

  get_status-IsGo :
      (g : Globals) (start end : ℕ) (w : W) (b : Bool)
      → g.cerberus_enabled ≡ true
      → get_status outside g start end w ≡ returns b
      → IsGo g start end w × (b ≡ true)
  unfolding get_status application_status
  get_status-IsGo g start end w b c h = elim (Bool-cases (is_empty g.cerberus_url)) [
    | inl u ↦ (let h' = rw (get_status, c, u) at h in absurd (ground arith))
    | inr u ↦ elim (Option-cases (get_signal g.cerberus_url w)) [
      | inl s ↦ (let h' = rw (get_status, c, u, s) at h in absurd (ground arith))
      | inr (signal, s) ↦ elim (Bool-cases g.check_application_routes) [
        | inr r ↦
            let (go, _, yes_b) =
              judge_lem (text_eq signal (text "True")) true b (rw (get_status, c, u, s, r) at h) in
            ((u, rw ((text_eq_iff signal (text "True")).0 go) at s, rw r tt), yes_b)
        | inl r ↦ elim (Option-cases (get_failures g.cerberus_url start end w)) [
          | inl f ↦
              (let h' = rw (get_status, c, u, s, r, application_status, f) at h in
                absurd (ground arith))
          | inr (failures, f) ↦
              let (go, none_failed, yes_b) =
                judge_lem (text_eq signal (text "True")) (is_empty (failed_routes failures)) b
                  (rw (get_status, c, u, s, r, application_status, u, f) at h) in
              (
                (
                  u,
                  rw ((text_eq_iff signal (text "True")).0 go) at s,
                  rw r (
                    failures,
                    f,
                    routes_only failures (no_routes (failed_routes failures) none_failed),
                  ),
                ),
                yes_b,
              )
        ]
      ]
    ]
  ]

  -- Where Cerberus is enabled, a scenario after which the status is published is followed by another only
  -- if Cerberus said go, no route that it checks failed, and `exit_on_failure` is not set: with it the run
  -- exits even if the cluster is healthy, and without it the run still exits if it is not.
  pub publish_goes_on :
      (g : Globals) (start end : ℕ) (w : W) (b : Bool)
      → g.cerberus_enabled ≡ true
      → publish_kraken_status outside g start end w ≡ returns b
      → IsGo g start end w × (g.exit_on_failure ≡ false) × (b ≡ true)
  unfolding publish_kraken_status
  publish_goes_on g start end w b c h = elim (Outcome-cases (get_status outside g start end w)) [
    | inr (inl e) ↦ (let h' = rw (publish_kraken_status, e, c) at h in absurd (ground arith))
    | inr (inr e) ↦ (let h' = rw (publish_kraken_status, e, c) at h in absurd (ground arith))
    | inl (status, e) ↦
        let (go, up) = get_status-IsGo g start end w status c e in
        let h' = rw (publish_kraken_status, e, c, up) at h in (go, ground arith, ground arith)
  ]

-- ===== src/Resiliency/Score/Laws.antt =====
-- What `calculate_resiliency_score` promises of its definitions and results.
use krkn.Base.{
  ℕ, ◌+◌, ◌≡◌, refl, Bool, true, false, Option, none, some, List, [], ◌∷◌, ◌++◌, arith, length,
  keep, count, if◌then◌else◌, All, Pointwise, All-append, Option-cases, inl, inr,
}
use krkn.Base.Text.{Text}
use krkn.Base.Dict.{Dict, lookup, has}
use krkn.Base.Int.{ℤ, pos, ◌≤ℤ◌}
use krkn.Base.Float.{Float}
use krkn.Resiliency.Score.{
  SloDef, def_weight, SloResult, weight, default_weights, sum_weights, passed_slo, failed_slo,
  evaluated, defined_slos, health_check_slos, slo_objects, breakdown_of, calculate_resiliency_score,
}
use krkn.Resiliency.Score.Points.{
  NonNegative, Improves, lost_bounds, sum_weights-nonneg, improve_points, score_of_bounds,
  score_of_mono, score_of_ends,
}

-- No definition sets a negative weight.
abbrev pub WeightsNonNegative : Dict SloDef → Type 0
WeightsNonNegative defs =
    All (λ (e : Text × SloDef). (w : ℤ) → def_weight e.1 ≡ some w → pos 0 ≤ℤ w) defs

weight-nonneg :
    (slo : SloResult)
    → ((w : ℤ) → slo.custom_weight ≡ some w → pos 0 ≤ℤ w)
    → pos 0 ≤ℤ weight default_weights slo
unfolding weight
weight-nonneg slo h = elim (Option-cases slo.custom_weight) [
  | inl e ↦ ground arith
  | inr (w, e) ↦ rw e (h w e)
]

defined_slos-NonNegative :
    (defs : Dict SloDef) (results : Dict Bool)
    → WeightsNonNegative defs
    → NonNegative (defined_slos defs results)
unfolding defined_slos
defined_slos-NonNegative [] results h = tt
defined_slos-NonNegative ((name, slo_def) ∷ defs) results h =
    elim (Option-cases (lookup name results)) [
      | inl e ↦ rw e (defined_slos-NonNegative defs results h.1)
      | inr (passed, e) ↦ rw e (weight-nonneg _ h.0, defined_slos-NonNegative defs results h.1)
    ]

health_check_slos-NonNegative : (checks : Dict Bool) → NonNegative (health_check_slos checks)
unfolding health_check_slos
health_check_slos-NonNegative [] = tt
health_check_slos-NonNegative ((name, passed) ∷ checks) =
    (weight-nonneg _ (λ w e. cc), health_check_slos-NonNegative checks)

pub slo_objects-NonNegative :
    (defs : Dict SloDef) (results checks : Dict Bool)
    → WeightsNonNegative defs
    → NonNegative (slo_objects defs results checks)
unfolding slo_objects
slo_objects-NonNegative defs results checks h =
    All-append (λ slo. pos 0 ≤ℤ weight default_weights slo) _ _
      (defined_slos-NonNegative defs results h) (health_check_slos-NonNegative checks)

-- With no negative weight the score lies between 0 and 100, and the points lost between 0 and
-- the total.
pub score_bounds :
    (float : Float) (defs : Dict SloDef) (results checks : Dict Bool)
    → WeightsNonNegative defs
    → let (score, b) = calculate_resiliency_score float defs results checks in
      (pos 0 ≤ℤ score)
      × (score ≤ℤ pos 100)
      × (pos 0 ≤ℤ b.points_lost)
      × (b.points_lost ≤ℤ b.total_points)
unfolding calculate_resiliency_score breakdown_of
score_bounds float defs results checks h =
    let slos = slo_objects defs results checks in
    let (low, high) = lost_bounds slos (slo_objects-NonNegative defs results checks h) in
    let (zero_le, le_hundred) = score_of_bounds float (sum_weights slos) _ low high in
    (zero_le, le_hundred, low, high)

-- One result is at least as good as another: both are missing, or a pass stays a pass.
abbrev pub NotWorse : Option Bool → Option Bool → Type 0
NotWorse none none = Unit
NotWorse none (some _) = ⊥
NotWorse (some _) none = ⊥
NotWorse (some a) (some b) = a ≡ true → b ≡ true

abbrev pub CheckNotWorse : Text × Bool → Text × Bool → Type 0
CheckNotWorse a b = a.1 ≡ true → b.1 ≡ true

Pointwise-append :
    (before after xs ys : List SloResult)
    → Pointwise Improves before after
    → Pointwise Improves xs ys
    → Pointwise Improves (before ++ xs) (after ++ ys)
Pointwise-append [] [] xs ys h k = k
Pointwise-append [] (b ∷ after) xs ys h k = absurd h
Pointwise-append (a ∷ before) [] xs ys h k = absurd h
Pointwise-append (a ∷ before) (b ∷ after) xs ys h k =
    (h.0, Pointwise-append before after xs ys h.1 k)

evaluated-Improves :
    (name : Text) (slo_def : SloDef) (before after : Option Bool) (xs ys : List SloResult)
    → NotWorse before after
    → Pointwise Improves xs ys
    → Pointwise Improves (evaluated name slo_def before xs) (evaluated name slo_def after ys)
unfolding evaluated weight
evaluated-Improves name slo_def none none xs ys h k = k
evaluated-Improves name slo_def none (some _) xs ys h k = absurd h
evaluated-Improves name slo_def (some _) none xs ys h k = absurd h
evaluated-Improves name slo_def (some a) (some b) xs ys h k = ((refl, h), k)

defined_slos-Improves :
    (defs : Dict SloDef) (before after : Dict Bool)
    → ((k : Text) → NotWorse (lookup k before) (lookup k after))
    → Pointwise Improves (defined_slos defs before) (defined_slos defs after)
unfolding defined_slos
defined_slos-Improves [] before after h = tt
defined_slos-Improves ((name, slo_def) ∷ defs) before after h =
    evaluated-Improves name slo_def _ _ _ _ (h name) (defined_slos-Improves defs before after h)

health_check_slos-Improves :
    (before after : Dict Bool)
    → Pointwise CheckNotWorse before after
    → Pointwise Improves (health_check_slos before) (health_check_slos after)
unfolding health_check_slos weight
health_check_slos-Improves [] [] h = tt
health_check_slos-Improves [] (y ∷ ys) h = absurd h
health_check_slos-Improves (x ∷ xs) [] h = absurd h
health_check_slos-Improves (x ∷ xs) (y ∷ ys) h = ((refl, h.0), health_check_slos-Improves xs ys h.1)

-- Results that are nowhere worse give the same total and no lower score, when no weight is
-- negative. A result is worse where a pass turned into a failure; the same SLOs and the same
-- number of health checks are evaluated before and after.
pub score_mono :
    (float : Float) (defs : Dict SloDef) (before after checks checks' : Dict Bool)
    → WeightsNonNegative defs
    → ((k : Text) → NotWorse (lookup k before) (lookup k after))
    → Pointwise CheckNotWorse checks checks'
    → let (score, b) = calculate_resiliency_score float defs before checks in
      let (score', b') = calculate_resiliency_score float defs after checks' in
      (b.total_points ≡ b'.total_points) × (score ≤ℤ score')
unfolding calculate_resiliency_score breakdown_of slo_objects
score_mono float defs before after checks checks' h better better_checks =
    let valid = slo_objects-NonNegative defs before checks h in
    let (same, less) =
      improve_points _ _
        (Pointwise-append _ _ _ _ (defined_slos-Improves defs before after better)
          (health_check_slos-Improves checks checks' better_checks))
        (unfold slo_objects in valid) in
    (same, rw (← same) (score_of_mono float _ _ _ (sum_weights-nonneg _ valid) less))

-- How many SLOs of `defs` were evaluated, and how many of those passed.
abbrev pub evaluated_count : Dict SloDef → Dict Bool → ℕ
evaluated_count defs results = count (λ (e : Text × SloDef). has results e.0) defs

abbrev pub passed_count : Dict SloDef → Dict Bool → ℕ
passed_count defs results =
    count (λ (e : Text × SloDef). elim (lookup e.0 results) [ none ↦ false | some p ↦ p ]) defs

count-append :
    (p : SloResult → Bool) (xs ys : List SloResult)
    → length (keep p (xs ++ ys)) ≡ length (keep p xs) + length (keep p ys)
count-append p [] ys = omega arith
count-append p (x ∷ xs) ys = ground (arith, count-append p xs ys)

count-evaluated :
    (defs : Dict SloDef) (results : Dict Bool)
    → let slos = defined_slos defs results in
      (length (keep passed_slo slos) ≡ passed_count defs results)
      × (length (keep passed_slo slos) + length (keep failed_slo slos)
          ≡ evaluated_count defs results)
unfolding defined_slos
count-evaluated [] results = (refl, omega arith)
count-evaluated ((name, slo_def) ∷ defs) results = ground (arith, count-evaluated defs results)

count-checks :
    (checks : Dict Bool)
    → let slos = health_check_slos checks in
      (length (keep passed_slo slos) ≡ count (λ (e : Text × Bool). e.1) checks)
      × (length (keep passed_slo slos) + length (keep failed_slo slos) ≡ length checks)
unfolding health_check_slos
count-checks [] = (refl, omega arith)
count-checks ((name, passed) ∷ checks) = ground (arith, count-checks checks)

-- The breakdown counts what it should: the passes among the SLOs that have a result and among the
-- health checks, and every other one of them as failed. An SLO with no result is in neither.
pub breakdown_counts :
    (float : Float) (defs : Dict SloDef) (results checks : Dict Bool)
    → let (_, b) = calculate_resiliency_score float defs results checks in
      (b.passed ≡ passed_count defs results + count (λ (e : Text × Bool). e.1) checks)
      × (b.passed + b.failed ≡ evaluated_count defs results + length checks)
unfolding calculate_resiliency_score breakdown_of slo_objects
breakdown_counts float defs results checks =
    let e = count-evaluated defs results in
    let c = count-checks checks in
    let p = count-append passed_slo (defined_slos defs results) (health_check_slos checks) in
    let f = count-append failed_slo (defined_slos defs results) (health_check_slos checks) in
    omega arith

keep-none :
    (slos : List SloResult) → All (λ slo. slo.passed ≡ true) slos → keep failed_slo slos ≡ []
keep-none [] h = refl
keep-none (slo ∷ slos) h = ground (arith, keep-none slos h.1)

keep-All :
    (slos : List SloResult) → All (λ slo. slo.passed ≡ false) slos → keep failed_slo slos ≡ slos
keep-All [] h = refl
keep-All (slo ∷ slos) h = ground (arith, keep-All slos h.1)

-- Where there are points to win, a run in which every evaluated check passes scores 100, and one
-- in which every one fails scores 0.
pub score_ends :
    (float : Float) (defs : Dict SloDef) (results checks : Dict Bool) (outcome : Bool)
    → pos 1 ≤ℤ (calculate_resiliency_score float defs results checks).1.total_points
    → All (λ slo. slo.passed ≡ outcome) (slo_objects defs results checks)
    → (calculate_resiliency_score float defs results checks).0
      ≡ (if outcome then pos 100 else pos 0)
unfolding calculate_resiliency_score breakdown_of sum_weights
score_ends float defs results checks true h passed =
    rw (keep-none _ passed) (score_of_ends float _ h).0
score_ends float defs results checks false h failed =
    rw (keep-All _ failed) (score_of_ends float _ h).1

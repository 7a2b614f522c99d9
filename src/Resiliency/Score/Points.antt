-- ===== src/Resiliency/Score/Points.antt =====
-- The points of a list of SLO results.
use krkn.Base.{
  ℕ, ◌*◌, ◌≤◌, ◌≡◌, refl, true, false, List, [], ◌∷◌, arith, keep, All, Pointwise, Bool-cases, inl,
  inr,
}
use krkn.Base.Int.{ℤ, pos, ◌-ℤ◌, ◌*ℤ◌, ◌≤ℤ◌, is_zero, int_laws, *ℤ_pos, zero_*ℤ, one_*ℤ}
use krkn.Base.Float.{Float, IsExact}
use krkn.Resiliency.Score.{SloResult, weight, default_weights, sum_weights, failed_slo, score_of}

-- No weight is negative.
abbrev pub NonNegative : List SloResult → Type 0
NonNegative slos = All (λ slo. pos 0 ≤ℤ weight default_weights slo) slos

pub sum_weights-nonneg : (slos : List SloResult) → NonNegative slos → pos 0 ≤ℤ sum_weights slos
unfolding sum_weights
sum_weights-nonneg [] h = omega arith
sum_weights-nonneg (slo ∷ slos) h = omega (int_laws, sum_weights-nonneg slos h.1)

-- The points lost lie between nothing and all.
pub lost_bounds :
    (slos : List SloResult)
    → NonNegative slos
    → (pos 0 ≤ℤ sum_weights (keep failed_slo slos))
      × (sum_weights (keep failed_slo slos) ≤ℤ sum_weights slos)
unfolding sum_weights
lost_bounds [] h = omega arith
lost_bounds (slo ∷ slos) h = grind (int_laws, lost_bounds slos h.1)

-- The same checks with the same weights; what passes on the left passes on the right.
abbrev pub Improves : SloResult → SloResult → Type 0
Improves a b =
    (weight default_weights a ≡ weight default_weights b) × (a.passed ≡ true → b.passed ≡ true)

pub improve_points :
    (xs ys : List SloResult)
    → Pointwise Improves xs ys
    → NonNegative xs
    → (sum_weights xs ≡ sum_weights ys)
      × (sum_weights (keep failed_slo ys) ≤ℤ sum_weights (keep failed_slo xs))
unfolding sum_weights
improve_points [] [] r h = (refl, omega arith)
improve_points [] (y ∷ ys) r h = absurd r
improve_points (x ∷ xs) [] r h = absurd r
improve_points (x ∷ xs) (y ∷ ys) r h = grind (int_laws, improve_points xs ys r.1 h.1)

module _ (float : Float) where
  open float use {
    div, mul, trunc, div_mono, div_exact, mul_mono, mul_exact, trunc_mono, trunc_of_int,
  }

  percent_mono :
      (a b t : ℤ)
      → pos 1 ≤ℤ t
      → a ≤ℤ b
      → trunc (mul (div a t) (pos 100)) ≤ℤ trunc (mul (div b t) (pos 100))
  percent_mono a b t h le = trunc_mono _ _ (mul_mono _ _ 100 (div_mono a b t le h))

  -- `int((k * t / t) * 100)` is 100 k.
  percent_exact :
      (k : ℕ) (t : ℤ)
      → k ≤ 1
      → pos 1 ≤ℤ t
      → trunc (mul (div (pos k *ℤ t) t) (pos 100)) ≡ pos (k * 100)
  percent_exact k t hk h = rw (div_exact (pos k) t h (omega arith)) (
      rw (mul_exact (pos k) (pos 100) (omega arith) (omega arith) product)
        (rw (*ℤ_pos k 100) (trunc_of_int (pos (k * 100)) (omega arith))))
    where
      product : IsExact (pos k *ℤ pos 100)
      product = rw (*ℤ_pos k 100) (omega arith)

  percent_none : (t : ℤ) → pos 1 ≤ℤ t → trunc (mul (div (pos 0) t) (pos 100)) ≡ pos 0
  percent_none t h = rw (zero_*ℤ t) at (percent_exact 0 t (omega arith) h)

  percent_all : (t : ℤ) → pos 1 ≤ℤ t → trunc (mul (div t t) (pos 100)) ≡ pos 100
  percent_all t h = rw (one_*ℤ t) at (percent_exact 1 t (omega arith) h)

  pub score_of_bounds :
      (t lost : ℤ)
      → pos 0 ≤ℤ lost
      → lost ≤ℤ t
      → (pos 0 ≤ℤ score_of float t lost) × (score_of float t lost ≤ℤ pos 100)
  unfolding score_of
  score_of_bounds t lost low high = elim (Bool-cases (is_zero t)) [
    | inl e ↦ rw e (omega arith, omega arith)
    | inr e ↦
        let t1 : pos 1 ≤ℤ t = ground arith in
        rw e (
          rw (percent_none t t1) at (percent_mono (pos 0) (t -ℤ lost) t t1 (omega int_laws)),
          rw (percent_all t t1) at (percent_mono (t -ℤ lost) t t t1 (omega int_laws)),
        )
  ]

  -- Losing fewer points of the same total never lowers the score.
  pub score_of_mono :
      (t lost less : ℤ) → pos 0 ≤ℤ t → less ≤ℤ lost → score_of float t lost ≤ℤ score_of float t less
  unfolding score_of
  score_of_mono t lost less ht le = elim (Bool-cases (is_zero t)) [
    | inl e ↦ rw e (omega arith)
    | inr e ↦ rw e (percent_mono (t -ℤ lost) (t -ℤ less) t (ground arith) (omega int_laws))
  ]

  -- The two ends of the scale.
  pub score_of_ends :
      (t : ℤ) → pos 1 ≤ℤ t → (score_of float t (pos 0) ≡ pos 100) × (score_of float t t ≡ pos 0)
  unfolding score_of
  score_of_ends t h =
      let nonzero : is_zero t ≡ false = ground arith in
      let whole : t -ℤ pos 0 ≡ t = omega int_laws in
      let nothing : t -ℤ t ≡ pos 0 = omega int_laws in
      rw nonzero (rw whole (percent_all t h), rw nothing (percent_none t h))

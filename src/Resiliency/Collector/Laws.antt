-- ===== src/Resiliency/Collector/Laws.antt =====
-- What the verdicts of `evaluate_slos` say of the samples.
use krkn.Base.{
  ℕ, ◌≡◌, refl, Bool, true, false, not, ◌||◌, Option, none, some, List, [], ◌∷◌, arith, any,
  is_some, if◌then◌else◌, All,
}
use krkn.Base.Text.{Text, text_eq}
use krkn.Base.Dict.{Dict, lookup, insert, has, lookup-insert}
use krkn.Base.Float.{Float}
use krkn.Resiliency.Collector.{
  Series, Slo, Prometheus, exceeds, scan_series, slo_passed, verdict, evaluate_from, evaluate_slos,
}

-- A series of a range query, and one of neither kind, have no instant value.
abbrev pub NoInstant : Series → Type 0
NoInstant series = series.value ≡ none

abbrev pub sampled : Series → Bool
sampled series = is_some series.values

module _ (float : Float) (parse_float : Text → Option (float.F)) where
  -- Some sample of the series is above zero.
  abbrev pub violated : Series → Bool
  violated series = elim series.values [
    | none ↦ false
    | some values ↦ any (exceeds float parse_float) values
  ]

  scan_series_range :
      (seen : Bool) (result : List Series)
      → All NoInstant result
      → scan_series float parse_float seen result
        ≡ (if seen || any sampled result then some (not (any violated result)) else none)
  unfolding scan_series
  scan_series_range true [] h = refl
  scan_series_range false [] h = refl
  scan_series_range seen (series ∷ rest) h =
      ground (arith, scan_series_range true rest h.1, scan_series_range seen rest h.1)

  -- The verdict on data without instant values is a pass exactly if no readable sample of any
  -- series is above zero, and there is none exactly if no series has samples.
  pub slo_passed_range :
      (result : List Series)
      → All NoInstant result
      → slo_passed float parse_float result
        ≡ (if any sampled result then some (not (any violated result)) else none)
  unfolding slo_passed
  slo_passed_range result h = scan_series_range false result h

  -- The verdict of the last SLO of a name.
  abbrev pub last_verdict : Prometheus → ℕ → ℕ → Text → List Slo → Option Bool
  last_verdict prom start end name [] = none
  last_verdict prom start end name (slo ∷ slos) = elim (last_verdict prom start end name slos) [
    | some passed ↦ some passed
    | none ↦
        if text_eq slo.name name
        then some (verdict float parse_float (prom slo.expr start end))
        else none
  ]

  evaluate_from-lookup :
      (prom : Prometheus) (start end : ℕ) (name : Text) (results : Dict Bool) (slos : List Slo)
      → lookup name (evaluate_from float parse_float prom start end results slos)
        ≡ elim (last_verdict prom start end name slos) [
          | some passed ↦ some passed
          | none ↦ lookup name results
        ]
  unfolding evaluate_from
  evaluate_from-lookup prom start end name results [] = refl
  evaluate_from-lookup prom start end name results (slo ∷ slos) =
      let v = verdict float parse_float (prom slo.expr start end) in
      ground (
        arith,
        evaluate_from-lookup prom start end name (insert slo.name v results) slos,
        lookup-insert slo.name name v results,
      )

  -- The result of a name is the verdict of the last SLO that bears it, and other names have none.
  pub evaluate_slos-lookup :
      (prom : Prometheus) (slos : List Slo) (start end : ℕ) (name : Text)
      → lookup name (evaluate_slos float parse_float prom slos start end)
        ≡ last_verdict prom start end name slos
  unfolding evaluate_slos lookup
  evaluate_slos-lookup prom slos start end name =
      ground (arith, evaluate_from-lookup prom start end name [] slos)

  last_verdict-named :
      (prom : Prometheus) (start end : ℕ) (name : Text) (slos : List Slo)
      → is_some (last_verdict prom start end name slos)
        ≡ any (λ (s : Slo). text_eq s.name name) slos
  last_verdict-named prom start end name [] = refl
  last_verdict-named prom start end name (slo ∷ slos) =
      ground (arith, last_verdict-named prom start end name slos)

  -- A name has a result exactly if some SLO bears it: none is left out of the scoring.
  pub has-evaluate_slos :
      (prom : Prometheus) (slos : List Slo) (start end : ℕ) (name : Text)
      → has (evaluate_slos float parse_float prom slos start end) name
        ≡ any (λ (s : Slo). text_eq s.name name) slos
  has-evaluate_slos prom slos start end name =
      rw (evaluate_slos-lookup prom slos start end name)
        (last_verdict-named prom start end name slos)

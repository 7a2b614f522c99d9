-- ===== src/Resiliency/Score.antt =====
-- krkn/resiliency/score.py: the weighted score of a set of pass or fail results.
pub mod Points
pub mod Laws
use krkn.Base.{
  ℕ, ◌+◌, Bool, true, false, not, Option, none, some, List, [], ◌∷◌, ◌++◌, length, keep,
  if◌then◌else◌,
}
use krkn.Base.Text.{Text, text, text_eq}
use krkn.Base.Dict.{Dict, lookup, get}
use krkn.Base.Int.{ℤ, pos, ◌+ℤ◌, ◌-ℤ◌, is_zero}
use krkn.Base.Float.{Float}

abbrev pub default_weights : Dict ℤ
default_weights = (text "critical", pos 3) ∷ (text "warning", pos 1) ∷ []

pub record SloResult : Type 0 where
  pub name : Text
  pub severity : Text
  pub passed : Bool
  pub custom_weight : Option ℤ

-- `SLOResult.weight`
unfoldable pub weight : Dict ℤ → SloResult → ℤ
unfolding lookup text_eq
weight severity_weights slo = elim slo.custom_weight [
  | some w ↦ w
  | none ↦ get severity_weights slo.severity (get severity_weights (text "warning") (pos 1))
]

-- The value of an SLO definition: a severity alone, or a dict with `severity` and `weight`.
pub data SloDef : Type 0 where
  severity_only : Text → SloDef
  detailed : Option Text → Option ℤ → SloDef

abbrev pub def_severity : SloDef → Text
def_severity (severity_only s) = s
def_severity (detailed (some s) _) = s
def_severity (detailed none _) = text "warning"

abbrev pub def_weight : SloDef → Option ℤ
def_weight (severity_only _) = none
def_weight (detailed _ w) = w

-- One round of the loop over `slo_definitions`: what was not evaluated is left out.
unfoldable pub evaluated : Text → SloDef → Option Bool → List SloResult → List SloResult
evaluated name slo_def none rest = rest
evaluated name slo_def (some passed) rest =
    record {
      name = name;
      severity = def_severity slo_def;
      passed = passed;
      custom_weight = def_weight slo_def;
    }
    ∷ rest

unfoldable pub defined_slos : Dict SloDef → Dict Bool → List SloResult
unfolding evaluated
defined_slos [] results = []
defined_slos ((name, slo_def) ∷ defs) results =
    evaluated name slo_def (lookup name results) (defined_slos defs results)

-- The loop over `health_check_results`: each counts as critical.
unfoldable pub health_check_slos : Dict Bool → List SloResult
health_check_slos [] = []
health_check_slos ((name, passed) ∷ checks) =
    record { name = name; severity = text "critical"; passed = passed; custom_weight = none }
    ∷ health_check_slos checks

unfoldable pub slo_objects : Dict SloDef → Dict Bool → Dict Bool → List SloResult
slo_objects defs results checks = defined_slos defs results ++ health_check_slos checks

-- `sum(slo.weight(DEFAULT_WEIGHTS) for slo in slos)`
unfoldable pub sum_weights : List SloResult → ℤ
sum_weights [] = pos 0
sum_weights (slo ∷ slos) = weight default_weights slo +ℤ sum_weights slos

abbrev pub passed_slo : SloResult → Bool
passed_slo slo = slo.passed

abbrev pub failed_slo : SloResult → Bool
failed_slo slo = not slo.passed

pub record Breakdown : Type 0 where
  pub total_points : ℤ
  pub points_lost : ℤ
  pub passed : ℕ
  pub failed : ℕ

unfoldable pub breakdown_of : List SloResult → Breakdown
breakdown_of slos = record {
  total_points = sum_weights slos;
  points_lost = sum_weights (keep failed_slo slos);
  passed = length (keep passed_slo slos);
  failed = length (keep failed_slo slos);
}

module _ (float : Float) where
  open float use {div, mul, trunc}

  -- `0 if total_points == 0 else int(((total_points - points_lost) / total_points) * 100)`
  unfoldable pub score_of : ℤ → ℤ → ℤ
  score_of total lost =
      if is_zero total then pos 0 else trunc (mul (div (total -ℤ lost) total) (pos 100))

  unfoldable pub calculate_resiliency_score : Dict SloDef → Dict Bool → Dict Bool → ℤ × Breakdown
  calculate_resiliency_score defs results checks =
      let b = breakdown_of (slo_objects defs results checks) in
      (score_of b.total_points b.points_lost, b)

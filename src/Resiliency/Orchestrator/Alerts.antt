-- ===== src/Resiliency/Orchestrator/Alerts.antt =====
-- What `_normalise_alerts` makes of the alerts file, and that a fresh object is valid.
use krkn.Base.{
  ℕ, ◌+◌, ◌≡◌, ◌≢◌, refl, Bool, true, false, Option, none, some, List, [], ◌∷◌, arith, length,
  count, if◌then◌else◌, All, All-append, length-append,
}
use krkn.Base.Text.{Text, lower, lower_char}
use krkn.Base.Dict.{Dict, insert, All-insert}
use krkn.Base.Int.{ℤ, pos, ◌≤ℤ◌}
use krkn.Base.Result.{ok}
use krkn.Resiliency.Score.{SloDef, detailed, def_weight}
use krkn.Resiliency.Score.Laws.{WeightsNonNegative}
use krkn.Resiliency.Collector.{Slo}
use krkn.Resiliency.Orchestrator.{
  RawAlert, not_mapping, mapping, slo_name, normalise_entry, normalise_from, normalise_alerts,
  Resiliency, init, slo_defs_from, slo_defs,
}
use krkn.Resiliency.Orchestrator.Laws.{IsValid}

-- An entry that is a mapping with `expr` and `severity`.
abbrev pub is_complete : RawAlert → Bool
is_complete (mapping _ (some _) (some _) _) = true
is_complete _ = false

lower_char_idem : (c : ℕ) → lower_char (lower_char c) ≡ lower_char c
lower_char_idem c = ground arith

lower_idem : (s : Text) → lower (lower s) ≡ lower s
unfolding lower
lower_idem [] = refl
lower_idem (c ∷ s) = cc (lower_char_idem c, lower_idem s)

slo_name-ne : (description : Option Text) (idx : ℕ) → slo_name description idx ≢ []
unfolding slo_name
slo_name-ne none idx e = cc
slo_name-ne (some []) idx e = cc
slo_name-ne (some (c ∷ s)) idx e = cc

-- What scoring relies on of an SLO: it has a name, and a severity in lower case.
abbrev pub IsNormal : Slo → Type 0
IsNormal slo = (slo.name ≢ []) × (lower slo.severity ≡ slo.severity)

normalise_entry_lem :
    (idx : ℕ) (alert : RawAlert)
    → All IsNormal (normalise_entry idx alert)
      × (length (normalise_entry idx alert) ≡ (if is_complete alert then 1 else 0))
unfolding normalise_entry
normalise_entry_lem idx not_mapping = (tt, refl)
normalise_entry_lem idx (mapping description (some expr) (some severity) weight) =
    (((slo_name-ne description idx, lower_idem severity), tt), refl)
normalise_entry_lem idx (mapping description (some expr) none weight) = (tt, refl)
normalise_entry_lem idx (mapping description none severity weight) = (tt, refl)

normalise_from_lem :
    (idx : ℕ) (alerts : List RawAlert)
    → All IsNormal (normalise_from idx alerts)
      × (length (normalise_from idx alerts) ≡ count is_complete alerts)
unfolding normalise_from
normalise_from_lem idx [] = (tt, refl)
normalise_from_lem idx (alert ∷ alerts) =
    let (first, one) = normalise_entry_lem idx alert in
    let (rest, more) = normalise_from_lem (idx + 1) alerts in
    (
      All-append IsNormal (normalise_entry idx alert) _ first rest,
      ground (
        arith,
        length-append (normalise_entry idx alert) (normalise_from (idx + 1) alerts),
        one,
        more,
      ),
    )

-- A list of alerts always normalises: there is one SLO for each complete entry, each with a name
-- that is not empty and a severity in lower case.
pub normalise_alerts_lem :
    (alerts : List RawAlert)
    → (slos : List Slo) × (normalise_alerts (some alerts) ≡ ok slos)
      × (length slos ≡ count is_complete alerts)
      × All IsNormal slos
unfolding normalise_alerts
normalise_alerts_lem alerts =
    let (normal, many) = normalise_from_lem 0 alerts in
    (normalise_from 0 alerts, refl, many, normal)

-- The weight of an entry is absent or not negative.
abbrev pub RawWeight : RawAlert → Type 0
RawWeight not_mapping = Unit
RawWeight (mapping _ _ _ weight) = (w : ℤ) → weight ≡ some w → pos 0 ≤ℤ w

abbrev SloWeight : Slo → Type 0
SloWeight slo = (w : ℤ) → slo.weight ≡ some w → pos 0 ≤ℤ w

entry-SloWeight :
    (idx : ℕ) (alert : RawAlert) → RawWeight alert → All SloWeight (normalise_entry idx alert)
unfolding normalise_entry
entry-SloWeight idx not_mapping h = tt
entry-SloWeight idx (mapping description (some expr) (some severity) weight) h = (h, tt)
entry-SloWeight idx (mapping description (some expr) none weight) h = tt
entry-SloWeight idx (mapping description none severity weight) h = tt

from-SloWeight :
    (idx : ℕ) (alerts : List RawAlert)
    → All RawWeight alerts
    → All SloWeight (normalise_from idx alerts)
unfolding normalise_from
from-SloWeight idx [] h = tt
from-SloWeight idx (alert ∷ alerts) h =
    All-append SloWeight (normalise_entry idx alert) _ (entry-SloWeight idx alert h.0)
      (from-SloWeight (idx + 1) alerts h.1)

slo_defs_from-WeightsNonNegative :
    (defs : Dict SloDef) (slos : List Slo)
    → WeightsNonNegative defs
    → All SloWeight slos
    → WeightsNonNegative (slo_defs_from defs slos)
unfolding slo_defs_from
slo_defs_from-WeightsNonNegative defs [] v h = v
slo_defs_from-WeightsNonNegative defs (slo ∷ slos) v h =
    slo_defs_from-WeightsNonNegative
      (insert slo.name (detailed (some slo.severity) slo.weight) defs) slos
      (All-insert (λ (d : SloDef). (w : ℤ) → def_weight d ≡ some w → pos 0 ≤ℤ w) slo.name
        (detailed (some slo.severity) slo.weight) defs h.0 v)
      h.1

-- An alerts file whose weights are not negative gives a valid object, with no reports.
pub init-IsValid :
    (alerts : List RawAlert)
    → All RawWeight alerts
    → (self : Resiliency) × (init (some alerts) ≡ ok self)
      × (self.scenario_reports ≡ [])
      × IsValid self
unfolding init slo_defs
init-IsValid alerts h = (
  record {
    slos = normalise_from 0 alerts;
    results = [];
    score = none;
    breakdown = none;
    health_check_results = [];
    scenario_reports = [];
    summary = none;
    detailed_report = none;
  },
  refl,
  refl,
  record {
    weights = slo_defs_from-WeightsNonNegative [] _ tt (from-SloWeight 0 alerts h);
    scored = tt;
    weighted = tt;
    covered = tt;
  },
)

-- ===== src/Alerts.antt =====
-- krkn/prometheus/client.py: the critical alerts of a run. What Prometheus answers is an argument; the
-- upload of an alert is left out.
use krkn.Base.{Option, none, some, List, [], ◌∷◌, ◌++◌}
use krkn.Base.Text.{Text, text}
use krkn.Base.Dict.{Dict, lookup}

pub record ChaosRunAlert : Type 0 where
  pub alertname : Text
  pub alertstate : Text
  pub namespace : Text
  pub severity : Text

-- `ChaosRunAlertSummary`, one object for the whole run.
pub record ChaosRunAlertSummary : Type 0 where
  pub scenario : Text
  pub chaos_alerts : List ChaosRunAlert
  pub post_chaos_alerts : List ChaosRunAlert

abbrev pub no_alerts : ChaosRunAlertSummary
no_alerts = record { scenario = []; chaos_alerts = []; post_chaos_alerts = [] }

-- An element of an answer, with its labels if it has a `metric`.
abbrev pub Alert : Type 0
Alert = Option (Dict Text)

unfoldable pub label_or_none : Text → Dict Text → Text
label_or_none label metric = elim (lookup label metric) [ none ↦ text "none" | some value ↦ value ]

unfoldable pub chaos_run_alert : Dict Text → ChaosRunAlert
unfolding label_or_none
chaos_run_alert metric = record {
  alertname = label_or_none (text "alertname") metric;
  alertstate = label_or_none (text "alertstate") metric;
  namespace = label_or_none (text "namespace") metric;
  severity = label_or_none (text "severity") metric;
}

-- The alerts of an answer; what has no `metric` is passed over.
unfoldable pub alerts_of : List Alert → List ChaosRunAlert
unfolding chaos_run_alert
alerts_of [] = []
alerts_of (none ∷ alerts) = alerts_of alerts
alerts_of (some metric ∷ alerts) = chaos_run_alert metric ∷ alerts_of alerts

-- `critical_alerts`: both lists of the summary grow.
unfoldable pub critical_alerts :
    Text → (during post : List Alert) → ChaosRunAlertSummary → ChaosRunAlertSummary
unfolding alerts_of
critical_alerts scenario during post summary = record {
  scenario = scenario;
  chaos_alerts = summary.chaos_alerts ++ alerts_of during;
  post_chaos_alerts = summary.post_chaos_alerts ++ alerts_of post;
}

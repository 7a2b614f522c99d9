-- ===== src/HealthChecks/Http/Outage.antt =====
-- krkn/health_checks/http_health_check_plugin.py: what becomes of a failure of one poll.
use krkn.Base.{
  ℕ, ◌==◌, ◌≡◌, ◌≢◌, refl, ap, ◌∙◌, true, false, Option, none, some, List, [], ◌∷◌, ◌++◌, all, keep,
  All, arith,
}
use krkn.Base.Text.{Text, text, text_eq, decimal}
use krkn.Base.Dict.{lookup}
use krkn.HealthChecks.{HealthCheckPlugin, MainCall}
use krkn.HealthChecks.Http.{
  HttpConfig, HealthCheck, Tracked, Outside, started, is_defined, run_health_check, change_record,
  final_record,
}
use krkn.HealthChecks.Http.Periods.{Sample, concerns, sampled_at, opened, periods}
use krkn.HealthChecks.Http.Refine.{track_all-periods}
use krkn.HealthChecks.Http.Loop.{observed}
use krkn.HealthChecks.Http.Laws.{put_list, run_health_check-observed}
use krkn.HealthChecks.Http.ReturnValue.{IsUp, ==_same, OthersQuiet, ret_value-first}

abbrev IsUpOrNew : Option Tracked → Type 0
IsUpOrNew none = Unit
IsUpOrNew (some seen) = seen.status_code ≡ 200

==_other : (a b : ℕ) → a ≢ 200 → b ≡ 200 → (a == b) ≡ false
==_other a b h k = ground arith

decimal-200 : text_eq (decimal 200) (text "200") ≡ true
unfolding decimal text_eq
decimal-200 = refl

-- The text of the code 200 is the text that a record is compared with.
change_record-status :
    (url : Text) (seen : Tracked) (end : ℕ)
    → seen.status_code ≡ 200
    → (change_record url seen end).status ≡ true
unfolding change_record
change_record-status url seen end u = ap (λ n. text_eq (decimal n) (text "200")) u ∙ decimal-200

Up-periods :
    (url : Text) (end : ℕ) (o : Option Tracked) (ss : List Sample)
    → IsUpOrNew o
    → All (IsUp url) ss
    → all (λ (h : HealthCheck). h.status) (periods url end o ss) ≡ true
unfolding final_record
Up-periods url end none [] u h = refl
Up-periods url end (some seen) [] u h = rw u refl
Up-periods url end none (s ∷ ss) u h = Up-periods url end (some (opened s)) ss h.0.1 h.1
Up-periods url end (some seen) (s ∷ ss) u h =
    rw (==_same s.status_code seen.status_code h.0.1 u) (Up-periods url end (some seen) ss u h.1)

-- After samples that are up, one that is not closes the period of the first ones, and opens none.
periods-outage :
    (url : Text) (end : ℕ) (seen : Tracked) (before after : List Sample) (outage : Sample)
    → seen.status_code ≡ 200
    → All (IsUp url) before
    → outage.status_code ≢ 200
    → All (IsUp url) after
    → all (λ (h : HealthCheck). h.status) (periods url end (some seen) (before ++ outage ∷ after))
      ≡ true
periods-outage url end seen [] after outage u b o a =
    rw
      (
        ==_other outage.status_code seen.status_code o u,
        change_record-status url seen outage.time u,
      )
      (Up-periods url end none after tt a)
periods-outage url end seen (s ∷ before) after outage u b o a =
    rw (==_same s.status_code seen.status_code b.0.1 u)
      (periods-outage url end seen before after outage u b.1 o a)

module _ (outside : Outside) where
  open outside use {W, now}

  -- Where the first poll of an endpoint is answered with 200 and no poll of another endpoint is a failure
  -- with `exit_on_failure`, a failure of the endpoint that lasts for one poll, between polls that are
  -- answered with 200, leaves no trace, however the polls of the others lie between its own: each record
  -- of it says that it was up, and the return value stays, even where the endpoint has `exit_on_failure`.
  pub single_outage_lost :
      (schedule : List (List MainCall)) (config : HttpConfig) (plugin plugin1 : HealthCheckPlugin)
      (w w1 : W) (url : Text) (first outage : Sample) (ss before after : List Sample)
      → is_defined config ≡ true
      → observed outside schedule config plugin w ≡ (some (plugin1, ss), w1)
      → keep (sampled_at url) ss ≡ first ∷ before ++ outage ∷ after
      → OthersQuiet url ss
      → IsUp url first
      → All (IsUp url) before
      → outage.status_code ≢ 200
      → All (IsUp url) after
      → (p : HealthCheckPlugin) × (records : List (List HealthCheck)) × ((run_health_check outside
            schedule config plugin w).0
          ≡ some (p, records))
        × (p.ret_value ≡ plugin.ret_value)
        × (all (λ (h : HealthCheck). h.status) (keep (concerns url) (put_list (some (p, records))))
            ≡ true)
  unfolding lookup
  single_outage_lost schedule config plugin plugin1 w w1 url first outage ss before after d o k q u
        b n a =
      (
        _,
        _,
        ap (λ x. x.0) (run_health_check-observed outside schedule config plugin plugin1 _ w w1 d o),
        ret_value-first url first outage ss before after (started config plugin) refl u k b a q,
        ap (all (λ (h : HealthCheck). h.status)) (
              track_all-periods url (now w1) ss (started config plugin) refl
              ∙ ap (periods url (now w1) none) k)
            ∙ periods-outage url (now w1) (opened first) before after outage u.1 b n a,
      )

-- ===== src/HealthChecks/Http/Periods.antt =====
-- krkn/health_checks/http_health_check_plugin.py: what one endpoint contributes. The samples of a run,
-- and the periods of one endpoint read off its own samples alone.
use krkn.Base.{
  ℕ, ◌==◌, ◌≡◌, refl, Bool, Option, none, some, List, [], ◌∷◌, ◌++◌, keep, if◌then◌else◌, arith,
}
use krkn.Base.Text.{Text, text_eq, text_eq_iff}
use krkn.Base.Dict.{Dict, lookup, insert}
use krkn.HealthChecks.Http.{
  HealthCheck, Tracked, Monitor, delete, change_record, final_record, track,
}

pub record Sample : Type 0 where
  pub url : Text
  pub status_code : ℕ
  pub time : ℕ
  pub exit_on_failure : Bool

abbrev pub track_sample : Sample → Monitor → Monitor
track_sample s m = track s.exit_on_failure s.url s.status_code s.time m

abbrev pub track_all : List Sample → Monitor → Monitor
track_all [] m = m
track_all (s ∷ ss) m = track_all ss (track_sample s m)

abbrev pub concerns : Text → HealthCheck → Bool
concerns url h = text_eq h.url url

abbrev pub sampled_at : Text → Sample → Bool
sampled_at url s = text_eq s.url url

abbrev pub opened : Sample → Tracked
opened s = record { status_code = s.status_code; start_timestamp = s.time }

-- The periods of one endpoint: a sample opens a period where none is open, and the first sample with
-- another status closes it and opens none.
abbrev pub periods : Text → ℕ → Option Tracked → List Sample → List HealthCheck
periods url end none [] = []
periods url end (some seen) [] = final_record end (url, seen) ∷ []
periods url end none (s ∷ ss) = periods url end (some (opened s)) ss
periods url end (some seen) (s ∷ ss) =
    let same = periods url end (some seen) ss in
    let closed = change_record url seen s.time ∷ periods url end none ss in
    if s.status_code == seen.status_code then same else closed

module _ {V : Type 0} where
  abbrev pub at : Text → Dict V → Dict V
  at url d = keep (λ e. text_eq e.0 url) d

  abbrev pub entry : Text → Option V → Dict V
  entry url none = []
  entry url (some v) = (url, v) ∷ []

  pub lookup-delete :
      (k j : Text) (d : Dict V) → lookup j (delete k d) ≡ (if text_eq k j then none else lookup j d)
  unfolding lookup delete
  lookup-delete k j [] = ground arith
  lookup-delete k j ((i, w) ∷ d) =
      ground (arith, text_eq_iff k j, text_eq_iff i k, text_eq_iff i j, lookup-delete k j d)

  pub at-delete :
      (k j : Text) (d : Dict V) → at j (delete k d) ≡ (if text_eq k j then [] else at j d)
  unfolding delete
  at-delete k j [] = ground arith
  at-delete k j ((i, w) ∷ d) =
      ground (arith, text_eq_iff k j, text_eq_iff i k, text_eq_iff i j, at-delete k j d)

  -- A new key is appended.
  pub at-insert_new :
      (k j : Text) (v : V) (d : Dict V)
      → lookup k d ≡ none
      → at j (insert k v d) ≡ at j d ++ (if text_eq k j then (k, v) ∷ [] else [])
  unfolding lookup insert
  at-insert_new k j v [] h = refl
  at-insert_new k j v ((i, w) ∷ d) h = ground (arith, at-insert_new k j v d)

-- ===== src/HealthChecks/Http/Refine.antt =====
-- krkn/health_checks/http_health_check_plugin.py: the endpoints of one thread do not disturb each other,
-- although they share the tracker and the list of records.
use krkn.Base.{
  ℕ, ◌==◌, ◌≡◌, refl, sym, ap, ◌∙◌, false, Option, none, some, List, [], ◌∷◌, ◌++◌, map, keep,
  keep-append, if◌then◌else◌, Bool-cases, Option-cases, inl, inr, arith,
}
use mathlib.Core.Path.{subst}
use mathlib.Core.List.{append_assoc, append-nil}
use krkn.Base.Text.{Text, text_eq, text_eq_iff, text_eq_refl}
use krkn.Base.Dict.{Dict, lookup, lookup-insert}
use krkn.HealthChecks.Http.{
  HealthCheck, Tracked, Monitor, change_record, final_record, first_response, status_changed, track,
}
use krkn.HealthChecks.Http.Periods.{
  Sample, track_sample, track_all, concerns, sampled_at, opened, periods, at, entry, lookup-delete,
  at-delete, at-insert_new,
}

-- A url is tracked at most once.
abbrev pub IsSingle : Text → Monitor → Type 0
IsSingle url m = at url m.tracker ≡ entry url (lookup url m.tracker)

abbrev pub records_of : Text → Monitor → List HealthCheck
records_of url m = keep (concerns url) m.telemetry

keep_one :
    (url : Text) (h : HealthCheck) (hs : List HealthCheck)
    → keep (concerns url) (hs ++ h ∷ [])
      ≡ keep (concerns url) hs ++ (if text_eq h.url url then h ∷ [] else [])
keep_one url h hs = ground (arith, keep-append (concerns url) hs (h ∷ []))

-- A sample of another url changes nothing of this one.
pub track-other :
    (url : Text) (s : Sample) (m : Monitor)
    → text_eq s.url url ≡ false
    → (records_of url (track_sample s m) ≡ records_of url m)
      × (lookup url (track_sample s m).tracker ≡ lookup url m.tracker)
      × (at url (track_sample s m).tracker ≡ at url m.tracker)
unfolding track first_response status_changed change_record
track-other url s m e = elim (Option-cases (lookup s.url m.tracker)) [
  | inl f ↦
      rw (track, f)
        (
          refl,
          rw (lookup-insert s.url url (opened s) m.tracker, e) refl,
          rw (at-insert_new s.url url (opened s) m.tracker f, e) (append-nil _),
        )
  | inr (seen, f) ↦ elim (Bool-cases (s.status_code == seen.status_code)) [
    | inl g ↦ rw (track, f, g) (refl, refl, refl)
    | inr g ↦
        rw (track, f, g)
          (
            rw (keep_one url (change_record s.url seen s.time) m.telemetry, e) (append-nil _),
            rw (lookup-delete s.url url m.tracker, e) refl,
            rw (at-delete s.url url m.tracker, e) refl,
          )
  ]
]

track-first :
    (s : Sample) (m : Monitor)
    → lookup s.url m.tracker ≡ none
    → IsSingle s.url m
    → (records_of s.url (track_sample s m) ≡ records_of s.url m)
      × (lookup s.url (track_sample s m).tracker ≡ some (opened s))
      × IsSingle s.url (track_sample s m)
unfolding track first_response
track-first s m f h =
    rw (track, f)
      (
        refl,
        rw (lookup-insert s.url s.url (opened s) m.tracker, text_eq_refl s.url) refl,
        rw
            (
              at-insert_new s.url s.url (opened s) m.tracker f,
              lookup-insert s.url s.url (opened s) m.tracker,
              text_eq_refl s.url,
              h,
              f,
            )
            refl,
      )

track-closed :
    (s : Sample) (m : Monitor) (seen : Tracked)
    → lookup s.url m.tracker ≡ some seen
    → (s.status_code == seen.status_code) ≡ false
    → (records_of s.url (track_sample s m)
        ≡ records_of s.url m ++ change_record s.url seen s.time ∷ [])
      × (lookup s.url (track_sample s m).tracker ≡ none)
      × IsSingle s.url (track_sample s m)
unfolding track status_changed change_record
track-closed s m seen f g =
    rw (track, f, g)
      (
        rw (keep_one s.url (change_record s.url seen s.time) m.telemetry, text_eq_refl s.url) refl,
        rw (lookup-delete s.url s.url m.tracker, text_eq_refl s.url) refl,
        rw
            (
              at-delete s.url s.url m.tracker,
              lookup-delete s.url s.url m.tracker,
              text_eq_refl s.url,
            )
            refl,
      )

-- The records of a monitor whose loop has ended.
abbrev pub all_records : ℕ → Monitor → List HealthCheck
all_records end m = m.telemetry ++ map (final_record end) m.tracker

keep-final :
    (url : Text) (end : ℕ) (d : Dict Tracked)
    → keep (concerns url) (map (final_record end) d) ≡ map (final_record end) (at url d)
unfolding final_record
keep-final url end [] = refl
keep-final url end ((i, seen) ∷ d) = ground (arith, keep-final url end d)

final_entry :
    (url : Text) (end : ℕ) (o : Option Tracked)
    → map (final_record end) (entry url o) ≡ periods url end o []
final_entry url end none = refl
final_entry url end (some seen) = refl

-- What is still tracked gives the last record.
records-end :
    (url : Text) (end : ℕ) (m : Monitor)
    → IsSingle url m
    → keep (concerns url) (all_records end m)
      ≡ records_of url m ++ periods url end (lookup url m.tracker) []
records-end url end m h =
    rw
      (
        keep-append (concerns url) m.telemetry (map (final_record end) m.tracker),
        keep-final url end m.tracker,
        h,
      )
      (ap (λ hs. records_of url m ++ hs) (final_entry url end (lookup url m.tracker)))

-- What a sample leaves, as its url sees it.
abbrev Advances : ℕ → Sample → List Sample → Monitor → Text → Type 0
Advances end s rest m url =
    IsSingle url m
    → IsSingle url (track_sample s m)
      × (records_of url (track_sample s m)
            ++ periods url end (lookup url (track_sample s m).tracker) rest
          ≡ records_of url m ++ periods url end (lookup url m.tracker) (s ∷ rest))

track-own : (end : ℕ) (s : Sample) (rest : List Sample) (m : Monitor) → Advances end s rest m s.url
unfolding track
track-own end s rest m h = elim (Option-cases (lookup s.url m.tracker)) [
  | inl f ↦ let (r, l, i) = track-first s m f h in (i, rw (r, l, f) refl)
  | inr (seen, f) ↦ elim (Bool-cases (s.status_code == seen.status_code)) [
    | inl g ↦ rw (track, f, g) (h, rw f refl)
    | inr g ↦
        let (r, l, i) = track-closed s m seen f g in
        (
          i,
          rw (r, l, f, g)
              (append_assoc (records_of s.url m) (change_record s.url seen s.time ∷ [])
                (periods s.url end none rest)),
        )
  ]
]

-- The records of one url are those of its own samples, whatever is interleaved with them.
pub track_all-periods :
    (url : Text) (end : ℕ) (ss : List Sample) (m : Monitor)
    → IsSingle url m
    → keep (concerns url) (all_records end (track_all ss m))
      ≡ records_of url m ++ periods url end (lookup url m.tracker) (keep (sampled_at url) ss)
track_all-periods url end [] m h = records-end url end m h
track_all-periods url end (s ∷ ss) m h = elim (Bool-cases (text_eq s.url url)) [
  | inr e ↦
      let (r, l, a) = track-other url s m e in
      rw (e, ← r, ← l)
        (track_all-periods url end ss (track_sample s m) (a ∙ h ∙ ap (entry url) (sym l)))
  | inl e ↦
      let q : s.url ≡ url = (text_eq_iff s.url url).0 e in
      let (i, step) =
        subst (Advances end s (keep (sampled_at url) ss) m) q
          (track-own end s (keep (sampled_at url) ss) m) h in
      rw e (track_all-periods url end ss (track_sample s m) i ∙ step)
]

-- ===== src/HealthChecks/Http/ReturnValue.antt =====
-- krkn/health_checks/http_health_check_plugin.py: which samples set the return value.
use krkn.Base.{
  ℕ, ◌==◌, ◌≡◌, refl, sym, ap, ◌∙◌, ◌⊎◌, Bool, true, false, not, ◌&&◌, none, some, List, [], ◌∷◌,
  ◌++◌, any, keep, All, Bool-cases, Option-cases, inl, inr, arith,
}
use krkn.Base.Text.{Text, text_eq, text_eq_iff, text_eq_refl}
use krkn.Base.Dict.{lookup, lookup-insert}
use krkn.HealthChecks.Http.{Tracked, Monitor, track, first_response, status_changed}
use krkn.HealthChecks.Http.Periods.{Sample, track_sample, track_all, sampled_at, opened}
use krkn.HealthChecks.Http.Refine.{track-other}

abbrev is_failure : Sample → Bool
is_failure s = s.exit_on_failure && not (s.status_code == 200)

-- A sample that leaves the return value alone, or sets it to 3.
track-ret_value :
    (s : Sample) (m : Monitor)
    → ((track_sample s m).ret_value ≡ m.ret_value)
      ⊎ (((track_sample s m).ret_value ≡ 3) × (is_failure s ≡ true) × (m.ret_value ≡ 0))
unfolding track first_response status_changed
track-ret_value s m = elim (Option-cases (lookup s.url m.tracker)) [
  | inl f ↦ rw (track, f) (ground arith)
  | inr (seen, f) ↦ elim (Bool-cases (s.status_code == seen.status_code)) [
    | inl g ↦ rw (track, f, g) (inl refl)
    | inr g ↦ rw (track, f, g) (inl refl)
  ]
]

-- An endpoint that answers 200.
abbrev pub IsUp : Text → Sample → Type 0
IsUp url s = (s.url ≡ url) × (s.status_code ≡ 200)

pub ==_same : (a b : ℕ) → a ≡ 200 → b ≡ 200 → (a == b) ≡ true
==_same a b h k = ground arith

track-same :
    (s : Sample) (m : Monitor) (seen : Tracked)
    → lookup s.url m.tracker ≡ some seen
    → (s.status_code == seen.status_code) ≡ true
    → track_sample s m ≡ m
unfolding track
track-same s m seen f g = rw (track, f, g) refl

lookup-first :
    (s : Sample) (m : Monitor)
    → lookup s.url m.tracker ≡ none
    → lookup s.url (track_sample s m).tracker ≡ some (opened s)
unfolding track first_response
lookup-first s m f =
    rw (track, f) (rw (lookup-insert s.url s.url (opened s) m.tracker, text_eq_refl s.url) refl)

-- Only a sample that opens a period sets the return value.
ret_value-seen :
    (s : Sample) (m : Monitor) (seen : Tracked)
    → lookup s.url m.tracker ≡ some seen
    → (track_sample s m).ret_value ≡ m.ret_value
unfolding track status_changed
ret_value-seen s m seen f = elim (Bool-cases (s.status_code == seen.status_code)) [
  | inl g ↦ rw (track, f, g) refl
  | inr g ↦ rw (track, f, g) refl
]

-- No sample of another endpoint is a failure of an entry with `exit_on_failure`.
abbrev pub OthersQuiet : Text → List Sample → Type 0
OthersQuiet url ss = any is_failure (keep (λ s. not (sampled_at url s)) ss) ≡ false

cons-inj :
    (s t : Sample) (ss ts : List Sample)
    → Path (List Sample) (s ∷ ss) (t ∷ ts)
    → (s ≡ t) × (ss ≡ ts)
cons-inj s t ss ts h = (cc, cc)

-- A sample that is no failure leaves the return value alone.
track-quiet :
    (s : Sample) (m : Monitor) → is_failure s ≡ false → (track_sample s m).ret_value ≡ m.ret_value
track-quiet s m q = ground (arith, track-ret_value s m)

Up-quiet : (url : Text) (s : Sample) → IsUp url s → is_failure s ≡ false
Up-quiet url s u = ground arith

-- The first of the samples, where it is of another endpoint, and where it is of this one.
OthersQuiet-other :
    (url : Text) (s : Sample) (ss : List Sample)
    → text_eq s.url url ≡ false
    → OthersQuiet url (s ∷ ss)
    → (is_failure s ≡ false) × OthersQuiet url ss
OthersQuiet-other url s ss e q = (let q' = rw e at q in (ground arith, ground arith))

OthersQuiet-own :
    (url : Text) (s : Sample) (ss : List Sample)
    → text_eq s.url url ≡ true
    → OthersQuiet url (s ∷ ss)
    → OthersQuiet url ss
OthersQuiet-own url s ss e q = rw e at q

-- Samples of which those of the endpoint are up.
ret_value-up :
    (url : Text) (ss : List Sample) (m : Monitor)
    → All (IsUp url) (keep (sampled_at url) ss)
    → OthersQuiet url ss
    → (track_all ss m).ret_value ≡ m.ret_value
ret_value-up url [] m u q = refl
ret_value-up url (s ∷ ss) m u q = elim (Bool-cases (text_eq s.url url)) [
  | inr e ↦
      let (quiet, qs) = OthersQuiet-other url s ss e q in
      ret_value-up url ss (track_sample s m) (rw e at u) qs ∙ track-quiet s m quiet
  | inl e ↦
      let (up, ups) = rw e at u in
      ret_value-up url ss (track_sample s m) ups (OthersQuiet-own url s ss e q)
      ∙ track-quiet s m (Up-quiet url s up)
]

no_samples :
    (before after : List Sample) (s : Sample) → Path (List Sample) [] (before ++ s ∷ after) → ⊥
no_samples [] after s h = cc
no_samples (b ∷ before) after s h = cc

-- While the endpoint is known to be up: its samples are up, then one is not, then they are up again.
ret_value-outage :
    (url : Text) (outage : Sample) (ss before after : List Sample) (m : Monitor) (seen : Tracked)
    → lookup url m.tracker ≡ some seen
    → seen.status_code ≡ 200
    → keep (sampled_at url) ss ≡ before ++ outage ∷ after
    → All (IsUp url) before
    → All (IsUp url) after
    → OthersQuiet url ss
    → (track_all ss m).ret_value ≡ m.ret_value
ret_value-outage url outage [] before after m seen f g k b a q =
    absurd (no_samples before after outage k)
ret_value-outage url outage (s ∷ ss) before after m seen f g k b a q =
    elim (Bool-cases (text_eq s.url url)) [
      | inr e ↦
          let (quiet, qs) = OthersQuiet-other url s ss e q in
          let (_, same, _) = track-other url s m e in
          ret_value-outage url outage ss before after (track_sample s m) seen (same ∙ f) g
            (rw e at k) b a qs
          ∙ track-quiet s m quiet
      | inl e ↦
          let qs = OthersQuiet-own url s ss e q in
          let here : lookup s.url m.tracker ≡ some seen =
            ap (λ x. lookup x m.tracker) ((text_eq_iff s.url url).0 e) ∙ f in
          own before (rw e at k) b here qs
            (λ bs rest ups. ret_value-outage url outage ss bs after m seen f g rest ups a qs)
    ]
  where
    own :
        (bs : List Sample)
        → Path (List Sample) (s ∷ keep (sampled_at url) ss) (bs ++ outage ∷ after)
        → All (IsUp url) bs
        → lookup s.url m.tracker ≡ some seen
        → OthersQuiet url ss
        → ((rs : List Sample)
            → keep (sampled_at url) ss ≡ rs ++ outage ∷ after
            → All (IsUp url) rs
            → (track_all ss m).ret_value ≡ m.ret_value)
        → (track_all (s ∷ ss) m).ret_value ≡ m.ret_value
    own [] h bs here qs from_next =
        let (_, rest) = cons-inj s outage (keep (sampled_at url) ss) after h in
        ret_value-up url ss (track_sample s m) (rw rest a) qs ∙ ret_value-seen s m seen here
    own (x ∷ bs) h (up, ups) here qs from_next =
        let (same, rest) = cons-inj s x (keep (sampled_at url) ss) (bs ++ outage ∷ after) h in
        let code : s.status_code ≡ 200 = ap (λ (y : Sample). y.status_code) same ∙ up.1 in
        ap (λ y. (track_all ss y).ret_value)
          (track-same s m seen here (==_same s.status_code seen.status_code code g))
        ∙ from_next bs rest ups

-- The same from the first sample of the endpoint on, which is up.
pub ret_value-first :
    (url : Text) (first outage : Sample) (ss before after : List Sample) (m : Monitor)
    → lookup url m.tracker ≡ none
    → IsUp url first
    → keep (sampled_at url) ss ≡ first ∷ before ++ outage ∷ after
    → All (IsUp url) before
    → All (IsUp url) after
    → OthersQuiet url ss
    → (track_all ss m).ret_value ≡ m.ret_value
ret_value-first url first outage [] before after m n u k b a q = cc
ret_value-first url first outage (s ∷ ss) before after m n u k b a q =
    elim (Bool-cases (text_eq s.url url)) [
      | inr e ↦
          let (quiet, qs) = OthersQuiet-other url s ss e q in
          let (_, same, _) = track-other url s m e in
          ret_value-first url first outage ss before after (track_sample s m) (same ∙ n) u
            (rw e at k) b a qs
          ∙ track-quiet s m quiet
      | inl e ↦
          let at_url = (text_eq_iff s.url url).0 e in
          let (same, rest) =
            cons-inj s first (keep (sampled_at url) ss) (before ++ outage ∷ after) (rw e at k) in
          let code : s.status_code ≡ 200 = ap (λ (y : Sample). y.status_code) same ∙ u.1 in
          let f : lookup url (track_sample s m).tracker ≡ some (opened s) =
            ap (λ x. lookup x (track_sample s m).tracker) (sym at_url)
            ∙ lookup-first s m (ap (λ x. lookup x m.tracker) at_url ∙ n) in
          ret_value-outage url outage ss before after (track_sample s m) (opened s) f code rest b a
            (OthersQuiet-own url s ss e q)
          ∙ track-quiet s m (Up-quiet url s (at_url, code))
    ]

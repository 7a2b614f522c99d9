-- ===== src/HealthChecks/Virt/Thread/Samples.antt =====
-- krkn/health_checks/virt_health_check_plugin.py: the samples that a thread takes, and what it reports of
-- them.
use krkn.Base.{
  ◌≡◌, refl, sym, ap, ◌∙◌, Bool, true, ◌||◌, Option, none, some, List, [], ◌∷◌, ◌++◌, any,
  if◌then◌else◌, Bool-cases, inl, inr, arith,
}
use krkn.Base.Text.{Text}
use krkn.Base.Dict.{lookup}
use krkn.HealthChecks.{HealthCheckPlugin, MainCall, apply_all, keeps_polling}
use krkn.HealthChecks.Virt.{
  Vm, VirtConfig, Outside, Entry, VirtCheck, Tracking, track_vm, close_all,
}
use krkn.HealthChecks.Virt.Thread.{sample_vm, check_batch, batch_loop, run_virt_check_batch}
use krkn.HealthChecks.Virt.Thread.Laws.{
  fails, reports, seen, Keyed, track_vm-seen, Keyed-track_vm, close_all-seen,
}

abbrev pub track_all : Bool → List Entry → Tracking → Tracking
track_all only [] t = t
track_all only (s ∷ ss) t = track_all only ss (track_vm only s t)

track_all-append :
    (only : Bool) (ss rest : List Entry) (t : Tracking)
    → track_all only (ss ++ rest) t ≡ track_all only rest (track_all only ss t)
track_all-append only [] rest t = refl
track_all-append only (s ∷ ss) rest t = track_all-append only ss rest (track_vm only s t)

track_all-seen :
    (only : Bool) (ss : List Entry) (t : Tracking) (name : Text)
    → Keyed t.tracker
    → (seen name t || any (fails name) ss) ≡ true
    → seen name (track_all only ss t) ≡ true
track_all-seen only [] t name k h = ground arith
track_all-seen only (s ∷ ss) t name k h = elim (Bool-cases (seen name t || fails name s)) [
  | inl e ↦
      let now = track_vm-seen only s t name k e in
      track_all-seen only ss _ name (Keyed-track_vm only s t k) (rw now refl)
  | inr e ↦ track_all-seen only ss _ name (Keyed-track_vm only s t k) (ground arith)
]

module _ (outside : Outside) where
  open outside use {W, now, sleep}

  -- One pass: the machines after it, and what was seen of each.
  abbrev pub batch_samples : VirtConfig → List Vm → W → List Vm × List Entry × W
  batch_samples config [] w = ([], [], w)
  batch_samples config (vm ∷ vms) w =
      let (s, vm1, w1) = sample_vm outside config vm w in
      let (vms1, ss, w2) = batch_samples config vms w1 in (vm1 ∷ vms1, s ∷ ss, w2)

  abbrev more : List Entry → Option (List Entry) → Option (List Entry)
  more ss none = none
  more ss (some rest) = some (ss ++ rest)

  abbrev pub observed :
      List (List MainCall) → VirtConfig → HealthCheckPlugin → List Vm → W → Option (List Entry) × W
  observed [] config plugin vms w = (none, w)
  observed (calls ∷ schedule) config plugin vms w =
      let plugin1 = apply_all calls plugin in
      let (vms1, ss, w1) = batch_samples config vms w in
      let (rest, w2) = observed schedule config plugin1 vms1 (sleep config.interval w1) in
      if keeps_polling plugin1 then (more ss rest, w2) else (some [], w)

  check_batch-samples :
      (config : VirtConfig) (vms : List Vm) (t : Tracking) (w : W)
      → check_batch outside config vms t w ≡ (
        (batch_samples config vms w).0,
        track_all config.only_failures (batch_samples config vms w).1 t,
        (batch_samples config vms w).2,
      )
  unfolding check_batch
  check_batch-samples config [] t w = refl
  check_batch-samples config (vm ∷ vms) t w =
      let (s, vm1, w1) = sample_vm outside config vm w in
      ap (λ (x : List Vm × Tracking × W). (vm1 ∷ x.0, x.1, x.2))
        (check_batch-samples config vms (track_vm config.only_failures s t) w1)

  abbrev tracked : Bool → Tracking → Option (List Entry) → Option Tracking
  tracked only t none = none
  tracked only t (some ss) = some (track_all only ss t)

  tracked-more :
      (only : Bool) (ss : List Entry) (o : Option (List Entry)) (t : Tracking)
      → tracked only (track_all only ss t) o ≡ tracked only t (more ss o)
  tracked-more only ss none t = refl
  tracked-more only ss (some rest) t = ap some (sym (track_all-append only ss rest t))

  batch_loop-observed :
      (schedule : List (List MainCall)) (config : VirtConfig) (plugin : HealthCheckPlugin)
      (vms : List Vm) (t : Tracking) (w : W)
      → batch_loop outside schedule config plugin vms t w ≡ (
        tracked config.only_failures t (observed schedule config plugin vms w).0,
        (observed schedule config plugin vms w).1,
      )
  unfolding batch_loop
  batch_loop-observed [] config plugin vms t w = refl
  batch_loop-observed (calls ∷ schedule) config plugin vms t w =
      let (vms1, ss, w1) = batch_samples config vms w in
      let later =
        observed schedule config (apply_all calls plugin) vms1 (sleep config.interval w1) in
      elim (Bool-cases (keeps_polling (apply_all calls plugin))) [
        | inr e ↦ rw (batch_loop, e) refl
        | inl e ↦
            rw (batch_loop, e, check_batch-samples config vms t w)
              (batch_loop-observed schedule config (apply_all calls plugin) vms1
                  (track_all config.only_failures ss t) (sleep config.interval w1)
                ∙ ap (λ x. (x, later.1)) (tracked-more config.only_failures ss later.0 t))
      ]

  -- If a thread ends, its list has a failed record of each machine of which one of its samples was a
  -- failure, even where the failure lasted for one sample and even where only failures are reported.
  pub failures_reported :
      (schedule : List (List MainCall)) (config : VirtConfig) (plugin : HealthCheckPlugin)
      (vms : List Vm) (ss : List Entry) (w w1 : W) (name : Text)
      → observed schedule config plugin vms w ≡ (some ss, w1)
      → any (fails name) ss ≡ true
      → (records : List VirtCheck) × (run_virt_check_batch outside schedule config plugin vms w
          ≡ (some records, w1))
        × (any (reports name) records ≡ true)
  unfolding run_virt_check_batch lookup
  failures_reported schedule config plugin vms ss w w1 name o h =
      let empty : Tracking = record { tracker = []; telemetry = [] } in
      let p =
        batch_loop-observed schedule config plugin vms empty w
        ∙ ap (λ x. (tracked config.only_failures empty x.0, x.1)) o in
      let t = track_all config.only_failures ss empty in
      (
        close_all config.only_failures (now w1) t.tracker t.telemetry,
        rw (run_virt_check_batch, ap (λ x. x.0) p, ap (λ x. x.1) p) refl,
        close_all-seen config.only_failures (now w1) t name
            (track_all-seen config.only_failures ss empty name (λ n e k. ground arith) (rw h refl)),
      )

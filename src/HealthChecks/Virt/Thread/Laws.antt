-- ===== src/HealthChecks/Virt/Thread/Laws.antt =====
-- krkn/health_checks/virt_health_check_plugin.py: no failure that a thread sees is lost.
use krkn.Base.{
  ℕ, ◌≡◌, refl, sym, ap, ◌∙◌, Bool, true, false, not, ◌&&◌, ◌||◌, none, some, List, [], ◌∷◌, ◌++◌,
  any, if◌then◌else◌, is_empty, Bool-cases, Option-cases, inl, inr, arith,
}
use mathlib.Core.Path.{subst}
use mathlib.Core.Option.{some-injective}
use krkn.Base.Text.{Text, text_eq, text_eq_iff, text_eq_refl}
use krkn.Base.Dict.{Dict, lookup, insert, lookup-insert}
use krkn.HealthChecks.Http.{delete}
use krkn.HealthChecks.Http.Periods.{lookup-delete}
use krkn.HealthChecks.Virt.{
  Entry, status, VirtCheck, Tracking, close_entry, with_new_ip, track_vm, close_all,
}

-- A failure of a machine, in a sample and in a record.
abbrev pub fails : Text → Entry → Bool
fails name s = text_eq s.vm.vm_name name && not (status s)

abbrev pub reports : Text → VirtCheck → Bool
reports name r = fails name r.entry

any-append :
    {A : Type 0} (p : A → Bool) (xs ys : List A) → any p (xs ++ ys) ≡ (any p xs || any p ys)
any-append p [] ys = refl
any-append p (x ∷ xs) ys = ground (arith, any-append p xs ys)

-- Closing an entry keeps the reports, and reports a failure, whatever is to be left out.
close_entry-reports :
    (only : Bool) (end : ℕ) (e : Entry) (telemetry : List VirtCheck) (name : Text)
    → any (reports name) (close_entry only end e telemetry)
      ≡ (any (reports name) telemetry || fails name e)
unfolding close_entry
close_entry-reports only end e telemetry name = elim (Bool-cases (not only || not (status e))) [
  | inl h ↦ rw (close_entry, h) (any-append (reports name) telemetry _ ∙ ground arith)
  | inr h ↦ rw (close_entry, h) (ground arith)
]

vm_name-with_new_ip :
    (new_ip name : Text) (e : Entry) → fails name (with_new_ip new_ip e) ≡ fails name e
unfolding with_new_ip
vm_name-with_new_ip new_ip name e = elim (Bool-cases (is_empty new_ip)) [
  | inl h ↦ rw h refl
  | inr h ↦ rw h refl
]

-- A failure is seen where it is recorded, or where the entry that is tracked for the machine is one.
abbrev pub seen : Text → Tracking → Bool
seen name t =
    any (reports name) t.telemetry
    || (elim (lookup name t.tracker) [ none ↦ false | some e ↦ fails name e ])

-- An entry is tracked under the name of its machine.
abbrev pub Keyed : Dict Entry → Type 0
Keyed d = (name : Text) (e : Entry) → lookup name d ≡ some e → e.vm.vm_name ≡ name

-- The test of the code that neither check has changed.
abbrev unchanged : Entry → Entry → Bool
unchanged s e =
    (if s.ssh_status then e.ssh_status else not e.ssh_status)
    && (if s.ready then e.ready else not e.ready)

seen-closed :
    (only : Bool) (s e : Entry) (t : Tracking) (name : Text)
    → any
        (reports name)
        (close_entry only s.start_timestamp (with_new_ip s.vm.new_ip_address e) t.telemetry)
      ≡ (any (reports name) t.telemetry || fails name e)
seen-closed only s e t name =
    close_entry-reports only s.start_timestamp (with_new_ip s.vm.new_ip_address e) t.telemetry name
    ∙ ap (λ b. any (reports name) t.telemetry || b) (vm_name-with_new_ip s.vm.new_ip_address name e)

track_vm-seen_own :
    (only : Bool) (s : Entry) (t : Tracking)
    → Keyed t.tracker
    → (seen s.vm.vm_name t || fails s.vm.vm_name s) ≡ true
    → seen s.vm.vm_name (track_vm only s t) ≡ true
unfolding track_vm
track_vm-seen_own only s t k h =
    let name = s.vm.vm_name in
    elim (Option-cases (lookup name t.tracker)) [
      | inl f ↦
          let h' = rw f at h in
          rw (track_vm, f)
            (rw (lookup-insert name name s t.tracker, text_eq_refl name) (ground arith))
      | inr (e, f) ↦
          let h' = rw f at h in
          let own = (text_eq_iff e.vm.vm_name name).1 (k name e f) in
          elim (Bool-cases (unchanged s e)) [
            | inl g ↦ rw (track_vm, f, g) (rw f (ground arith))
            | inr g ↦
                rw (track_vm, f, g)
                  (rw
                    (
                      lookup-insert name name s (delete name t.tracker),
                      text_eq_refl name,
                      seen-closed only s e t name,
                    )
                    (ground arith))
          ]
    ]

track_vm-seen_other :
    (only : Bool) (s : Entry) (t : Tracking) (name : Text)
    → text_eq s.vm.vm_name name ≡ false
    → seen name t ≡ true
    → seen name (track_vm only s t) ≡ true
unfolding track_vm
track_vm-seen_other only s t name q h = elim (Option-cases (lookup s.vm.vm_name t.tracker)) [
  | inl f ↦ rw (track_vm, f) (rw (lookup-insert s.vm.vm_name name s t.tracker, q) h)
  | inr (e, f) ↦ elim (Bool-cases (unchanged s e)) [
    | inl g ↦ rw (track_vm, f, g) h
    | inr g ↦
        rw (track_vm, f, g)
          (rw
            (
              lookup-insert s.vm.vm_name name s (delete s.vm.vm_name t.tracker),
              lookup-delete s.vm.vm_name name t.tracker,
              q,
              seen-closed only s e t name,
            )
            (ground arith))
  ]
]

pub track_vm-seen :
    (only : Bool) (s : Entry) (t : Tracking) (name : Text)
    → Keyed t.tracker
    → (seen name t || fails name s) ≡ true
    → seen name (track_vm only s t) ≡ true
track_vm-seen only s t name k h = elim (Bool-cases (text_eq s.vm.vm_name name)) [
  | inl q ↦
      subst (λ x. (seen x t || fails x s) ≡ true → seen x (track_vm only s t) ≡ true)
        ((text_eq_iff s.vm.vm_name name).0 q) (track_vm-seen_own only s t k) h
  | inr q ↦ track_vm-seen_other only s t name q (ground arith)
]

Keyed-insert : (s : Entry) (d : Dict Entry) → Keyed d → Keyed (insert s.vm.vm_name s d)
Keyed-insert s d k name e h = elim (Bool-cases (text_eq s.vm.vm_name name)) [
  | inl q ↦
      let same = rw (lookup-insert s.vm.vm_name name s d, q) at h in
      ap (λ (x : Entry). x.vm.vm_name) (sym (some-injective s e same))
      ∙ (text_eq_iff s.vm.vm_name name).0 q
  | inr q ↦ k name e (rw (lookup-insert s.vm.vm_name name s d, q) at h)
]

Keyed-delete : (old : Text) (d : Dict Entry) → Keyed d → Keyed (delete old d)
Keyed-delete old d k name e h = elim (Bool-cases (text_eq old name)) [
  | inl q ↦ (let h' = rw (lookup-delete old name d, q) at h in absurd (ground arith))
  | inr q ↦ k name e (rw (lookup-delete old name d, q) at h)
]

pub Keyed-track_vm :
    (only : Bool) (s : Entry) (t : Tracking) → Keyed t.tracker → Keyed (track_vm only s t).tracker
unfolding track_vm
Keyed-track_vm only s t k = elim (Option-cases (lookup s.vm.vm_name t.tracker)) [
  | inl f ↦ rw (track_vm, f) (Keyed-insert s t.tracker k)
  | inr (e, f) ↦ elim (Bool-cases (unchanged s e)) [
    | inl g ↦ rw (track_vm, f, g) k
    | inr g ↦
        rw (track_vm, f, g)
          (Keyed-insert s (delete s.vm.vm_name t.tracker) (Keyed-delete s.vm.vm_name t.tracker k))
  ]
]

close_all-reports :
    (only : Bool) (end : ℕ) (d : Dict Entry) (telemetry : List VirtCheck) (name : Text)
    → any (reports name) telemetry ≡ true
    → any (reports name) (close_all only end d telemetry) ≡ true
unfolding close_all
close_all-reports only end [] telemetry name h = h
close_all-reports only end ((key, e) ∷ d) telemetry name h =
    close_all-reports only end d _ name (rw (close_entry-reports only end e telemetry name, h) refl)

close_all-tracked :
    (only : Bool) (end : ℕ) (d : Dict Entry) (telemetry : List VirtCheck) (name : Text) (e : Entry)
    → lookup name d ≡ some e
    → fails name e ≡ true
    → any (reports name) (close_all only end d telemetry) ≡ true
unfolding close_all lookup
close_all-tracked only end [] telemetry name e h f = ground arith
close_all-tracked only end ((key, x) ∷ d) telemetry name e h f =
    elim (Bool-cases (text_eq key name)) [
      | inl q ↦
          let same = some-injective x e (rw (lookup, q) at h) in
          close_all-reports only end d _ name (
            rw (close_entry-reports only end x telemetry name, ap (fails name) same, f)
              (ground arith))
      | inr q ↦ close_all-tracked only end d _ name e (rw (lookup, q) at h) f
    ]

-- What is seen when the loop ends is reported.
pub close_all-seen :
    (only : Bool) (end : ℕ) (t : Tracking) (name : Text)
    → seen name t ≡ true
    → any (reports name) (close_all only end t.tracker t.telemetry) ≡ true
close_all-seen only end t name h = elim (Bool-cases (any (reports name) t.telemetry)) [
  | inl r ↦ close_all-reports only end t.tracker t.telemetry name r
  | inr r ↦ elim (Option-cases (lookup name t.tracker)) [
    | inl f ↦ (let h' = rw (r, f) at h in absurd (ground arith))
    | inr (e, f) ↦ close_all-tracked only end t.tracker t.telemetry name e f (rw (r, f) at h)
  ]
]

-- ===== src/Main/Exit/Laws.antt =====
-- run_kraken.py: what the exit code says.
use krkn.Base.{
  ◌≡◌, ◌↔◌, ◌⊎◌, refl, true, false, none, some, List, [], ◌∷◌, all, is_empty, Bool-cases,
  Option-cases, inl, inr, arith,
}
use krkn.Base.Int.{ℤ, pos, is_zero}
use krkn.Main.Exit.{
  Ending, first_failure, profile_alerts, job_status, exit_code, history_failed, after_loop,
}

first_failure-IsFailure :
    (values : List ℤ) (v : ℤ) → first_failure values ≡ some v → is_zero v ≡ false
unfolding first_failure
first_failure-IsFailure [] v e = absurd (ground arith)
first_failure-IsFailure (x ∷ values) v e = elim (Bool-cases (is_zero x)) [
  | inl z ↦ first_failure-IsFailure values v (rw (first_failure, z) at e)
  | inr z ↦ (let e' = rw (first_failure, z) at e in ground arith)
]

all_zero : (values : List ℤ) → first_failure values ≡ none → all is_zero values ≡ true
unfolding first_failure
all_zero [] e = refl
all_zero (x ∷ values) e = elim (Bool-cases (is_zero x)) [
  | inl z ↦ rw z (all_zero values (rw (first_failure, z) at e))
  | inr z ↦ (let e' = rw (first_failure, z) at e in absurd (ground arith))
]

-- A value other than 0 is not zero.
first_failure-all :
    (values : List ℤ) (v : ℤ) → first_failure values ≡ some v → all is_zero values ≡ false
unfolding first_failure
first_failure-all [] v e = absurd (ground arith)
first_failure-all (x ∷ values) v e = elim (Bool-cases (is_zero x)) [
  | inl z ↦ rw z (first_failure-all values v (rw (first_failure, z) at e))
  | inr z ↦ rw z refl
]

-- The conditions on which a run exits with 0.
abbrev pub Succeeds : Ending → Type 0
Succeeds e =
    (is_empty e.failed_post_scenarios ≡ true)
    × (all is_zero e.return_values ≡ true)
    × (e.post_critical_alerts ≡ 0)
    × ((e.enable_alerts ≡ false) ⊎ (e.profile_critical_alerts ≡ some 0))
    × ((e.history ≡ none) ⊎ (e.history ≡ some true))

pub after_loop-zero : (e : Ending) → (after_loop e ≡ pos 0) ↔ Succeeds e
unfolding after_loop exit_code job_status profile_alerts history_failed
after_loop-zero e = elim (Option-cases (first_failure e.return_values)) [
  | inl f ↦ (let zero = all_zero e.return_values f in ground arith)
  | inr (v, f) ↦
      let failed = first_failure-IsFailure e.return_values v f in
      let some_failed = first_failure-all e.return_values v f in ground arith
]

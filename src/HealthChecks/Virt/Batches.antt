-- ===== src/HealthChecks/Virt/Batches.antt =====
-- krkn/health_checks/virt_health_check_plugin.py: the batches of the threads.
use krkn.Base.{
  ℕ, zero, suc, ◌+◌, ◌-◌, ◌*◌, ◌≤◌, ◌<◌, ◌≡◌, refl, sym, ap, ◌∙◌, false, List, [], ◌∷◌, ◌++◌, take,
  length, All, ltb, ltb→lt, Bool-cases, inl, inr, arith,
}
use native.Mathlib.Nat.{div-add-mod, mod-lt}
use krkn.HealthChecks.Virt.{Vm, batch_size, drop, slices, batch_list}

abbrev pub flatten : List (List Vm) → List Vm
flatten [] = []
flatten (vms ∷ batches) = vms ++ flatten batches

take-drop : (n : ℕ) (vms : List Vm) → take n vms ++ drop n vms ≡ vms
take-drop zero vms = refl
take-drop (suc n) [] = refl
take-drop (suc n) (vm ∷ vms) = ap (λ xs. vm ∷ xs) (take-drop n vms)

length-drop : (n : ℕ) (vms : List Vm) → length (drop n vms) ≡ length vms - n
length-drop zero vms = omega arith
length-drop (suc n) [] = omega arith
length-drop (suc n) (vm ∷ vms) = omega (arith, length-drop n vms)

length-take : (n : ℕ) (vms : List Vm) → length (take n vms) ≤ n
length-take zero vms = omega arith
length-take (suc n) [] = omega arith
length-take (suc n) (vm ∷ vms) = omega (arith, length-take n vms)

flatten-slices :
    (fuel size : ℕ) (vms : List Vm)
    → 0 < size
    → length vms ≤ fuel
    → flatten (slices fuel size vms) ≡ vms
unfolding slices
flatten-slices zero size [] p h = refl
flatten-slices zero size (vm ∷ vms) p h = absurd (omega arith)
flatten-slices (suc fuel) size [] p h = refl
flatten-slices (suc fuel) size (vm ∷ vms) p h =
    ap (λ xs. take size (vm ∷ vms) ++ xs)
      (flatten-slices fuel size (drop size (vm ∷ vms)) p
        (omega (arith, length-drop size (vm ∷ vms))))
    ∙ take-drop size (vm ∷ vms)

-- A slice takes off `size` machines, so `limit` slices are enough for `limit * size`.
length-slices :
    (fuel size limit : ℕ) (vms : List Vm)
    → length vms ≤ limit * size
    → length (slices fuel size vms) ≤ limit
unfolding slices
length-slices zero size limit vms h = omega arith
length-slices (suc fuel) size limit [] h = omega arith
length-slices (suc fuel) size zero (vm ∷ vms) h = absurd (omega arith)
length-slices (suc fuel) size (suc limit) (vm ∷ vms) h =
    let rest =
      length-slices fuel size limit (drop size (vm ∷ vms))
        (omega (arith, length-drop size (vm ∷ vms))) in
    omega arith

All-slices :
    (fuel size : ℕ) (vms : List Vm)
    → All (λ (batch : List Vm). length batch ≤ size) (slices fuel size vms)
unfolding slices
All-slices zero size vms = tt
All-slices (suc fuel) size [] = tt
All-slices (suc fuel) size (vm ∷ vms) =
    (length-take size (vm ∷ vms), All-slices fuel size (drop size (vm ∷ vms)))

batch_size_enough : (n limit : ℕ) → 0 < limit → n ≤ limit * batch_size n limit
unfolding batch_size
batch_size_enough n limit h =
    omega (arith, div-add-mod (n + limit - 1) limit, mod-lt (n + limit - 1) h)

no_machines : (vms : List Vm) → length vms ≡ 0 → vms ≡ []
no_machines [] h = refl
no_machines (vm ∷ vms) h = absurd (omega arith)

none_left : (n limit size : ℕ) → ltb 0 size ≡ false → n ≤ limit * size → n ≡ 0
none_left n limit zero e h = omega arith
none_left n limit (suc size) e h = absurd (ground arith)

-- With a positive limit of threads, the batches together are the machines in their order, each once,
-- and there are no more batches than threads.
pub batch_list_lem :
    (limit : ℕ) (vms : List Vm)
    → 0 < limit
    → (flatten (batch_list limit vms) ≡ vms)
      × (length (batch_list limit vms) ≤ limit)
      × All
          (λ (batch : List Vm). length batch ≤ batch_size (length vms) limit)
          (batch_list limit vms)
unfolding batch_list
batch_list_lem limit vms h = elim (Bool-cases (ltb 0 (batch_size (length vms) limit))) [
  | inl e ↦
      rw (batch_list, e)
        (
          flatten-slices (length vms) (batch_size (length vms) limit) vms (ltb→lt _ _ e)
              (omega arith),
          length-slices (length vms) (batch_size (length vms) limit) limit vms
              (batch_size_enough (length vms) limit h),
          All-slices (length vms) (batch_size (length vms) limit) vms,
        )
  | inr e ↦
      rw (batch_list, e)
        (
          sym (
              no_machines vms
                (none_left (length vms) limit _ e (batch_size_enough (length vms) limit h))),
          omega arith,
          tt,
        )
]

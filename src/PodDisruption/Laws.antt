-- ===== src/PodDisruption/Laws.antt =====
-- krkn/scenario_plugins/pod_disruption: which pods are deleted, and how many.
use krkn.Base.{
  ℕ, zero, suc, ◌≤◌, ◌≡◌, refl, sym, ap, ◌∙◌, Bool, false, not, some, List, [], ◌∷◌, ◌++◌, keep,
  take, length, All, if◌then◌else◌, ltb, Bool-cases, inl, inr, arith,
}
use mathlib.Core.List.{append_assoc, append-nil}
use krkn.PodDisruption.{
  Pod, InputParams, Outside, KillState, candidates, excluded_pods, is_excluded, pods_to_kill,
  delete_one, delete_serial, delete_all, delete_pods, kill_and_wait, killing_pods,
}

-- A function that gives the elements that it gets, in some order.
abbrev pub IsShuffle : (List Pod → List Pod) → Type 1
IsShuffle f =
    (xs : List Pod) → (length (f xs) ≡ length xs) × ((P : Pod → Type 0) → All P xs → All P (f xs))

length-keep-take : (p : Pod → Bool) (n : ℕ) (xs : List Pod) → length (keep p (take n xs)) ≤ n
length-keep-take p zero xs = omega arith
length-keep-take p (suc n) [] = omega arith
length-keep-take p (suc n) (x ∷ xs) = ground (arith, length-keep-take p n xs)

length-pods_to_kill : (n : ℕ) (exclude xs : List Pod) → length (pods_to_kill n exclude xs) ≤ n
unfolding pods_to_kill
length-pods_to_kill n exclude xs = length-keep-take (λ p. not (is_excluded exclude p)) n xs

abbrev pub NotExcluded : List Pod → (Pod → Type 0) → Pod → Type 0
NotExcluded exclude P pod = (is_excluded exclude pod ≡ false) × P pod

NotExcluded-pods_to_kill :
    (exclude : List Pod) (P : Pod → Type 0) (n : ℕ) (xs : List Pod)
    → All P xs
    → All (NotExcluded exclude P) (pods_to_kill n exclude xs)
unfolding pods_to_kill
NotExcluded-pods_to_kill exclude P zero xs a = tt
NotExcluded-pods_to_kill exclude P (suc n) [] a = tt
NotExcluded-pods_to_kill exclude P (suc n) (x ∷ xs) a = elim (Bool-cases (is_excluded exclude x)) [
  | inl e ↦ rw e (NotExcluded-pods_to_kill exclude P n xs a.1)
  | inr e ↦ rw e ((e, a.0), NotExcluded-pods_to_kill exclude P n xs a.1)
]

module _ (outside : Outside) where
  open outside use {W, shuffle, interleaving}

  -- The deletions since a state: at most `n`, each of a pod with `P`.
  abbrev pub Deletes : (Pod → Type 0) → ℕ → KillState W → KillState W → Type 0
  Deletes P n st st1 =
      (ds : List Pod) × (st1.deletions ≡ st.deletions ++ ds) × (length ds ≤ n) × All P ds

  Deletes-cons :
      (P : Pod → Type 0) (n : ℕ) (pod : Pod) (st st1 st2 : KillState W)
      → st1.deletions ≡ st.deletions ++ pod ∷ []
      → P pod
      → Deletes P n st1 st2
      → Deletes P (suc n) st st2
  Deletes-cons P n pod st st1 st2 e p (ds, f, l, a) = (
    pod ∷ ds,
    f ∙ ap (λ xs. xs ++ ds) e ∙ append_assoc st.deletions (pod ∷ []) ds,
    omega arith,
    (p, a),
  )

  delete_serial-Deletes :
      (P : Pod → Type 0) (force : Bool) (pods : List Pod) (st : KillState W)
      → All P pods
      → Deletes P (length pods) st (delete_serial outside force pods st).1
  unfolding delete_serial delete_one
  delete_serial-Deletes P force [] st a = ([], sym (append-nil _), omega arith, tt)
  delete_serial-Deletes P force (pod ∷ pods) st a =
      let st1 = (delete_one outside force pod st).1 in
      elim (Bool-cases (delete_one outside force pod st).0) [
        | inl e ↦
            rw (delete_serial, e)
              (Deletes-cons P (length pods) pod st st1 (delete_serial outside force pods st1).1 refl
                a.0 (delete_serial-Deletes P force pods st1 a.1))
        | inr e ↦ rw (delete_serial, e) (pod ∷ [], refl, omega arith, (a.0, tt))
      ]

  delete_all-Deletes :
      (P : Pod → Type 0) (force : Bool) (pods : List Pod) (st : KillState W)
      → All P pods
      → Deletes P (length pods) st (delete_all outside force pods st).1
  unfolding delete_all delete_one
  delete_all-Deletes P force [] st a = ([], sym (append-nil _), omega arith, tt)
  delete_all-Deletes P force (pod ∷ pods) st a =
      let st1 = (delete_one outside force pod st).1 in
      Deletes-cons P (length pods) pod st st1 (delete_all outside force pods st1).1 refl a.0
        (delete_all-Deletes P force pods st1 a.1)

  Deletes-mono :
      (P : Pod → Type 0) (n k : ℕ) (st st1 : KillState W)
      → n ≤ k
      → Deletes P n st st1
      → Deletes P k st st1
  Deletes-mono P n k st st1 h (ds, f, l, a) = (ds, f, omega arith, a)

  delete_pods-Deletes :
      (P : Pod → Type 0) (config : InputParams) (pods : List Pod) (st : KillState W)
      → IsShuffle (λ xs. interleaving xs st.world)
      → All P pods
      → Deletes P (length pods) st (delete_pods outside config pods st).1
  unfolding delete_pods
  delete_pods-Deletes P config pods st i a = elim (Bool-cases config.parallel) [
    | inl e ↦
        rw (delete_pods, e)
          (Deletes-mono P (length (interleaving pods st.world)) (length pods) st
            (delete_all outside config.force (interleaving pods st.world) st).1
            (omega (arith, (i pods).0))
            (delete_all-Deletes P config.force (interleaving pods st.world) st ((i pods).1 P a)))
    | inr e ↦ rw (delete_pods, e) (delete_serial-Deletes P config.force pods st a)
  ]

  kill_and_wait-Deletes :
      (P : Pod → Type 0) (fuel : ℕ) (config : InputParams) (pods exclude : List Pod)
      (st : KillState W)
      → IsShuffle (λ xs. shuffle xs st.world)
      → IsShuffle (λ xs. interleaving xs st.world)
      → All P pods
      → Deletes
          (NotExcluded exclude P)
          config.kill
          st
          (kill_and_wait outside fuel config pods exclude st).1
  unfolding kill_and_wait
  kill_and_wait-Deletes P fuel config pods exclude st s i a =
      let chosen = pods_to_kill config.kill exclude (shuffle pods st.world) in
      let own = NotExcluded-pods_to_kill exclude P config.kill _ ((s pods).1 P a) in
      let (ds, f, l, b) = delete_pods-Deletes (NotExcluded exclude P) config chosen st i own in
      let few = length-pods_to_kill config.kill exclude (shuffle pods st.world) in
      elim (Bool-cases (delete_pods outside config chosen st).0) [
        | inl e ↦ rw (kill_and_wait, e) (ds, f, omega arith, b)
        | inr e ↦ rw (kill_and_wait, e) (ds, f, omega arith, b)
      ]

  -- Where the shuffle and the threads of the pool only reorder, `killing_pods` deletes at most `kill` pods,
  -- all of them found by the selection and none with the name of an excluded one, and none at all
  -- if fewer than `kill` were found.
  pub killing_pods_safe :
      (fuel : ℕ) (config : InputParams) (pods exclude : List Pod) (P : Pod → Type 0)
      (st : KillState W)
      → IsShuffle (λ xs. shuffle xs st.world)
      → IsShuffle (λ xs. interleaving xs st.world)
      → candidates outside config st.world ≡ some pods
      → excluded_pods outside config st.world ≡ some exclude
      → All P pods
      → Deletes
          (NotExcluded exclude P)
          (if ltb (length pods) config.kill then 0 else config.kill)
          st
          (killing_pods outside fuel config st).1
  unfolding killing_pods
  killing_pods_safe fuel config pods exclude P st s i c x a =
      elim (Bool-cases (ltb (length pods) config.kill)) [
        | inl e ↦ rw (killing_pods, c, x, e) ([], sym (append-nil _), omega arith, tt)
        | inr e ↦
            rw (killing_pods, c, x, e) (kill_and_wait-Deletes P fuel config pods exclude st s i a)
      ]

-- ===== src/Rollback/Files/Sorting.antt =====
-- The sort keeps every path, and puts the latest first.
use krkn.Base.{
  ℕ, ◌≤◌, ◌≡◌, refl, ◌||◌, List, [], ◌∷◌, arith, leb, Bool-cases, inl, inr, All, All-mono,
}
use mathlib.Core.List.Perm
use mathlib.Core.List.{Perm}
use krkn.Rollback.Files.{FilePath, path_eq, elem, stamp, insert_sorted, sort_latest_first}

-- Every path has a timestamp no less than those behind it.
abbrev pub LatestFirst : List FilePath → Type 0
LatestFirst [] = Unit
LatestFirst (p ∷ ps) = All (λ q. stamp q ≤ stamp p) ps × LatestFirst ps

insert_sorted-perm : (p : FilePath) (ps : List FilePath) → Perm (insert_sorted p ps) (p ∷ ps)
unfolding insert_sorted
insert_sorted-perm p [] = Perm.refl (p ∷ [])
insert_sorted-perm p (q ∷ qs) = elim (Bool-cases (leb (stamp q) (stamp p))) [
  | inl e ↦ rw e (Perm.refl (p ∷ q ∷ qs))
  | inr e ↦ rw e (Perm.trans (Perm.cons q (insert_sorted-perm p qs)) (Perm.swap p q qs))
]

pub sort_latest_first-perm : (ps : List FilePath) → Perm (sort_latest_first ps) ps
unfolding sort_latest_first
sort_latest_first-perm [] = Perm.refl []
sort_latest_first-perm (p ∷ ps) =
    Perm.trans (insert_sorted-perm p (sort_latest_first ps))
      (Perm.cons p (sort_latest_first-perm ps))

insert_sorted-All :
    (n : ℕ) (p : FilePath) (ps : List FilePath)
    → stamp p ≤ n
    → All (λ q. stamp q ≤ n) ps
    → All (λ q. stamp q ≤ n) (insert_sorted p ps)
unfolding insert_sorted
insert_sorted-All n p [] h k = (h, tt)
insert_sorted-All n p (q ∷ qs) h k = elim (Bool-cases (leb (stamp q) (stamp p))) [
  | inl e ↦ rw e (h, k)
  | inr e ↦ rw e (k.0, insert_sorted-All n p qs h k.1)
]

insert_sorted-LatestFirst :
    (p : FilePath) (ps : List FilePath) → LatestFirst ps → LatestFirst (insert_sorted p ps)
unfolding insert_sorted
insert_sorted-LatestFirst p [] h = (tt, tt)
insert_sorted-LatestFirst p (q ∷ qs) h = elim (Bool-cases (leb (stamp q) (stamp p))) [
  | inl e ↦
      let le : stamp q ≤ stamp p = ground arith in
      rw e (
        (
          le,
          All-mono (λ r. stamp r ≤ stamp q) (λ r. stamp r ≤ stamp p) (λ r k. omega arith) qs h.0,
        ),
        h,
      )
  | inr e ↦
      rw e (insert_sorted-All (stamp q) p qs (ground arith) h.0, insert_sorted-LatestFirst p qs h.1)
]

pub sort_latest_first-LatestFirst : (ps : List FilePath) → LatestFirst (sort_latest_first ps)
unfolding sort_latest_first
sort_latest_first-LatestFirst [] = tt
sort_latest_first-LatestFirst (p ∷ ps) =
    insert_sorted-LatestFirst p (sort_latest_first ps) (sort_latest_first-LatestFirst ps)

insert_sorted-elem :
    (r p : FilePath) (ps : List FilePath) → elem r (insert_sorted p ps) ≡ (path_eq r p || elem r ps)
unfolding insert_sorted elem
insert_sorted-elem r p [] = refl
insert_sorted-elem r p (q ∷ qs) = ground (arith, insert_sorted-elem r p qs)

pub sort_latest_first-elem :
    (r : FilePath) (ps : List FilePath) → elem r (sort_latest_first ps) ≡ elem r ps
unfolding sort_latest_first elem
sort_latest_first-elem r [] = refl
sort_latest_first-elem r (p ∷ ps) =
    ground (arith, insert_sorted-elem r p (sort_latest_first ps), sort_latest_first-elem r ps)

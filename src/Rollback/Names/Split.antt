-- ===== src/Rollback/Names/Split.antt =====
-- Splitting at a separator and joining again.
use krkn.Base.{
  ℕ, ◌≡◌, refl, true, not, List, [], ◌∷◌, ◌++◌, arith, all, ◌==◌, Bool-cases, inl, inr, ap, ◌∙◌,
  sym, ==_iff,
}
use mathlib.Core.Path.{ap₂}
use krkn.Base.Text.{Text, split, join}

-- No character of the text is the separator.
abbrev pub Lacks : ℕ → Text → Type 0
Lacks sep s = all (λ c. not (c == sep)) s ≡ true

pub split-Lacks : (sep : ℕ) (s : Text) → Lacks sep s → split sep s ≡ s ∷ []
unfolding split
split-Lacks sep [] h = refl
split-Lacks sep (c ∷ s) h = ground (arith, split-Lacks sep s)

-- There is always a first part.
pub split-cons :
    (sep : ℕ) (s : Text) → (part : Text) × (parts : List Text) × (split sep s ≡ part ∷ parts)
unfolding split
split-cons sep [] = ([], [], refl)
split-cons sep (c ∷ s) =
    let (part, parts, e) = split-cons sep s in
    elim (Bool-cases (c == sep)) [
      | inl here ↦ ([], part ∷ parts, rw (e, split) (rw here))
      | inr there ↦ (c ∷ part, parts, rw (e, split) (rw there))
    ]

-- Splitting goes part by part.
pub split-append : (sep : ℕ) (s t : Text) → split sep (s ++ sep ∷ t) ≡ split sep s ++ split sep t
unfolding split
split-append sep [] t = let (part, parts, e) = split-cons sep t in rw (e, split) (ground arith)
split-append sep (c ∷ s) t =
    let (part, parts, e) = split-cons sep s in
    let ih = split-append sep s t in
    let both : split sep (s ++ sep ∷ t) ≡ part ∷ (parts ++ split sep t) =
      ih ∙ ap (λ (l : List Text). l ++ split sep t) e in
    ground arith

join_cons :
    (sep c : ℕ) (part : Text) (parts : List Text)
    → join sep ((c ∷ part) ∷ parts) ≡ c ∷ join sep (part ∷ parts)
unfolding join
join_cons sep c part [] = refl
join_cons sep c part (more ∷ parts) = refl

pub join-split : (sep : ℕ) (s : Text) → join sep (split sep s) ≡ s
unfolding split join
join-split sep [] = refl
join-split sep (c ∷ s) =
    let (part, parts, e) = split-cons sep s in
    let ih : join sep (part ∷ parts) ≡ s = ap (join sep) (sym e) ∙ join-split sep s in
    elim (Bool-cases (c == sep)) [
      | inl here ↦ rw (e, split) (rw here (ap₂ ◌∷◌ (sym ((==_iff c sep).0 here)) ih))
      | inr there ↦
          rw (e, split) (rw there (join_cons sep c part parts ∙ ap (λ (l : Text). c ∷ l) ih))
    ]

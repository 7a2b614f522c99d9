-- ===== src/Triggers/Kinds/Laws.antt =====
-- krkn/scenario_plugins/triggers: the notices that a trigger logs over its evaluations, whatever its
-- kind.
use krkn.Base.{
  ◌≡◌, refl, sym, ap, ◌∙◌, Bool, true, false, Option, none, some, List, [], ◌∷◌, ◌++◌, Bool-cases,
  if◌then◌else◌, arith, inl, inr,
}
use krkn.Triggers.Values.{Numbers}
use krkn.Triggers.Kinds.{Trigger, Outside, changed, evaluate, met}

-- The result that is left after some notices, each of which reports a change: `none` where one of them
-- repeats the result before it.
abbrev pub settle : Option Bool → List Bool → Option (Option Bool)
settle last [] = some last
settle last (b ∷ bs) = if changed b last then settle (some b) bs else none

some-inj : {A : Type 0} (d a b : A) → ◌≡◌ {A = Option A} (some a) (some b) → a ≡ b
some-inj {A} d a b h = ap (λ (o : Option A). elim o [ none ↦ d | some x ↦ x ]) h

settle-append :
    (last result : Option Bool) (bs : List Bool) (b : Bool)
    → settle last bs ≡ some result
    → changed b result ≡ true
    → settle last (bs ++ b ∷ []) ≡ some (some b)
settle-append last result [] b h k = rw (some-inj none last result h, k) refl
settle-append last result (a ∷ bs) b h k = ground (arith, settle-append (some a) result bs b)

-- A result that is no change is the last one.
unchanged : (b : Bool) (last : Option Bool) → changed b last ≡ false → some b ≡ last
unfolding changed
unchanged b none h = cc
unchanged true (some true) h = refl
unchanged true (some false) h = cc
unchanged false (some true) h = cc
unchanged false (some false) h = refl

module _ (numbers : Numbers) (outside : Outside numbers) where
  open outside use {W}

  -- The notices report changes only, and the last of them is the last result.
  abbrev pub IsSettled : Trigger numbers → Type 0
  IsSettled t = settle none (t.notices) ≡ some (t.last_result)

  -- An evaluation, of a trigger of any kind and whatever the outside answers, keeps the notices to the
  -- changes of the result: each differs from the one before it, and the last of them is the result
  -- that the evaluation returns.
  pub evaluate-IsSettled :
      (t : Trigger numbers) (w : W)
      → IsSettled t
      → IsSettled ((evaluate numbers outside t w).1.0)
        × (settle none ((evaluate numbers outside t w).1.0.notices)
            ≡ some (some ((evaluate numbers outside t w).0)))
  unfolding evaluate
  evaluate-IsSettled t w h =
      elim (Bool-cases (changed ((met numbers outside (t.kind) w).0) (t.last_result))) [
        | inl e ↦
            rw (evaluate, e)
              (settle-append none _ (t.notices) _ h e, settle-append none _ (t.notices) _ h e)
        | inr e ↦
            rw (evaluate, e)
              (h ∙ ap some (sym (unchanged _ _ e)), h ∙ ap some (sym (unchanged _ _ e)))
      ]

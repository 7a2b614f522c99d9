-- ===== src/Base/Dict.antt =====
-- A Python dict with text keys, in insertion order.
use mathlib.Core.Path.{◌≡◌, refl}
use mathlib.Core.Logic.{inl, inr}
use mathlib.Core.Bool.{Bool, true}
use mathlib.Core.List.{List, [], ◌∷◌}
use mathlib.Core.Option.{Option, none, some}
use native.Mathlib.Omega.{arith}
use krkn.Base.Tests.{if◌then◌else◌, is_some, Bool-cases}
use krkn.Base.Lists.{All}
use krkn.Base.Text.{Text, text_eq, text_eq_iff, text_eq_refl}

abbrev pub Dict {ℓ} : Type ℓ → Type ℓ
Dict V = List (Text × V)

module _ {ℓ} {V : Type ℓ} where
  unfoldable pub lookup : Text → Dict V → Option V
  lookup k [] = none
  lookup k ((j, v) ∷ d) = if text_eq j k then some v else lookup k d

  -- `d[k] = v` keeps the place of a key that is there, and appends another.
  unfoldable pub insert : Text → V → Dict V → Dict V
  insert k v [] = (k, v) ∷ []
  insert k v ((j, w) ∷ d) = if text_eq j k then (j, v) ∷ d else (j, w) ∷ insert k v d

  pub lookup-insert :
      (k j : Text) (v : V) (d : Dict V)
      → lookup j (insert k v d) ≡ (if text_eq k j then some v else lookup j d)
  unfolding lookup insert
  lookup-insert k j v [] = refl
  lookup-insert k j v ((i, w) ∷ d) =
      ground (arith, text_eq_iff k j, text_eq_iff i k, text_eq_iff i j, lookup-insert k j v d)

-- `d.get(k, default)` and `k in d`
abbrev pub get {ℓ} : {V : Type ℓ} → Dict V → Text → V → V
get d k default = elim (lookup k d) [ none ↦ default | some v ↦ v ]

abbrev pub has {ℓ} : {V : Type ℓ} → Dict V → Text → Bool
has d k = is_some (lookup k d)

abbrev pub keys {ℓ} : {V : Type ℓ} → Dict V → List Text
keys [] = []
keys ((k, _) ∷ d) = k ∷ keys d

module _ {ℓ} {V : Type ℓ} where
  has-cons : (e : Text × V) (d : Dict V) (k : Text) → has d k ≡ true → has (e ∷ d) k ≡ true
  unfolding lookup
  has-cons e d k h = ground arith

  has_first : (e : Text × V) (d : Dict V) → has (e ∷ d) e.0 ≡ true
  unfolding lookup
  has_first e d = ground (arith, text_eq_refl e.0)

  has-All-cons :
      (e : Text × V) (d d' : Dict V)
      → All (λ (x : Text × V). has d x.0 ≡ true) d'
      → All (λ (x : Text × V). has (e ∷ d) x.0 ≡ true) d'
  has-All-cons e d [] h = tt
  has-All-cons e d (x ∷ d') h = (has-cons e d x.0 h.0, has-All-cons e d d' h.1)

  -- A dict has its own keys.
  pub has-keys : (d : Dict V) → All (λ (x : Text × V). has d x.0 ≡ true) d
  has-keys [] = tt
  has-keys (e ∷ d) = (has_first e d, has-All-cons e d d (has-keys d))

module _ {ℓ} {V : Type ℓ} where
  -- What holds of every value still holds after an insertion of a value of which it holds.
  pub All-insert :
      (P : V → Type 0) (k : Text) (v : V) (d : Dict V)
      → P v
      → All (λ (e : Text × V). P e.1) d
      → All (λ (e : Text × V). P e.1) (insert k v d)
  unfolding insert
  All-insert P k v [] p h = (p, tt)
  All-insert P k v ((j, w) ∷ d) p h = elim (Bool-cases (text_eq j k)) [
    | inl e ↦ rw e (p, h.1)
    | inr e ↦ rw e (h.0, All-insert P k v d p h.1)
  ]

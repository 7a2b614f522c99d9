-- ===== src/NetworkChaos/Factory/Laws/Formats.antt =====
-- krkn/scenario_plugins/network_chaos_ng/models.py: what the tests of single fields let through.
use krkn.Base.{
  ◌≡◌, refl, ap, ◌⊎◌, inl, inr, Bool, true, false, ◌||◌, List, [], ◌∷◌, ◌++◌, map, all,
  if◌then◌else◌, is_empty, Bool-cases, arith,
}
use krkn.Base.Text.{Text, text, contains, is_digit, isdigit}
use krkn.Base.Result.{Result, ok, err}
use krkn.NetworkChaos.{
  Value, nothing, truth, int, word, words, numbers, truthy, Problem, check, protocols_problems,
  after_digits, starts_with_digit, matches, format_problems,
}

pub append-empty : {A : Type 0} (xs ys : List A) → xs ++ ys ≡ [] → (xs ≡ []) × (ys ≡ [])
append-empty [] ys h = (refl, h)
append-empty (x ∷ xs) ys h = absurd (ground arith)

pub check-good : (good : Bool) (problem : Problem) → check good problem ≡ [] → good ≡ true
unfolding check
check-good true problem h = refl
check-good false problem h = absurd (ground arith)

-- Digits, at least one, and a unit, which a line feed may follow.
abbrev pub IsQuantity : List Text → Text → Type 0
IsQuantity units s =
    (digits : Text) × (unit : Text) × (s ≡ digits ++ unit)
    × (isdigit digits ≡ true)
    × ((contains unit units || contains unit (map (λ (u : Text). u ++ 10 ∷ []) units)) ≡ true)

-- A field that is not set, or is a quantity.
abbrev pub Formatted : List Text → Value → Type 0
Formatted units v = (truthy v ≡ false) ⊎ ((s : Text) × (v ≡ word s) × IsQuantity units s)

abbrev pub Allowed : Value → Type 0
Allowed v =
    (truthy v ≡ false)
    ⊎ ((ps : List Text) × (v ≡ words ps)
        × (all (λ p. contains p (text "tcp" ∷ text "udp" ∷ [])) ps ≡ true))

abbrev before_digits : Text → Text
before_digits [] = []
before_digits (c ∷ s) = if is_digit c then c ∷ before_digits s else []

before-after : (s : Text) → s ≡ before_digits s ++ after_digits s
unfolding after_digits
before-after [] = refl
before-after (c ∷ s) = elim (Bool-cases (is_digit c)) [
  | inl e ↦ rw e (ap (λ t. c ∷ t) (before-after s))
  | inr e ↦ rw e refl
]

all-before_digits : (s : Text) → all is_digit (before_digits s) ≡ true
all-before_digits [] = refl
all-before_digits (c ∷ s) = elim (Bool-cases (is_digit c)) [
  | inl e ↦ rw (e, all-before_digits s, e) refl
  | inr e ↦ rw e refl
]

isdigit-before_digits : (s : Text) → starts_with_digit s ≡ true → isdigit (before_digits s) ≡ true
unfolding isdigit starts_with_digit
isdigit-before_digits [] h = h
isdigit-before_digits (c ∷ s) h = rw (h, all-before_digits s, h) refl

pub matches-IsQuantity :
    (units : List Text) (s : Text) → matches units s ≡ true → IsQuantity units s
unfolding matches
matches-IsQuantity units s h = (
  before_digits s,
  after_digits s,
  before-after s,
  isdigit-before_digits s (ground arith),
  ground arith,
)

pub ok-inj : {E A : Type 0} (e : A) (x y : A) → Path (Result E A) (ok x) (ok y) → x ≡ y
ok-inj {E} {A} d x y h = ap value h
  where
    value : Result E A → A
    value (ok a) = a
    value (err z) = d

pub format_problems-Formatted :
    (units : List Text) (problem : Problem) (v : Value)
    → format_problems units problem v ≡ ok []
    → Formatted units v
unfolding format_problems truthy
format_problems-Formatted units problem nothing h = inl refl
format_problems-Formatted units problem (truth b) h = inl (ground arith)
format_problems-Formatted units problem (int n) h = inl (ground arith)
format_problems-Formatted units problem (words ws) h = inl (ground arith)
format_problems-Formatted units problem (numbers ns) h = inl (ground arith)
format_problems-Formatted units problem (word s) h = elim (Bool-cases (is_empty s)) [
  | inl e ↦ inl (rw e refl)
  | inr e ↦
      let h' = rw (format_problems, e) at h in
      inr (s, refl, matches-IsQuantity units s (check-good _ problem (ok-inj [] _ _ h')))
]

pub protocols_problems-Allowed : (v : Value) → protocols_problems v ≡ ok [] → Allowed v
unfolding protocols_problems truthy
protocols_problems-Allowed nothing h = inl refl
protocols_problems-Allowed (truth b) h = absurd (ground arith)
protocols_problems-Allowed (int n) h = absurd (ground arith)
protocols_problems-Allowed (word s) h = inl (rw (check-good _ _ (ok-inj [] _ _ h)) refl)
protocols_problems-Allowed (words ps) h = inr (ps, refl, check-good _ _ (ok-inj [] _ _ h))
protocols_problems-Allowed (numbers ns) h = inl (rw (check-good _ _ (ok-inj [] _ _ h)) refl)

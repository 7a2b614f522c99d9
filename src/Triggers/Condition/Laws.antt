-- ===== src/Triggers/Condition/Laws.antt =====
-- krkn/scenario_plugins/triggers/k8s_trigger.py: what a condition is read as, and how its comparisons
-- go together.
use krkn.Base.{
  ℕ, ◌≡◌, refl, ◌⊎◌, inl, inr, Bool, false, not, ◌&&◌, ◌||◌, none, some, [], ◌∷◌, ◌++◌,
  if◌then◌else◌, is_empty, ◌==◌, All, arith, Option-cases,
}
use krkn.Base.Text.{Text, strip}
use krkn.Base.Result.{Result, ok, err}
use krkn.Triggers.Values.{Numbers, Value}
use krkn.Triggers.Condition.{
  Operator, equal, not_equal, at_least, at_most, greater, less, no_path, no_value, operator_here,
  search_operator, parse_condition, coerce, compare, both_numeric, Problem,
}

-- How an operator is written.
abbrev pub symbol : Operator → Text
symbol equal = b'=' ∷ b'=' ∷ []
symbol not_equal = b'!' ∷ b'=' ∷ []
symbol at_least = b'>' ∷ b'=' ∷ []
symbol at_most = b'<' ∷ b'=' ∷ []
symbol greater = b'>' ∷ []
symbol less = b'<' ∷ []

-- A character that starts no operator.
abbrev pub Plain : ℕ → Type 0
Plain c = ((c == b'=') || (c == b'!') || (c == b'<') || (c == b'>')) ≡ false

operator_here-Plain : (c : ℕ) (s : Text) → Plain c → operator_here (c ∷ s) ≡ none
unfolding operator_here
operator_here-Plain c [] h = ground arith
operator_here-Plain c (d ∷ s) h = ground arith

-- What follows an operator does not begin with an equals sign.
abbrev pub NoEquals : Text → Type 0
NoEquals [] = Unit
NoEquals (c ∷ s) = (c == b'=') ≡ false

operator_here-symbol :
    (op : Operator) (s : Text) → NoEquals s → operator_here (symbol op ++ s) ≡ some (op, s)
unfolding operator_here
operator_here-symbol equal s h = refl
operator_here-symbol not_equal s h = refl
operator_here-symbol at_least s h = refl
operator_here-symbol at_most s h = refl
operator_here-symbol greater [] h = refl
operator_here-symbol greater (c ∷ s) h = ground arith
operator_here-symbol less [] h = refl
operator_here-symbol less (c ∷ s) h = ground arith

search_operator-here :
    (s after : Text) (op : Operator)
    → operator_here s ≡ some (op, after)
    → search_operator s ≡ some ([], (op, after))
unfolding operator_here search_operator
search_operator-here [] after op h = cc
search_operator-here (c ∷ s) after op h = rw (search_operator, h) refl

search_operator_finds :
    (path s : Text) (op : Operator)
    → All Plain path
    → NoEquals s
    → search_operator (path ++ (symbol op ++ s)) ≡ some (path, (op, s))
unfolding search_operator
search_operator_finds [] s op h k =
    search_operator-here (symbol op ++ s) s op (operator_here-symbol op s k)
search_operator_finds (c ∷ path) s op h k =
    rw
      (
        search_operator,
        operator_here-Plain c (path ++ (symbol op ++ s)) h.0,
        search_operator_finds path s op h.1 k,
      )
      refl

-- A condition `path op value`, where no character of the path starts an operator and the value does
-- not begin with an equals sign, is read as these three, the path and the value stripped and the value
-- coerced; it is refused exactly where the path, or else the value, is blank.
pub parse_condition_reads :
    (numbers : Numbers) (path value : Text) (op : Operator)
    → All Plain path
    → NoEquals value
    → parse_condition numbers (path ++ (symbol op ++ value)) ≡ (
        if is_empty (strip path)
        then err no_path
        else if is_empty (strip value)
        then err no_value
        else ok (strip path, (op, coerce numbers (strip value))))
unfolding parse_condition
parse_condition_reads numbers path value op h k =
    rw (parse_condition, search_operator_finds path value op h k) refl

-- Two tests in a row: the problem of the first that has one, else their conjunction.
abbrev pub both : Result Problem Bool → Result Problem Bool → Result Problem Bool
both (err e) r = err e
both (ok a) (err e) = err e
both (ok a) (ok b) = ok (a && b)

module _ (numbers : Numbers) (container : Value (numbers.F) → Text) where
  numeric_or_not :
      (a e : Value (numbers.F))
      → (both_numeric numbers a e ≡ none)
        ⊎ ((p : numbers.F × numbers.F) × (both_numeric numbers a e ≡ some p))
  numeric_or_not a e = Option-cases (both_numeric numbers a e)

  -- For all values, `!=` is the negation of `==` and neither of them raises; `>` is `>=` and `!=`, and
  -- `<` is `<=` and `!=`, where a problem of the first test, such as the `ValueError` of an ordering of
  -- values that are not both numeric, is a problem of both.
  pub compare_lem :
      (a e : Value (numbers.F))
      → ((b : Bool) × (compare numbers container a equal e ≡ ok b)
          × (compare numbers container a not_equal e ≡ ok (not b)))
        × (compare numbers container a greater e
            ≡ both
                (compare numbers container a at_least e)
                (compare numbers container a not_equal e))
        × (compare numbers container a less e
            ≡ both
                (compare numbers container a at_most e)
                (compare numbers container a not_equal e))
  unfolding compare
  compare_lem a e = elim (numeric_or_not a e) [
    | inl h ↦ rw (compare, h) ((_, refl, refl), refl, refl)
    | inr (p, h) ↦ rw (compare, h) ((_, refl, refl), refl, refl)
  ]

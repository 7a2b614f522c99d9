-- ===== src/Triggers/Condition.antt =====
-- krkn/scenario_plugins/triggers/k8s_trigger.py: the condition on a field of a Kubernetes object. The
-- attributes of an object of the client library are a parameter, as is the text of a container.
pub mod Laws
use krkn.Base.{
  ℕ, zero, suc, ◌≡◌, Bool, true, false, not, ◌&&◌, ◌||◌, Option, none, some, List, [], ◌∷◌, ◌++◌,
  if◌then◌else◌, is_empty, length, get_elem?, ◌-◌, ◌==◌, leb, Option-cases,
}
use krkn.Base.Int.{ℤ, pos, negsuc}
use krkn.Base.Text.{Text, text, text_eq, lower, split, strip}
use krkn.Base.Result.{Result, ok, err, ◌>>=◌}
use krkn.Triggers.Values.{
  Numbers, Value, nothing, truth, int, float, word, dict, items, instance_of, parse_int, int_of,
  float_of, str, get_field, items_list,
}

pub data Operator : Type 0 where
  equal not_equal at_least at_most greater less : Operator

-- What stops an evaluation: `ValueError`, `KeyError`, `IndexError`, `AttributeError`, and what the
-- client library raises.
pub data Problem : Type 0 where
  value_error key_error index_error attribute_error not_found not_registered unexpected : Problem

-- What is wrong with the text of a condition.
pub data BadCondition : Type 0 where
  no_operator no_path no_value : BadCondition

-- The pattern `==|!=|>=|<=|>|<` at the start of a text, and what follows.
unfoldable pub operator_here : Text → Option (Operator × Text)
operator_here [] = none
operator_here (c ∷ []) =
    if c == b'>' then some (greater, []) else if c == b'<' then some (less, []) else none
operator_here (c ∷ d ∷ s) =
    if d == b'='
    then if c == b'='
      then some (equal, s)
      else if c == b'!'
      then some (not_equal, s)
      else if c == b'>'
      then some (at_least, s)
      else if c == b'<'
      then some (at_most, s)
      else none
    else if c == b'>'
    then some (greater, d ∷ s)
    else if c == b'<'
    then some (less, d ∷ s)
    else none

-- `OPERATOR_RE.search`: the text before the first operator, the operator, and the text after it. The
-- blanks that the pattern takes on both sides are those that the `strip` of both parts removes.
unfoldable pub search_operator : Text → Option (Text × (Operator × Text))
unfolding operator_here
search_operator [] = none
search_operator (c ∷ s) =
    let rest = search_operator s in
    elim (operator_here (c ∷ s)) [
      | some (op, after) ↦ some ([], (op, after))
      | none ↦ elim rest [ none ↦ none | some (before, found) ↦ some (c ∷ before, found) ]
    ]

module _ (numbers : Numbers) where
  open numbers use {F, parse_float, eq, le}

  -- `_coerce`
  unfoldable pub coerce : Text → Value F
  unfolding parse_int
  coerce value =
      if text_eq (lower value) (text "true")
      then truth true
      else if text_eq (lower value) (text "false")
      then truth false
      else if text_eq (lower value) (text "none") || text_eq (lower value) (text "null")
      then nothing
      else elim (parse_int numbers value) [
        | some n ↦ int n
        | none ↦ elim (parse_float value) [ some x ↦ float x | none ↦ word value ]
      ]

  -- `_parse_condition`
  unfoldable pub parse_condition : Text → Result BadCondition (Text × (Operator × Value F))
  unfolding search_operator coerce
  parse_condition condition = elim (search_operator condition) [
    | none ↦ err no_operator
    | some (before, (op, after)) ↦
        if is_empty (strip before)
        then err no_path
        else if is_empty (strip after)
        then err no_value
        else ok (strip before, (op, coerce (strip after)))
  ]

  or_error : Problem → Option (Value F) → Result Problem (Value F)
  or_error problem none = err problem
  or_error problem (some v) = ok v

  -- `values[i]` of a list; a negative position counts from the end.
  unfoldable pub at : List (Value F) → ℤ → Option (Value F)
  at values (pos n) = get_elem? values n
  at values (negsuc n) =
      if leb (suc n) (length values) then get_elem? values (length values - suc n) else none

  -- One segment of a path.
  unfoldable pub step_path :
      (getattr : Value F → Text → Result Problem (Value F))
      → Value F
      → Text
      → Result Problem (Value F)
  unfolding get_field items_list parse_int or_error at
  step_path getattr (dict fields) segment = or_error key_error (get_field numbers segment fields)
  step_path getattr (items values) segment = elim (parse_int numbers segment) [
    | none ↦ err value_error
    | some i ↦ or_error index_error (at (items_list numbers values) i)
  ]
  step_path getattr nothing segment = getattr nothing segment
  step_path getattr (truth b) segment = getattr (truth b) segment
  step_path getattr (int n) segment = getattr (int n) segment
  step_path getattr (float x) segment = getattr (float x) segment
  step_path getattr (word s) segment = getattr (word s) segment
  step_path getattr (instance_of f) segment = getattr (instance_of f) segment

  unfoldable pub walk :
      (getattr : Value F → Text → Result Problem (Value F))
      → Value F
      → List Text
      → Result Problem (Value F)
  unfolding step_path
  walk getattr current [] = ok current
  walk getattr current (segment ∷ segments) =
      (step_path getattr current segment >>= λ next. walk getattr next segments)

  -- `_resolve_path`
  unfoldable pub resolve_path :
      (getattr : Value F → Text → Result Problem (Value F))
      → Value F
      → Text
      → Result Problem (Value F)
  unfolding walk split
  resolve_path getattr obj path = walk getattr obj (split b'.' path)

  -- The two values as floats, where both are numeric.
  unfoldable pub both_numeric : Value F → Value F → Option (F × F)
  unfolding float_of
  both_numeric actual expected = elim (float_of numbers actual) [
    | none ↦ none
    | some a ↦ elim (float_of numbers expected) [ none ↦ none | some e ↦ some (a, e) ]
  ]

  compare_numbers : F → Operator → F → Bool
  compare_numbers a equal e = eq a e
  compare_numbers a not_equal e = not (eq a e)
  compare_numbers a at_least e = le e a
  compare_numbers a at_most e = le a e
  compare_numbers a greater e = le e a && not (eq a e)
  compare_numbers a less e = le a e && not (eq a e)

  compare_texts : Text → Operator → Text → Result Problem Bool
  compare_texts a equal e = ok (text_eq a e)
  compare_texts a not_equal e = ok (not (text_eq a e))
  compare_texts a at_least e = err value_error
  compare_texts a at_most e = err value_error
  compare_texts a greater e = err value_error
  compare_texts a less e = err value_error

  -- `_compare`; its last `raise` is for an operator that the pattern never gives.
  unfoldable pub compare :
      (container : Value F → Text) → Value F → Operator → Value F → Result Problem Bool
  unfolding both_numeric compare_numbers compare_texts str
  compare container actual operator expected = elim (both_numeric actual expected) [
    | some (a, e) ↦ ok (compare_numbers a operator e)
    | none ↦ compare_texts (str numbers container actual) operator (str numbers container expected)
  ]

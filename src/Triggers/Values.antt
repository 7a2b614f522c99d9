-- ===== src/Triggers/Values.antt =====
-- The Python values that a trigger's configuration and a Kubernetes object hold, and what the
-- triggers of krkn/scenario_plugins/triggers read of them.
use krkn.Base.{
  ℕ, zero, suc, Bool, true, false, not, Option, none, some, List, [], ◌∷◌, if◌then◌else◌, is_empty,
  ◌==◌, ◌&&◌, take,
}
use krkn.Base.Int.{ℤ, pos, negsuc}
use krkn.Base.Text.{Text, text, text_eq, decimal, digits_from, isdigit, strip}

-- A float is a parameter, with how Python compares, reads and prints it. `whole` is `int(x)`, and `ticks` is a
-- positive time as a number of ticks of the clock, which are as short as it tells apart.
pub record Numbers : Type 1 where
  pub F : Type 0
  pub of_int : ℤ → F
  pub eq : F → F → Bool
  pub le : F → F → Bool
  pub parse_float : Text → Option F
  pub print_float : F → Text
  pub whole : F → ℤ
  pub ticks : F → ℕ

module _ (F : Type 0) where
  mutual
    pub data Value : Type 0 where
      nothing : Value
      truth : Bool → Value
      int : ℤ → Value
      float : F → Value
      word : Text → Value
      dict : Fields → Value
      items : Items → Value
      instance_of : Fields → Value

    pub data Fields : Type 0 where
      no_field : Fields
      field : Text → Value → Fields → Fields

    pub data Items : Type 0 where
      no_item : Items
      item : Value → Items → Items

module _ (numbers : Numbers) where
  open numbers use {F, of_int, parse_float, print_float}

  -- `d.get(key)` of the fields of a dict; the last of two equal keys counts, as in a literal.
  unfoldable pub get_field : Text → Fields F → Option (Value F)
  get_field key no_field = none
  get_field key (field k v rest) =
      let later = get_field key rest in
      elim later [ some w ↦ some w | none ↦ if text_eq k key then some v else none ]

  unfoldable pub items_list : Items F → List (Value F)
  items_list no_item = []
  items_list (item v rest) = v ∷ items_list rest

  -- `bool(v)`
  unfoldable pub truthy : Value F → Bool
  truthy nothing = false
  truthy (truth b) = b
  truthy (int (pos zero)) = false
  truthy (int (pos (suc n))) = true
  truthy (int (negsuc n)) = true
  truthy (float x) = not (numbers.eq x (of_int (pos 0)))
  truthy (word s) = not (is_empty s)
  truthy (dict no_field) = false
  truthy (dict (field k v rest)) = true
  truthy (items no_item) = false
  truthy (items (item v rest)) = true
  truthy (instance_of f) = true

  -- `config.get(key)`, `None` where the key is missing.
  unfoldable pub get_or_none : Text → Fields F → Value F
  unfolding get_field
  get_or_none key config = elim (get_field key config) [ some v ↦ v | none ↦ nothing ]

  -- `config.get(key, default)`
  unfoldable pub get_or : Text → Value F → Fields F → Value F
  unfolding get_field
  get_or key default config = elim (get_field key config) [ some v ↦ v | none ↦ default ]

  minus_sign : Option ℤ → Option ℤ
  minus_sign none = none
  minus_sign (some (pos zero)) = some (pos 0)
  minus_sign (some (pos (suc n))) = some (negsuc n)
  minus_sign (some (negsuc n)) = some (pos (suc n))

  unsigned : Text → Option ℤ
  unsigned s = if isdigit s then some (pos (digits_from 0 s)) else none

  signed : Text → Option ℤ
  unfolding minus_sign unsigned
  signed [] = none
  signed (c ∷ s) =
      if c == b'-'
      then minus_sign (unsigned s)
      else if c == b'+'
      then unsigned s
      else unsigned (c ∷ s)

  starts_with_digit : Text → Bool
  starts_with_digit s = isdigit (take 1 s)

  -- The text without underscores, each of which has to stand between two digits.
  ungrouped : (after_digit : Bool) → Text → Option Text
  unfolding starts_with_digit
  ungrouped after_digit [] = some []
  ungrouped after_digit (c ∷ s) =
      let rest = ungrouped (isdigit (c ∷ [])) s in
      if c == b'_'
      then if after_digit && starts_with_digit s then rest else none
      else elim rest [ some digits ↦ some (c ∷ digits) | none ↦ none ]

  -- `int(s)` of a text.
  unfoldable pub parse_int : Text → Option ℤ
  unfolding signed ungrouped
  parse_int s = elim (ungrouped false (strip s)) [ some digits ↦ signed digits | none ↦ none ]

  -- `int(v)`, `none` for a `TypeError` or a `ValueError`. A float is cut to its whole part.
  unfoldable pub int_of : Value F → Option ℤ
  unfolding parse_int
  int_of (truth true) = some (pos 1)
  int_of (truth false) = some (pos 0)
  int_of (int n) = some n
  int_of (float x) = some (numbers.whole x)
  int_of (word s) = parse_int s
  int_of nothing = none
  int_of (dict f) = none
  int_of (items i) = none
  int_of (instance_of f) = none

  -- `float(v)`, likewise.
  unfoldable pub float_of : Value F → Option F
  float_of (truth true) = some (of_int (pos 1))
  float_of (truth false) = some (of_int (pos 0))
  float_of (int n) = some (of_int n)
  float_of (float x) = some x
  float_of (word s) = parse_float s
  float_of nothing = none
  float_of (dict f) = none
  float_of (items i) = none
  float_of (instance_of f) = none

  print_int : ℤ → Text
  print_int (pos n) = decimal n
  print_int (negsuc n) = b'-' ∷ decimal (suc n)

  -- `str(v)` of a value that is not a container, and the text that `container` gives of one.
  unfoldable pub str : (container : Value F → Text) → Value F → Text
  unfolding print_int
  str container nothing = text "None"
  str container (truth true) = text "True"
  str container (truth false) = text "False"
  str container (int n) = print_int n
  str container (float x) = print_float x
  str container (word s) = s
  str container (dict f) = container (dict f)
  str container (items i) = container (items i)
  str container (instance_of f) = container (instance_of f)

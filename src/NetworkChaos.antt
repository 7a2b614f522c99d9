-- ===== src/NetworkChaos.antt =====
-- krkn/scenario_plugins/network_chaos_ng/models.py: the configurations of network chaos and their validation.
-- A value of a configuration is None, a boolean, an integer, a text, a list of texts or a list of integers.
pub mod Factory
pub mod Plugin
mod Tests
use krkn.Base.{
  ℕ, zero, suc, Bool, true, false, not, ◌&&◌, ◌||◌, Option, none, some, List, [], ◌∷◌, ◌++◌, map,
  all, if◌then◌else◌, is_empty,
}
use krkn.Base.Int.{ℤ, pos, negsuc}
use krkn.Base.Text.{Text, text, text_eq, contains, is_digit, isdigit}
use krkn.Base.Dict.{Dict, lookup}
use krkn.Base.Result.{Result, ok, err}

pub data Value : Type 0 where
  nothing : Value
  truth : Bool → Value
  int : ℤ → Value
  word : Text → Value
  words : List Text → Value
  numbers : List ℤ → Value

unfoldable pub truthy : Value → Bool
truthy nothing = false
truthy (truth b) = b
truthy (int (pos zero)) = false
truthy (int (pos (suc n))) = true
truthy (int (negsuc n)) = true
truthy (word s) = not (is_empty s)
truthy (words ws) = not (is_empty ws)
truthy (numbers ns) = not (is_empty ns)

-- A field of an object: what the configuration gives, or the default of the class.
unfoldable pub get : Text → Value → Dict Value → Value
get key default config = elim (lookup key config) [ none ↦ default | some v ↦ v ]

pub data Problem : Type 0 where
  execution_none execution_unsupported label_selector_none wait_duration_type test_duration_type
        instance_count_type instance_count_negative protocols_not_allowed recovery_time_invalid
        latency_format bandwidth_format loss_format :
      Problem

-- An exception that a method raises on a value of another type.
pub data TypeError : Type 0 where
  type_error : TypeError

abbrev pub supported_execution : List Text
supported_execution = text "serial" ∷ text "parallel" ∷ []

unfoldable pub check : Bool → Problem → List Problem
check good problem = if good then [] else problem ∷ []

-- `isinstance(v, int)`, which a boolean is.
unfoldable pub is_int : Value → Bool
is_int nothing = false
is_int (truth b) = true
is_int (int n) = true
is_int (word s) = false
is_int (words ws) = false
is_int (numbers ns) = false

unfoldable pub is_negative : Value → Bool
is_negative (int (negsuc n)) = true
is_negative (int (pos n)) = false
is_negative nothing = false
is_negative (truth b) = false
is_negative (word s) = false
is_negative (words ws) = false
is_negative (numbers ns) = false

unfoldable pub is_nothing : Value → Bool
is_nothing nothing = true
is_nothing (truth b) = false
is_nothing (int n) = false
is_nothing (word s) = false
is_nothing (words ws) = false
is_nothing (numbers ns) = false

-- `v in supported` and `v == s` for texts.
unfoldable pub is_one_of : List Text → Value → Bool
is_one_of supported (word s) = contains s supported
is_one_of supported nothing = false
is_one_of supported (truth b) = false
is_one_of supported (int n) = false
is_one_of supported (words ws) = false
is_one_of supported (numbers ns) = false

unfoldable pub instance_count_problems : Value → List Problem
unfolding check is_int is_negative
instance_count_problems v =
    if not (is_int v)
    then instance_count_type ∷ []
    else check (not (is_negative v)) instance_count_negative

-- `BaseNetworkChaosConfig.validate`
unfoldable pub validate_base : Dict Value → List Problem
unfolding get check is_int is_nothing is_one_of instance_count_problems
validate_base config =
    check (not (is_nothing (get (text "execution") nothing config))) execution_none
    ++ check (is_one_of supported_execution (get (text "execution") nothing config))
        execution_unsupported
    ++ check
        (not (is_one_of (text "node_network_filter" ∷ []) (get (text "id") nothing config))
          || not (is_nothing (get (text "label_selector") nothing config)))
        label_selector_none
    ++ check (is_int (get (text "wait_duration") nothing config)) wait_duration_type
    ++ check (is_int (get (text "test_duration") nothing config)) test_duration_type
    ++ instance_count_problems (get (text "instance_count") nothing config)

-- `set(protocols).issubset({"tcp", "udp"})`: of a text the set has the characters.
unfoldable pub protocols_problems : Value → Result TypeError (List Problem)
unfolding check
protocols_problems nothing = ok []
protocols_problems (truth b) = err type_error
protocols_problems (int n) = err type_error
protocols_problems (word s) = ok (check (is_empty s) protocols_not_allowed)
protocols_problems (words ws) =
    ok (check (all (λ p. contains p (text "tcp" ∷ text "udp" ∷ [])) ws) protocols_not_allowed)
protocols_problems (numbers ns) = ok (check (is_empty ns) protocols_not_allowed)

unfoldable pub recovery_time_problems : Value → List Problem
unfolding check is_int is_negative
recovery_time_problems v = check (is_int v && not (is_negative v)) recovery_time_invalid

-- The rest of a text after its first digits.
unfoldable pub after_digits : Text → Text
after_digits [] = []
after_digits (c ∷ s) = let rest = after_digits s in if is_digit c then rest else c ∷ s

unfoldable pub starts_with_digit : Text → Bool
starts_with_digit [] = false
starts_with_digit (c ∷ s) = is_digit c

-- `^(\d+)(unit|...)$`, where `$` also stands before a line feed that ends the text. No unit has digits.
unfoldable pub matches : List Text → Text → Bool
unfolding after_digits starts_with_digit
matches units s =
    starts_with_digit s
    && (contains (after_digits s) units
        || contains (after_digits s) (map (λ (u : Text). u ++ 10 ∷ []) units))

abbrev pub latency_units : List Text
latency_units = text "us" ∷ text "ms" ∷ text "s" ∷ []

abbrev pub bandwidth_units : List Text
bandwidth_units = text "bit" ∷ text "kbit" ∷ text "mbit" ∷ text "gbit" ∷ text "tbit" ∷ []

-- A text that has to match if it is there.
unfoldable pub format_problems : List Text → Problem → Value → Result TypeError (List Problem)
unfolding truthy check matches
format_problems units problem (word s) =
    ok (if is_empty s then [] else check (matches units s) problem)
format_problems units problem nothing = ok []
format_problems units problem (truth b) = if b then err type_error else ok []
format_problems units problem (int n) = if truthy (int n) then err type_error else ok []
format_problems units problem (words ws) = if is_empty ws then ok [] else err type_error
format_problems units problem (numbers ns) = if is_empty ns then ok [] else err type_error

-- `if loss: if "%" in loss or not loss.isdigit()`
unfoldable pub loss_problems : Value → Result TypeError (List Problem)
unfolding truthy check isdigit
loss_problems (word s) = ok (
    if is_empty s
    then []
    else check (all (λ c. not (text_eq (c ∷ []) (text "%"))) s && isdigit s) loss_format)
loss_problems nothing = ok []
loss_problems (truth b) = if b then err type_error else ok []
loss_problems (int n) = if truthy (int n) then err type_error else ok []
loss_problems (words ws) =
    if is_empty ws
    then ok []
    else if contains (text "%") ws
    then ok (loss_format ∷ [])
    else err type_error
loss_problems (numbers ns) = if is_empty ns then ok [] else err type_error

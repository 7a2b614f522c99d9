-- ===== src/Runner/Factory.antt =====
-- krkn/scenario_plugins/scenario_plugin_factory.py: which plugin classes are loaded, by scenario type.
-- The walk over the package is a parameter: the classes that it finds, with what their instances say.
pub mod Laws
use krkn.Base.{
  ℕ, Bool, true, false, not, ◌&&◌, ◌||◌, Option, none, some, List, [], ◌∷◌, ◌++◌, ◌+◌, ◌-◌, ◌==◌,
  if◌then◌else◌, is_empty, is_some, leb,
}
use krkn.Base.Text.{Text, text, text_eq, split, ends_with, occurs, is_upper}
use krkn.Base.Dict.{Dict, lookup, insert, has}
use krkn.Base.Result.{Result, ok, err}

-- A class of a module that derives from the base class.
pub record PluginClass : Type 0 where
  pub module_name : Text
  pub class_name : Text
  pub scenario_types : List Text

-- Why a class is not loaded: one of the naming rules, or a scenario type that another class has.
pub data Reason : Type 0 where
  file_suffix folder_word class_form names_differ : Reason
  duplicate : Text → Reason

pub record Factory : Type 0 where
  pub loaded_plugins : Dict PluginClass
  pub failed_plugins : List (PluginClass × Reason)

is_lower : ℕ → Bool
is_lower c = leb b'a' c && leb c b'z'

-- `s.title()` of ASCII text: a letter is a capital exactly where no letter stands before it.
title_from : Bool → Text → Text
unfolding is_lower
title_from after_letter [] = []
title_from after_letter (c ∷ s) =
    (if is_lower c && not after_letter
      then c - 32
      else if is_upper c && after_letter
      then c + 32
      else c)
    ∷ title_from (is_lower c || is_upper c) s

without_underscores : Text → Text
without_underscores [] = []
without_underscores (c ∷ s) =
    let rest = without_underscores s in if c == b'_' then rest else c ∷ rest

-- `__snake_to_capital_camel`
unfoldable pub snake_to_capital_camel : Text → Text
unfolding title_from without_underscores
snake_to_capital_camel snake_string = without_underscores (title_from false snake_string)

-- The last two parts of a dotted name; a module of the package has both.
last_parts : List Text → Text × Text
last_parts [] = ([], [])
last_parts (a ∷ []) = ([], a)
last_parts (a ∷ b ∷ []) = (a, b)
last_parts (a ∷ b ∷ c ∷ parts) = last_parts (b ∷ c ∷ parts)

starts_upper : Text → Bool
starts_upper [] = false
starts_upper (c ∷ s) = is_upper c

-- `is_naming_convention_correct`: `none` is a correct name.
unfoldable pub is_naming_convention_correct : Text → Text → Option Reason
unfolding last_parts starts_upper snake_to_capital_camel
is_naming_convention_correct module_name class_name =
    let (folder, last) = last_parts (split b'.' module_name) in
    if not (ends_with (text "_scenario_plugin") last)
    then some file_suffix
    else if occurs (text "scenario") folder || occurs (text "plugin") folder
    then some folder_word
    else if text_eq class_name (text "ScenarioPlugin")
        || not (ends_with (text "ScenarioPlugin") class_name)
        || not (starts_upper class_name)
    then some class_form
    else if not (text_eq (snake_to_capital_camel last) class_name)
    then some names_differ
    else none

-- The first scenario type that is loaded already.
unfoldable pub first_duplicate : Dict PluginClass → List Text → Option Text
first_duplicate loaded [] = none
first_duplicate loaded (scenario_type ∷ types) =
    let rest = first_duplicate loaded types in
    if has loaded scenario_type then some scenario_type else rest

unfoldable pub add_types : PluginClass → List Text → Dict PluginClass → Dict PluginClass
add_types cls [] loaded = loaded
add_types cls (scenario_type ∷ types) loaded = add_types cls types (insert scenario_type cls loaded)

unfoldable pub fail : PluginClass → Reason → Factory → Factory
fail cls reason f = record f { failed_plugins = f.failed_plugins ++ (cls, reason) ∷ [] }

-- One class of the loop.
unfoldable pub load_class : PluginClass → Factory → Factory
unfolding is_naming_convention_correct first_duplicate add_types fail
load_class cls f = elim (is_naming_convention_correct cls.module_name cls.class_name) [
  | some reason ↦ fail cls reason f
  | none ↦ elim (first_duplicate f.loaded_plugins cls.scenario_types) [
    | some scenario_type ↦ fail cls (duplicate scenario_type) f
    | none ↦ record f { loaded_plugins = add_types cls cls.scenario_types f.loaded_plugins }
  ]
]

-- `__load_plugins`
unfoldable pub load_plugins : List PluginClass → Factory → Factory
unfolding load_class
load_plugins [] f = f
load_plugins (cls ∷ classes) f = load_plugins classes (load_class cls f)

-- `create_plugin`: the class that is instantiated; `none` is `ScenarioPluginNotFound`.
unfoldable pub create_plugin : Text → Factory → Option PluginClass
create_plugin scenario_type f = lookup scenario_type f.loaded_plugins

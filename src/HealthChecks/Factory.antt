-- ===== src/HealthChecks/Factory.antt =====
-- krkn/health_checks/health_check_factory.py: which plugins are loaded, by type and by configuration
-- key, and the objects that a run starts, counts and stops. The walk over the package is a parameter.
pub mod Loading
pub mod Laws
use krkn.Base.{
  ℕ, Bool, true, false, not, ◌||◌, Option, none, some, is_some, List, [], ◌∷◌, ◌++◌, map,
  if◌then◌else◌, is_empty, length,
}
use krkn.Base.Text.{Text, text, text_eq, split, ends_with, is_upper}
use krkn.Base.Dict.{Dict, lookup, insert, has}
use krkn.Base.Result.{Result, ok, err}
use krkn.Runner.Factory.{snake_to_capital_camel}
use krkn.HealthChecks.{HealthCheckPlugin, increment_iterations, set_stop}

-- A class that derives from the base class; an empty key is `None`.
pub record HealthCheckClass : Type 0 where
  pub class_name : Text
  pub health_check_types : List Text
  pub config_key : Text
  pub manages_own_threads : Bool

-- What the walk finds: a package or a module, whose import may raise an exception.
pub record Module : Type 0 where
  pub module_name : Text
  pub is_pkg : Bool
  pub classes : Option (List HealthCheckClass)

pub data Reason : Type 0 where
  not_imported file_suffix class_form names_differ : Reason
  duplicate_type : Text → Reason
  duplicate_key : Text → Reason

pub record HealthCheckFactory : Type 0 where
  pub loaded_plugins : Dict HealthCheckClass
  pub failed_plugins : List (Text × Text × Reason)
  pub config_key_map : Dict Text
  pub active_plugins : List HealthCheckPlugin

-- `health_check_types[0]` of an empty list, and `HealthCheckPluginNotFound`.
pub data Error : Type 0 where
  index_error plugin_not_found : Error

last_part : List Text → Text
last_part [] = []
last_part (part ∷ []) = part
last_part (part ∷ next ∷ parts) = last_part (next ∷ parts)

unfoldable pub module_file : Text → Text
unfolding last_part
module_file module_name = last_part (split b'.' module_name)

first_upper : Text → Bool
first_upper [] = false
first_upper (c ∷ s) = is_upper c

-- `is_naming_convention_correct`: `none` is a correct name.
unfoldable pub naming_problem : Text → Text → Option Reason
unfolding module_file first_upper snake_to_capital_camel
naming_problem module_name class_name =
    if not (ends_with (text "_health_check_plugin") (module_file module_name))
    then some file_suffix
    else if text_eq class_name (text "HealthCheckPlugin")
        || not (ends_with (text "HealthCheckPlugin") class_name)
        || not (first_upper class_name)
    then some class_form
    else if not (text_eq (snake_to_capital_camel (module_file module_name)) class_name)
    then some names_differ
    else none

unfoldable pub loaded_type : Dict HealthCheckClass → List Text → Option Text
loaded_type loaded [] = none
loaded_type loaded (type ∷ types) =
    let rest = loaded_type loaded types in if has loaded type then some type else rest

unfoldable pub set_types :
    HealthCheckClass → List Text → Dict HealthCheckClass → Dict HealthCheckClass
set_types cls [] loaded = loaded
set_types cls (type ∷ types) loaded = set_types cls types (insert type cls loaded)

unfoldable pub add_failure : Text → Text → Reason → HealthCheckFactory → HealthCheckFactory
add_failure module_name class_name reason f = record f {
  failed_plugins = f.failed_plugins ++ (module_name, class_name, reason) ∷ [];
}

-- The configuration key of a class whose types are loaded.
unfoldable pub register_key :
    Text → HealthCheckClass → HealthCheckFactory → Result Error HealthCheckFactory
unfolding add_failure
register_key module_name cls f =
    if is_empty cls.config_key
    then ok f
    else if has f.config_key_map cls.config_key
    then ok (add_failure module_name cls.class_name (duplicate_key cls.config_key) f)
    else elim cls.health_check_types [
      | [] ↦ err index_error
      | type ∷ types ↦
          ok (record f { config_key_map = insert cls.config_key type f.config_key_map })
    ]

unfoldable pub load_class :
    Text → HealthCheckClass → HealthCheckFactory → Result Error HealthCheckFactory
unfolding naming_problem loaded_type set_types register_key add_failure
load_class module_name cls f = elim (naming_problem module_name cls.class_name) [
  | some reason ↦ ok (add_failure module_name cls.class_name reason f)
  | none ↦ elim (loaded_type f.loaded_plugins cls.health_check_types) [
    | some type ↦ ok (add_failure module_name cls.class_name (duplicate_type type) f)
    | none ↦
        register_key module_name cls
          (record f { loaded_plugins = set_types cls cls.health_check_types f.loaded_plugins })
  ]
]

unfoldable pub load_classes :
    Text → List HealthCheckClass → HealthCheckFactory → Result Error HealthCheckFactory
unfolding load_class
load_classes module_name [] f = ok f
load_classes module_name (cls ∷ classes) f = elim (load_class module_name cls f) [
  | err e ↦ err e
  | ok f1 ↦ load_classes module_name classes f1
]

-- One step of the walk.
unfoldable pub load_module : Module → HealthCheckFactory → Result Error HealthCheckFactory
unfolding module_file load_classes add_failure
load_module m f =
    if m.is_pkg || not (ends_with (text "_health_check_plugin") (module_file m.module_name))
    then ok f
    else elim m.classes [
      | none ↦ ok (add_failure m.module_name (text "N/A") not_imported f)
      | some classes ↦ load_classes m.module_name classes f
    ]

-- `__load_plugins`
unfoldable pub load_plugins : List Module → HealthCheckFactory → Result Error HealthCheckFactory
unfolding load_module
load_plugins [] f = ok f
load_plugins (m ∷ modules) f = elim (load_module m f) [
  | err e ↦ err e
  | ok f1 ↦ load_plugins modules f1
]

abbrev pub new_plugin : Text → Option ℕ → HealthCheckPlugin
new_plugin health_check_type iterations = record {
  health_check_type = health_check_type;
  iterations = iterations;
  current_iterations = 0;
  stop_event = false;
  ret_value = 0;
}

unfoldable pub create_plugin :
    Text
    → Option ℕ
    → HealthCheckFactory
    → Result Error (HealthCheckClass × HealthCheckPlugin) × HealthCheckFactory
create_plugin health_check_type iterations f = elim (lookup health_check_type f.loaded_plugins) [
  | none ↦ (err plugin_not_found, f)
  | some cls ↦
      let plugin = new_plugin health_check_type iterations in
      (ok (cls, plugin), record f { active_plugins = f.active_plugins ++ plugin ∷ [] })
]

unfoldable pub increment_all_iterations : HealthCheckFactory → HealthCheckFactory
unfolding increment_iterations
increment_all_iterations f = record f { active_plugins = map increment_iterations f.active_plugins }

unfoldable pub stop_all : HealthCheckFactory → HealthCheckFactory
unfolding set_stop
stop_all f = record f { active_plugins = map set_stop f.active_plugins }

-- A started plugin: its place among the active ones, its type, and whether a worker thread runs it.
pub record Checker : Type 0 where
  pub place : ℕ
  pub health_check_type : Text
  pub has_worker : Bool

abbrev pub add_checker :
    ℕ → Text → Result Error (HealthCheckClass × HealthCheckPlugin) → List Checker → List Checker
add_checker place type (err e) checkers = checkers
add_checker place type (ok (cls, plugin)) checkers =
    record { place = place; health_check_type = type; has_worker = not cls.manages_own_threads }
    ∷ checkers

-- The loop of `start_all`; `configured` says which sections of the configuration are not empty.
unfoldable pub start_keys :
    (configured : Text → Bool)
    → Dict Text
    → Option ℕ
    → HealthCheckFactory
    → List Checker × HealthCheckFactory
unfolding create_plugin
start_keys configured [] iterations f = ([], f)
start_keys configured ((config_key, plugin_type) ∷ rest) iterations f =
    let (created, f1) = create_plugin plugin_type iterations f in
    let (checkers, f2) = start_keys configured rest iterations f1 in
    if not (configured config_key)
    then start_keys configured rest iterations f
    else (add_checker (length f.active_plugins) plugin_type created checkers, f2)

unfoldable pub start_all :
    (configured : Text → Bool) → Option ℕ → HealthCheckFactory → List Checker × HealthCheckFactory
unfolding start_keys
start_all configured iterations f = start_keys configured f.config_key_map iterations f

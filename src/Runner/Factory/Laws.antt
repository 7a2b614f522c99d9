-- ===== src/Runner/Factory/Laws.antt =====
-- krkn/scenario_plugins/scenario_plugin_factory.py: a scenario type stays with the class that took it.
use krkn.Base.{◌≡◌, sym, ap, ◌∙◌, none, some, List, [], ◌∷◌, Bool-cases, Option-cases, inl, inr}
use krkn.Base.Text.{Text, text_eq, text_eq_iff}
use krkn.Base.Dict.{Dict, lookup, insert, lookup-insert}
use krkn.Runner.Factory.{
  PluginClass, Factory, is_naming_convention_correct, first_duplicate, add_types, load_class,
  load_plugins, create_plugin, fail,
}

-- A list without a loaded type begins with one that is not loaded, and goes on so.
first_duplicate-cons :
    (loaded : Dict PluginClass) (t : Text) (types : List Text)
    → first_duplicate loaded (t ∷ types) ≡ none
    → (lookup t loaded ≡ none) × (first_duplicate loaded types ≡ none)
unfolding first_duplicate
first_duplicate-cons loaded t types d = elim (Option-cases (lookup t loaded)) [
  | inl e ↦ (e, rw (first_duplicate, e) at d)
  | inr (v, e) ↦ (let d' = rw (first_duplicate, e) at d in cc)
]

-- Adding a type that another dict does not have keeps what that dict has.
insert_keeps :
    (t ty : Text) (cls old : PluginClass) (loaded before : Dict PluginClass)
    → lookup t before ≡ none
    → lookup ty before ≡ some old
    → lookup ty loaded ≡ some old
    → lookup ty (insert t cls loaded) ≡ some old
insert_keeps t ty cls old loaded before n k h = elim (Bool-cases (text_eq t ty)) [
  | inl e ↦
      let same : t ≡ ty = (text_eq_iff t ty).0 e in
      let n' : lookup ty before ≡ none = sym (ap (λ (x : Text). lookup x before) same) ∙ n in cc
  | inr e ↦ rw (lookup-insert t ty cls loaded, e) h
]

add_types_keeps :
    (cls : PluginClass) (types : List Text) (loaded before : Dict PluginClass) (ty : Text)
    (old : PluginClass)
    → lookup ty loaded ≡ some old
    → lookup ty before ≡ some old
    → first_duplicate before types ≡ none
    → lookup ty (add_types cls types loaded) ≡ some old
unfolding add_types first_duplicate
add_types_keeps cls [] loaded before ty old h k d = h
add_types_keeps cls (t ∷ types) loaded before ty old h k d =
    let (n, d') = first_duplicate-cons before t types d in
    add_types_keeps cls types (insert t cls loaded) before ty old
      (insert_keeps t ty cls old loaded before n k h) k d'

load_class_keeps :
    (cls : PluginClass) (f : Factory) (ty : Text) (old : PluginClass)
    → create_plugin ty f ≡ some old
    → create_plugin ty (load_class cls f) ≡ some old
unfolding create_plugin load_class fail
load_class_keeps cls f ty old h =
    elim (Option-cases (is_naming_convention_correct cls.module_name cls.class_name)) [
      | inr (reason, e) ↦ rw (load_class, e) h
      | inl e ↦ elim (Option-cases (first_duplicate f.loaded_plugins cls.scenario_types)) [
        | inr (t, d) ↦ rw (load_class, e, d) h
        | inl d ↦
            rw (load_class, e, d)
              (add_types_keeps cls cls.scenario_types f.loaded_plugins f.loaded_plugins ty old h h
                d)
      ]
    ]

-- A scenario type that a class has taken stays with that class, whatever classes are loaded after it:
-- `create_plugin` gives the same class before and after.
pub load_plugins_keeps :
    (classes : List PluginClass) (f : Factory) (scenario_type : Text) (cls : PluginClass)
    → create_plugin scenario_type f ≡ some cls
    → create_plugin scenario_type (load_plugins classes f) ≡ some cls
unfolding load_plugins
load_plugins_keeps [] f scenario_type cls h = h
load_plugins_keeps (c ∷ classes) f scenario_type cls h =
    load_plugins_keeps classes (load_class c f) scenario_type cls
      (load_class_keeps c f scenario_type cls h)

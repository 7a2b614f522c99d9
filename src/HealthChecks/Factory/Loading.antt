-- ===== src/HealthChecks/Factory/Loading.antt =====
-- krkn/health_checks/health_check_factory.py: each configuration key stands for a type that is loaded.
use krkn.Base.{
  ◌≡◌, true, not, ◌||◌, List, [], ◌∷◌, All, All-mono, is_empty, Bool-cases, Option-cases, inl, inr,
  arith,
}
use krkn.Base.Text.{Text, text, ends_with, text_eq_refl}
use krkn.Base.Dict.{Dict, insert, has, lookup-insert, All-insert}
use krkn.Base.Result.{Result, ok, err, Result-cases}
use krkn.HealthChecks.Factory.{
  HealthCheckClass, Module, HealthCheckFactory, Error, index_error, naming_problem, loaded_type,
  set_types, add_failure, register_key, load_class, load_classes, load_module, load_plugins,
  module_file,
}

-- Every configuration key stands for a type that is loaded.
abbrev pub Known : Dict HealthCheckClass → Text → Type 0
Known loaded type = has loaded type ≡ true

abbrev pub IsConsistent : HealthCheckFactory → Type 0
IsConsistent f = All (λ (e : Text × Text). Known f.loaded_plugins e.1) f.config_key_map

-- What a step of the loading that does not raise leaves.
abbrev Kept : Result Error HealthCheckFactory → Type 0
Kept (ok f) = IsConsistent f
Kept (err e) = Unit

Known-insert :
    (t type : Text) (cls : HealthCheckClass) (loaded : Dict HealthCheckClass)
    → Known loaded type
    → Known (insert t cls loaded) type
Known-insert t type cls loaded h = ground (arith, lookup-insert t type cls loaded)

Known-insert_self :
    (t : Text) (cls : HealthCheckClass) (loaded : Dict HealthCheckClass)
    → Known (insert t cls loaded) t
Known-insert_self t cls loaded = ground (arith, lookup-insert t t cls loaded, text_eq_refl t)

Known-set_types :
    (types : List Text) (type : Text) (cls : HealthCheckClass) (loaded : Dict HealthCheckClass)
    → Known loaded type
    → Known (set_types cls types loaded) type
unfolding set_types
Known-set_types [] type cls loaded h = h
Known-set_types (t ∷ types) type cls loaded h =
    Known-set_types types type cls (insert t cls loaded) (Known-insert t type cls loaded h)

Known-first :
    (types : List Text) (type : Text) (cls : HealthCheckClass) (loaded : Dict HealthCheckClass)
    → Known (set_types cls (type ∷ types) loaded) type
unfolding set_types
Known-first types type cls loaded =
    Known-set_types types type cls (insert type cls loaded) (Known-insert_self type cls loaded)

Known-own :
    (types : List Text) (cls : HealthCheckClass) (loaded : Dict HealthCheckClass)
    → All (λ t. Known (set_types cls types loaded) t) types
unfolding set_types
Known-own [] cls loaded = tt
Known-own (t ∷ types) cls loaded =
    (Known-first types t cls loaded, Known-own types cls (insert t cls loaded))

insert_first-Kept :
    (types : List Text) (config_key : Text) (f : HealthCheckFactory)
    → IsConsistent f
    → All (λ t. Known f.loaded_plugins t) types
    → Kept (elim types [
      | [] ↦ err index_error
      | type ∷ _ ↦ ok (record f { config_key_map = insert config_key type f.config_key_map })
    ])
insert_first-Kept [] config_key f c k = tt
insert_first-Kept (type ∷ types) config_key f c k =
    All-insert (Known f.loaded_plugins) config_key type f.config_key_map k.0 c

register_key-Kept :
    (module_name : Text) (cls : HealthCheckClass) (f : HealthCheckFactory)
    → IsConsistent f
    → All (λ t. Known f.loaded_plugins t) cls.health_check_types
    → Kept (register_key module_name cls f)
unfolding register_key add_failure
register_key-Kept module_name cls f c k = elim (Bool-cases (is_empty cls.config_key)) [
  | inl e ↦ rw (register_key, e) c
  | inr e ↦ elim (Bool-cases (has f.config_key_map cls.config_key)) [
    | inl d ↦ rw (register_key, e, d) c
    | inr d ↦
        rw (register_key, e, d) (insert_first-Kept cls.health_check_types cls.config_key f c k)
  ]
]

load_class-Kept :
    (module_name : Text) (cls : HealthCheckClass) (f : HealthCheckFactory)
    → IsConsistent f
    → Kept (load_class module_name cls f)
unfolding load_class add_failure
load_class-Kept module_name cls f c =
    elim (Option-cases (naming_problem module_name cls.class_name)) [
      | inr (reason, e) ↦ rw (load_class, e) c
      | inl e ↦ elim (Option-cases (loaded_type f.loaded_plugins cls.health_check_types)) [
        | inr (t, d) ↦ rw (load_class, e, d) c
        | inl d ↦
            rw (load_class, e, d)
              (register_key-Kept module_name cls
                (record f {
                  loaded_plugins = set_types cls cls.health_check_types f.loaded_plugins;
                })
                (All-mono (λ (x : Text × Text). Known f.loaded_plugins x.1) _
                  (λ x h. Known-set_types cls.health_check_types x.1 cls f.loaded_plugins h)
                  f.config_key_map c)
                (Known-own cls.health_check_types cls f.loaded_plugins))
      ]
    ]

load_classes-Kept :
    (module_name : Text) (classes : List HealthCheckClass) (f : HealthCheckFactory)
    → IsConsistent f
    → Kept (load_classes module_name classes f)
unfolding load_classes
load_classes-Kept module_name [] f c = c
load_classes-Kept module_name (cls ∷ classes) f c =
    elim (Result-cases (load_class module_name cls f)) [
      | inr (x, e) ↦ rw (load_classes, e) tt
      | inl (f1, e) ↦
          rw (load_classes, e)
            (load_classes-Kept module_name classes f1
              (rw e at (load_class-Kept module_name cls f c)))
    ]

load_module-Kept : (m : Module) (f : HealthCheckFactory) → IsConsistent f → Kept (load_module m f)
unfolding load_module add_failure
load_module-Kept m f c =
    elim (Bool-cases
      (m.is_pkg || not (ends_with (text "_health_check_plugin") (module_file m.module_name)))) [
        | inl e ↦ rw (load_module, e) c
        | inr e ↦ elim (Option-cases m.classes) [
          | inl d ↦ rw (load_module, e, d) c
          | inr (classes, d) ↦ rw (load_module, e, d) (load_classes-Kept m.module_name classes f c)
        ]
      ]

load_plugins-Kept :
    (modules : List Module) (f : HealthCheckFactory)
    → IsConsistent f
    → Kept (load_plugins modules f)
unfolding load_plugins
load_plugins-Kept [] f c = c
load_plugins-Kept (m ∷ modules) f c = elim (Result-cases (load_module m f)) [
  | inr (x, e) ↦ rw (load_plugins, e) tt
  | inl (f1, e) ↦
      rw (load_plugins, e) (load_plugins-Kept modules f1 (rw e at (load_module-Kept m f c)))
]

-- A factory that loads its plugins without an exception has, for each configuration key, a type that
-- is loaded.
pub load_plugins-IsConsistent :
    (modules : List Module) (f f1 : HealthCheckFactory)
    → IsConsistent f
    → load_plugins modules f ≡ ok f1
    → IsConsistent f1
load_plugins-IsConsistent modules f f1 c e = rw e at (load_plugins-Kept modules f c)

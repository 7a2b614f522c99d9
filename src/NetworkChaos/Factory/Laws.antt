-- ===== src/NetworkChaos/Factory/Laws.antt =====
-- krkn/scenario_plugins/network_chaos_ng/network_chaos_factory.py: what a configuration that is accepted is.
pub mod Formats
use krkn.Base.{
  ◌≡◌, refl, sym, ap, ◌∙◌, ◌⊎◌, inl, inr, Bool, true, false, not, ◌&&◌, ◌||◌, Option, none, some,
  List, [], ◌∷◌, ◌++◌, if◌then◌else◌, is_empty, Bool-cases, Option-cases, arith,
}
use krkn.Base.Int.{pos}
use krkn.Base.Text.{Text, text, text_eq, text_eq_iff, contains}
use krkn.Base.Dict.{Dict, lookup}
use krkn.Base.Result.{Result, ok, err, ◌>>=◌, Result-cases}
use krkn.NetworkChaos.{
  Value, nothing, truth, int, word, words, numbers, get, Problem, latency_format, bandwidth_format,
  TypeError, check, is_int, is_negative, is_nothing, is_one_of, supported_execution,
  instance_count_problems, validate_base, protocols_problems, recovery_time_problems,
  format_problems, loss_problems, latency_units, bandwidth_units,
}
use krkn.NetworkChaos.Factory.{
  ConfigClass, network_filter_config, interface_down_config, network_chaos_config, has_fields,
  validate, ModuleClass, node_network_filter, pod_network_filter, pod_network_chaos,
  node_network_chaos, node_interface_down, vmi_network_chaos, vmi_network_filter, supported_modules,
  Module, FactoryError, invalid_id, validated, instance_of_id, get_instance,
}
use krkn.NetworkChaos.Factory.Laws.Formats.{
  Formatted, format_problems-Formatted, Allowed, protocols_problems-Allowed, check-good,
  append-empty, ok-inj,
}

-- The class of the configuration and the id of each module.
abbrev pub class_of : ModuleClass → ConfigClass
class_of node_network_filter = network_filter_config
class_of pod_network_filter = network_filter_config
class_of vmi_network_filter = network_filter_config
class_of pod_network_chaos = network_chaos_config
class_of node_network_chaos = network_chaos_config
class_of vmi_network_chaos = network_chaos_config
class_of node_interface_down = interface_down_config

abbrev pub id_of : ModuleClass → Text
id_of node_network_filter = text "node_network_filter"
id_of pod_network_filter = text "pod_network_filter"
id_of vmi_network_filter = text "vmi_network_filter"
id_of pod_network_chaos = text "pod_network_chaos"
id_of node_network_chaos = text "node_network_chaos"
id_of vmi_network_chaos = text "vmi_network_chaos"
id_of node_interface_down = text "node_interface_down"

-- The conditions on the fields that all configurations have.
abbrev pub IsValidBase : Dict Value → Type 0
IsValidBase config =
    (is_one_of supported_execution (get (text "execution") nothing config) ≡ true)
    × (is_int (get (text "wait_duration") nothing config) ≡ true)
    × (is_int (get (text "test_duration") nothing config) ≡ true)
    × (is_int (get (text "instance_count") nothing config) ≡ true)
    × (is_negative (get (text "instance_count") nothing config) ≡ false)

-- And on those of each class.
abbrev pub IsValidFor : ConfigClass → Dict Value → Type 0
IsValidFor network_filter_config config = Allowed (get (text "protocols") nothing config)
IsValidFor interface_down_config config =
    (is_int (get (text "recovery_time") (int (pos 0)) config) ≡ true)
    × (is_negative (get (text "recovery_time") (int (pos 0)) config) ≡ false)
IsValidFor network_chaos_config config =
    Formatted latency_units (get (text "latency") nothing config)
    × Formatted bandwidth_units (get (text "bandwidth") nothing config)

abbrev pub Accepted : Dict Value → Module → Type 0
Accepted config m =
    (m.config ≡ config)
    × (lookup (text "id") config ≡ some (word (id_of m.module_class)))
    × (has_fields (class_of m.module_class) config ≡ true)
    × IsValidBase config
    × IsValidFor (class_of m.module_class) config

instance_count-lem :
    (v : Value) → instance_count_problems v ≡ [] → (is_int v ≡ true) × (is_negative v ≡ false)
unfolding instance_count_problems check
instance_count-lem v h = ground arith

recovery_time-lem :
    (v : Value) → recovery_time_problems v ≡ [] → (is_int v ≡ true) × (is_negative v ≡ false)
unfolding recovery_time_problems check
recovery_time-lem v h = ground arith

validate_base-IsValidBase : (config : Dict Value) → validate_base config ≡ [] → IsValidBase config
unfolding validate_base
validate_base-IsValidBase config h =
    let (h1, f) = append-empty _ _ h in
    let (h2, e) = append-empty _ _ h1 in
    let (h3, d) = append-empty _ _ h2 in
    let (h4, c) = append-empty _ _ h3 in
    let (a, b) = append-empty _ _ h4 in
    let (i, j) = instance_count-lem _ f in
    (check-good _ _ b, check-good _ _ d, check-good _ _ e, i, j)

-- A call before `>>=` that did not raise.
>>=-ok :
    {A B : Type 0} (r : Result TypeError A) (f : A → Result TypeError B) (b : B)
    → (r >>= f) ≡ ok b
    → (a : A) × (r ≡ ok a) × (f a ≡ ok b)
>>=-ok (ok a) f b h = (a, refl, h)
>>=-ok (err e) f b h = absurd (ground arith)

validate-lem :
    (c : ConfigClass) (config : Dict Value)
    → validate c config ≡ ok []
    → IsValidBase config × IsValidFor c config
unfolding validate
validate-lem network_filter_config config h =
    let (more, p, q) = >>=-ok (protocols_problems (get (text "protocols") nothing config)) _ [] h in
    let (base, none_more) = append-empty _ _ (ok-inj [] _ _ q) in
    (validate_base-IsValidBase config base, protocols_problems-Allowed _ (p ∙ ap ok none_more))
validate-lem interface_down_config config h =
    let (base, time) = append-empty _ _ (ok-inj [] _ _ h) in
    (validate_base-IsValidBase config base, recovery_time-lem _ time)
validate-lem network_chaos_config config h =
    let (latency, p, h1) =
      >>=-ok (format_problems latency_units latency_format (get (text "latency") nothing config)) _
        [] h in
    let (bandwidth, q, h2) =
      >>=-ok
        (format_problems bandwidth_units bandwidth_format (get (text "bandwidth") nothing config)) _
        [] h1 in
    let (loss, r, h3) = >>=-ok (loss_problems (get (text "loss") nothing config)) _ [] h2 in
    let (front, none_loss) = append-empty _ _ (ok-inj [] _ _ h3) in
    let (front1, none_bandwidth) = append-empty _ _ front in
    let (base, none_latency) = append-empty _ _ front1 in
    (
      validate_base-IsValidBase config base,
      (
        format_problems-Formatted _ _ _ (p ∙ ap ok none_latency),
        format_problems-Formatted _ _ _ (q ∙ ap ok none_bandwidth),
      ),
    )

validated-lem :
    (c : ConfigClass) (mc : ModuleClass) (config : Dict Value) (m : Module)
    → validated c mc config ≡ ok m
    → (m ≡ record { module_class = mc; config = config })
      × (has_fields c config ≡ true)
      × IsValidBase config
      × IsValidFor c config
unfolding validated
validated-lem c mc config m h = elim (Bool-cases (has_fields c config)) [
  | inr e ↦ (let h' = rw (validated, e) at h in absurd (ground arith))
  | inl e ↦ elim (Result-cases (validate c config)) [
    | inr (x, f) ↦ (let h' = rw (validated, e, f) at h in absurd (ground arith))
    | inl ([], f) ↦
        let made : Module = record { module_class = mc; config = config } in
        let (base, more) = validate-lem c config f in
        (sym (ok-inj made made m (rw (validated, e, f) at h)), e, base, more)
    | inl (p ∷ ps, f) ↦ (let h' = rw (validated, e, f) at h in absurd (ground arith))
  ]
]

-- One branch of the factory, where the id is that of its module.
branch-Accepted :
    (mc : ModuleClass) (id : Text) (config : Dict Value) (m : Module)
    → lookup (text "id") config ≡ some (word id)
    → text_eq id (id_of mc) ≡ true
    → validated (class_of mc) mc config ≡ ok m
    → Accepted config m
branch-Accepted mc id config m l e h =
    let (made, fields, base, more) = validated-lem (class_of mc) mc config m h in
    rw made
      (refl, l ∙ ap (λ t. some (word t)) ((text_eq_iff id (id_of mc)).0 e), fields, base, more)

-- The branches from `node_interface_down` on.
last_branches :
    (id : Text) (config : Dict Value) (m : Module)
    → lookup (text "id") config ≡ some (word id)
    → (if text_eq id (text "node_interface_down")
        then validated interface_down_config node_interface_down config
        else if text_eq id (text "vmi_network_chaos")
        then validated network_chaos_config vmi_network_chaos config
        else if text_eq id (text "vmi_network_filter")
        then validated network_filter_config vmi_network_filter config
        else err invalid_id)
      ≡ ok m
    → Accepted config m
last_branches id config m l h = elim (Bool-cases (text_eq id (text "node_interface_down"))) [
  | inl a ↦ branch-Accepted node_interface_down id config m l a (rw a at h)
  | inr a ↦ elim (Bool-cases (text_eq id (text "vmi_network_chaos"))) [
    | inl b ↦ branch-Accepted vmi_network_chaos id config m l b (rw (a, b) at h)
    | inr b ↦ elim (Bool-cases (text_eq id (text "vmi_network_filter"))) [
      | inl c ↦ branch-Accepted vmi_network_filter id config m l c (rw (a, b, c) at h)
      | inr c ↦ (let h' = rw (a, b, c) at h in absurd (ground arith))
    ]
  ]
]

instance_of_id-Accepted :
    (id : Text) (config : Dict Value) (m : Module)
    → lookup (text "id") config ≡ some (word id)
    → instance_of_id id config ≡ ok m
    → Accepted config m
unfolding instance_of_id
instance_of_id-Accepted id config m l h =
    elim (Bool-cases (text_eq id (text "node_network_filter"))) [
      | inl a ↦ branch-Accepted node_network_filter id config m l a (rw (instance_of_id, a) at h)
      | inr a ↦ elim (Bool-cases (text_eq id (text "pod_network_filter"))) [
        | inl b ↦
            branch-Accepted pod_network_filter id config m l b (rw (instance_of_id, a, b) at h)
        | inr b ↦ elim (Bool-cases (text_eq id (text "pod_network_chaos"))) [
          | inl c ↦
              branch-Accepted pod_network_chaos id config m l c (rw (instance_of_id, a, b, c) at h)
          | inr c ↦ elim (Bool-cases (text_eq id (text "node_network_chaos"))) [
            | inl d ↦
                branch-Accepted node_network_chaos id config m l d
                  (rw (instance_of_id, a, b, c, d) at h)
            | inr d ↦ last_branches id config m l (rw (instance_of_id, a, b, c, d) at h)
          ]
        ]
      ]
    ]

-- A configuration that `get_instance` accepts gives the module that its id names, has the fields of its
-- class, and is valid: its execution is serial or parallel, the durations and the count are integers, the
-- count and a recovery time are not negative, its protocols are TCP and UDP, and its latency and its
-- bandwidth are digits with a unit.
pub get_instance-Accepted :
    (config : Dict Value) (m : Module) → get_instance config ≡ ok m → Accepted config m
unfolding get_instance
get_instance-Accepted config m h = elim (Option-cases (lookup (text "id") config)) [
  | inl e ↦ (let h' = rw (get_instance, e) at h in absurd (ground arith))
  | inr (nothing, e) ↦ (let h' = rw (get_instance, e) at h in absurd (ground arith))
  | inr (truth b, e) ↦ (let h' = rw (get_instance, e) at h in absurd (ground arith))
  | inr (int n, e) ↦ (let h' = rw (get_instance, e) at h in absurd (ground arith))
  | inr (words ws, e) ↦ (let h' = rw (get_instance, e) at h in absurd (ground arith))
  | inr (numbers ns, e) ↦ (let h' = rw (get_instance, e) at h in absurd (ground arith))
  | inr (word id, e) ↦ elim (Bool-cases (contains id supported_modules)) [
    | inl s ↦ instance_of_id-Accepted id config m e (rw (get_instance, e, s) at h)
    | inr s ↦ (let h' = rw (get_instance, e, s) at h in absurd (ground arith))
  ]
]

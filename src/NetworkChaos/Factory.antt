-- ===== src/NetworkChaos/Factory.antt =====
-- krkn/scenario_plugins/network_chaos_ng/network_chaos_factory.py: the module that a configuration names,
-- with the `validate` and the fields of its class in krkn/scenario_plugins/network_chaos_ng/models.py.
pub mod Laws
use krkn.Base.{
  Bool, true, false, not, ◌&&◌, Option, none, some, List, [], ◌∷◌, ◌++◌, map, all, if◌then◌else◌,
  is_empty,
}
use krkn.Base.Int.{pos}
use krkn.Base.Text.{Text, text, text_eq, contains}
use krkn.Base.Dict.{Dict, lookup}
use krkn.Base.Result.{Result, ok, err, ◌>>=◌}
use krkn.NetworkChaos.{
  Value, nothing, truth, int, word, words, numbers, get, Problem, latency_format, bandwidth_format,
  TypeError, validate_base, protocols_problems, recovery_time_problems, format_problems,
  loss_problems, latency_units, bandwidth_units,
}

pub data ConfigClass : Type 0 where
  network_filter_config interface_down_config network_chaos_config : ConfigClass

-- The fields that a configuration must have, and those that it may have.
unfoldable pub required_fields : ConfigClass → List Text
required_fields c =
    let common =
      text "id"
      ∷ text "image"
      ∷ text "wait_duration"
      ∷ text "test_duration"
      ∷ text "label_selector"
      ∷ text "service_account"
      ∷ text "taints"
      ∷ text "namespace"
      ∷ text "instance_count"
      ∷ text "execution"
      ∷ text "interfaces"
      ∷ text "target"
      ∷ [] in
    elim c [
      | interface_down_config ↦ common
      | network_filter_config ↦ common ++ text "ingress" ∷ text "egress" ∷ []
      | network_chaos_config ↦ common ++ text "ingress" ∷ text "egress" ∷ []
    ]

unfoldable pub optional_fields : ConfigClass → List Text
optional_fields network_filter_config = text "ports" ∷ text "protocols" ∷ []
optional_fields interface_down_config = text "ingress" ∷ text "egress" ∷ text "recovery_time" ∷ []
optional_fields network_chaos_config =
    text "latency" ∷ text "loss" ∷ text "bandwidth" ∷ text "force" ∷ []

-- `Class(**config)` does not raise.
unfoldable pub has_fields : ConfigClass → Dict Value → Bool
unfolding required_fields optional_fields
has_fields c config =
    let keys = map (λ (kv : Text × Value). kv.0) config in
    all (λ key. contains key (required_fields c ++ optional_fields c)) keys
    && all (λ key. contains key keys) (required_fields c)

-- `validate` of each class.
unfoldable pub validate : ConfigClass → Dict Value → Result TypeError (List Problem)
unfolding get
validate network_filter_config config =
    protocols_problems (get (text "protocols") nothing config) >>= λ more.
    ok (validate_base config ++ more)
validate interface_down_config config = ok (
    validate_base config
    ++ recovery_time_problems (get (text "recovery_time") (int (pos 0)) config))
validate network_chaos_config config =
    format_problems latency_units latency_format (get (text "latency") nothing config)
    >>= λ latency.
        format_problems bandwidth_units bandwidth_format (get (text "bandwidth") nothing config)
        >>= λ bandwidth. loss_problems (get (text "loss") nothing config) >>= λ loss.
            ok (validate_base config ++ latency ++ bandwidth ++ loss)

pub data ModuleClass : Type 0 where
  node_network_filter pod_network_filter pod_network_chaos node_network_chaos node_interface_down
        vmi_network_chaos vmi_network_filter :
      ModuleClass

abbrev pub supported_modules : List Text
supported_modules =
    text "node_network_filter"
    ∷ text "pod_network_filter"
    ∷ text "pod_network_chaos"
    ∷ text "node_network_chaos"
    ∷ text "node_interface_down"
    ∷ text "vmi_network_chaos"
    ∷ text "vmi_network_filter"
    ∷ []

pub record Module : Type 0 where
  pub module_class : ModuleClass
  pub config : Dict Value

pub data FactoryError : Type 0 where
  no_id id_none unsupported wrong_fields wrong_type invalid_id : FactoryError
  invalid : List Problem → FactoryError

-- One branch: the object is made and validated.
unfoldable pub validated : ConfigClass → ModuleClass → Dict Value → Result FactoryError Module
unfolding has_fields validate
validated c m config =
    if not (has_fields c config) then err wrong_fields else elim (validate c config) [
      | err e ↦ err wrong_type
      | ok problems ↦
          if is_empty problems
          then ok (record { module_class = m; config = config })
          else err (invalid problems)
    ]

-- The branches on `config["id"]`.
unfoldable pub instance_of_id : Text → Dict Value → Result FactoryError Module
unfolding validated
instance_of_id id config =
    if text_eq id (text "node_network_filter")
    then validated network_filter_config node_network_filter config
    else if text_eq id (text "pod_network_filter")
    then validated network_filter_config pod_network_filter config
    else if text_eq id (text "pod_network_chaos")
    then validated network_chaos_config pod_network_chaos config
    else if text_eq id (text "node_network_chaos")
    then validated network_chaos_config node_network_chaos config
    else if text_eq id (text "node_interface_down")
    then validated interface_down_config node_interface_down config
    else if text_eq id (text "vmi_network_chaos")
    then validated network_chaos_config vmi_network_chaos config
    else if text_eq id (text "vmi_network_filter")
    then validated network_filter_config vmi_network_filter config
    else err invalid_id

-- `get_instance`; every error is an exception.
unfoldable pub get_instance : Dict Value → Result FactoryError Module
unfolding instance_of_id
get_instance config = elim (lookup (text "id") config) [
  | none ↦ err no_id
  | some nothing ↦ err id_none
  | some (truth b) ↦ err unsupported
  | some (int n) ↦ err unsupported
  | some (words ws) ↦ err unsupported
  | some (numbers ns) ↦ err unsupported
  | some (word id) ↦
      if contains id supported_modules then instance_of_id id config else err unsupported
]

-- ===== src/NetworkChaos/Tests.antt =====
-- A run of krkn/scenario_plugins/network_chaos_ng: two of three nodes, one after the other.
use krkn.Base.{ℕ, suc, refl, true, false, some, [], ◌∷◌, take}
use krkn.Base.Int.{pos}
use krkn.Base.Text.{text, text_eq, contains, isdigit}
use krkn.Base.Dict.{Dict, lookup}
use krkn.NetworkChaos.{
  Value, nothing, truth, int, word, words, validate_base, format_problems, loss_problems,
}
use krkn.NetworkChaos.Factory.{Module, node_network_chaos, get_instance, has_fields}
use krkn.NetworkChaos.Factory.Laws.{Accepted, get_instance-Accepted}
use krkn.NetworkChaos.Plugin.{Outside, ChaosState}

abbrev config : Dict Value
config =
    (text "id", word (text "node_network_chaos"))
    ∷ (text "image", word (text "tools"))
    ∷ (text "wait_duration", int (pos 1))
    ∷ (text "test_duration", int (pos 60))
    ∷ (text "label_selector", word (text "worker"))
    ∷ (text "service_account", word [])
    ∷ (text "taints", words [])
    ∷ (text "namespace", word (text "default"))
    ∷ (text "instance_count", int (pos 2))
    ∷ (text "execution", word (text "serial"))
    ∷ (text "interfaces", words [])
    ∷ (text "target", nothing)
    ∷ (text "ingress", truth true)
    ∷ (text "egress", truth true)
    ∷ (text "latency", word (text "50ms"))
    ∷ (text "loss", word (text "10"))
    ∷ []

abbrev chaos : Module
chaos = record { module_class = node_network_chaos; config = config }

get_instance-Accepted_example : Accepted config chaos
unfolding get_instance has_fields validate_base format_problems loss_problems contains text_eq
    lookup isdigit
get_instance-Accepted_example = get_instance-Accepted config chaos refl

abbrev outside : Outside
outside = record {
  W = ℕ;
  get_targets = λ m w. (some (text "a" ∷ text "b" ∷ text "c" ∷ []), w);
  run_module = λ queue m target w. (false, [], suc w);
  sample = λ n targets w. (take n targets, w);
  sleep = λ n w. suc w;
}

abbrev fresh : ChaosState ℕ
fresh = record { attempts = []; world = 0 }

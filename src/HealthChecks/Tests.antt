-- ===== src/HealthChecks/Tests.antt =====
-- Runs of krkn/health_checks: an endpoint that fails once, two that are polled in turn, and a factory
-- with three modules.
use krkn.Base.{
  map, Bool, not, ◌&&◌, ◌≤◌, ℕ, suc, ◌==◌, ◌≡◌, inr, refl, true, false, none, some, List, [], ◌∷◌,
  all, any, keep, All, if◌then◌else◌, length, arith,
}
use krkn.Base.Text.{Text, text, text_eq}
use krkn.Base.Dict.{lookup}
use krkn.HealthChecks.{HealthCheckPlugin, MainCall, increment, apply_all, keeps_polling}
use krkn.HealthChecks.Http.{
  CheckConfig, HttpConfig, HealthCheck, Outside, request_for, is_defined, run_health_check,
}
use krkn.HealthChecks.Http.Periods.{Sample, concerns, periods}
use krkn.HealthChecks.Http.Laws.{put_list, run_health_check_refines, run_health_check_ends}
use krkn.HealthChecks.Http.Outage.{single_outage_lost}
use krkn.HealthChecks.Virt
use krkn.HealthChecks.Virt.{Vm, Vmi, VirtConfig, Entry, VirtCheck, batch_size, batch_list}
use krkn.HealthChecks.Virt.Batches.{flatten, batch_list_lem}
use krkn.HealthChecks.Virt.Thread.{sample_vm, run_virt_check_batch}
use krkn.HealthChecks.Virt.Thread.Laws.{reports}
use krkn.HealthChecks.Virt.Thread.Samples.{failures_reported}
use krkn.HealthChecks.Factory.{
  Checker, HealthCheckClass, Module, HealthCheckFactory, new_plugin, start_all, stop_all,
}
use krkn.HealthChecks.Factory.Laws.{Active, count, HasEnded, started_end}

-- The clock counts requests; the second request fails.
abbrev outside : Outside
outside = record {
  W = ℕ;
  http_get = λ url auth authorization verify n. (if n == 1 then none else some 200, suc n);
  now = λ n. n;
  sleep = λ interval n. n;
}

abbrev endpoint : Text → CheckConfig
endpoint url = record {
  url = url;
  bearer_token = text "token";
  auth = text "user,secret";
  verify_url = true;
  exit_on_failure = true;
}

abbrev config : HttpConfig
config = record { interval = 2; config = endpoint (text "a") ∷ [] }

abbrev plugin : HealthCheckPlugin
plugin = new_plugin (text "http_health_check") (some 2)

abbrev schedule : List (List MainCall)
schedule = [] ∷ [] ∷ (increment ∷ []) ∷ (increment ∷ []) ∷ []

abbrev counted : HealthCheckPlugin
counted = record plugin { current_iterations = 2 }

abbrev sample : ℕ → ℕ → Sample
sample status_code time = record {
  url = text "a";
  status_code = status_code;
  time = time;
  exit_on_failure = true;
}

run_health_check_refines_example :
    keep (concerns (text "a")) (put_list (run_health_check outside schedule config plugin 0).0)
    ≡ periods (text "a") 3 none (sample 200 1 ∷ sample 500 2 ∷ sample 200 3 ∷ [])
unfolding is_defined keeps_polling apply_all request_for text_eq
run_health_check_refines_example =
    run_health_check_refines outside schedule config plugin counted
      (sample 200 1 ∷ sample 500 2 ∷ sample 200 3 ∷ []) 0 3 (text "a") refl refl

run_health_check_ends_example :
    (r : HealthCheckPlugin × List (List HealthCheck)) × ((run_health_check outside schedule config
        plugin 0).0
      ≡ some r)
    × (length r.1 ≡ (if is_defined config then 1 else 0))
run_health_check_ends_example =
    run_health_check_ends outside schedule config plugin 0 2 (inr (refl, refl, omega arith))

-- Two endpoints, of which the first one fails in its second poll.
abbrev outside_two : Outside
outside_two = record {
  W = ℕ;
  http_get = λ url auth authorization verify n. (if n == 2 then none else some 200, suc n);
  now = λ n. n;
  sleep = λ interval n. n;
}

abbrev config_two : HttpConfig
config_two = record { interval = 2; config = endpoint (text "a") ∷ endpoint (text "b") ∷ [] }

abbrev other : ℕ → Sample
other time = record { url = text "b"; status_code = 200; time = time; exit_on_failure = true }

single_outage_lost_example :
    (p : HealthCheckPlugin) × (records : List (List HealthCheck)) × ((run_health_check outside_two
        schedule config_two plugin 0).0
      ≡ some (p, records))
    × (p.ret_value ≡ 0)
    × (all
          (λ (h : HealthCheck). h.status)
          (keep (concerns (text "a")) (put_list (some (p, records))))
        ≡ true)
unfolding is_defined keeps_polling apply_all request_for text_eq
single_outage_lost_example =
    single_outage_lost outside_two schedule config_two plugin counted 0 6 (text "a") (sample 200 1)
      (sample 500 3) (sample 200 1 ∷ other 2 ∷ sample 500 3 ∷ other 4 ∷ sample 200 5 ∷ other 6 ∷ [])
      [] (sample 200 5 ∷ []) refl refl refl refl (refl, refl) tt (λ e. ground arith)
      ((refl, refl), tt)

abbrev http_class : HealthCheckClass
http_class = record {
  class_name = text "HttpHealthCheckPlugin";
  health_check_types = text "http_health_check" ∷ [];
  config_key = text "health_checks";
  manages_own_threads = false;
}

abbrev virt_class : HealthCheckClass
virt_class = record {
  class_name = text "VirtHealthCheckPlugin";
  health_check_types = text "virt_health_check" ∷ text "vm_health_check" ∷ [];
  config_key = text "kubevirt_checks";
  manages_own_threads = true;
}

abbrev modules : List Module
modules =
    record {
      module_name = text "krkn.health_checks.http_health_check_plugin";
      is_pkg = false;
      classes = some (http_class ∷ []);
    }
    ∷ record {
      module_name = text "krkn.health_checks.virt_health_check_plugin";
      is_pkg = false;
      classes = some (virt_class ∷ []);
    }
    ∷ record {
      module_name = text "krkn.health_checks.health_check_factory";
      is_pkg = false;
      classes = none;
    }
    ∷ []

abbrev empty_factory : HealthCheckFactory
empty_factory = record {
  loaded_plugins = [];
  failed_plugins = [];
  config_key_map = [];
  active_plugins = [];
}

abbrev factory : HealthCheckFactory
factory = record {
  loaded_plugins =
      (text "http_health_check", http_class)
      ∷ (text "virt_health_check", virt_class)
      ∷ (text "vm_health_check", virt_class)
      ∷ [];
  failed_plugins = [];
  config_key_map =
      (text "health_checks", text "http_health_check")
      ∷ (text "kubevirt_checks", text "virt_health_check")
      ∷ [];
  active_plugins = [];
}

started_end_example :
    (map (λ (c : Checker). c.health_check_type) (start_all (λ k. true) none factory).0
      ≡ text "http_health_check" ∷ text "virt_health_check" ∷ [])
    × All
        (Active HasEnded (count 2 (start_all (λ k. true) (some 2) factory).1).active_plugins)
        (start_all (λ k. true) (some 2) factory).0
    × All
        (Active HasEnded (stop_all (start_all (λ k. true) none factory).1).active_plugins)
        (start_all (λ k. true) none factory).0
unfolding lookup text_eq
started_end_example = started_end (λ k. true) 2 none factory (refl, (refl, tt))

-- A machine whose second check fails, in a thread that reports failures only.
abbrev virt_world : Virt.Outside
virt_world = record {
  W = ℕ;
  virtctl = λ target namespace n. (not (n == 2) && not (n == 3), suc n);
  ssh = λ host ip_address n. (false, n);
  get_vmi = λ name namespace n. some (
      some (record {
        name = name;
        namespace = namespace;
        node_name = text "node";
        interfaces = text "10.0.0.1" ∷ [];
        phase = text "Running";
        conditions = (text "Ready", text "True") ∷ [];
      }));
  now = λ n. n;
  sleep = λ interval n. n;
}

abbrev virt_config : VirtConfig
virt_config = record {
  namespace = text "ns";
  disconnected = false;
  only_failures = true;
  interval = 2;
  ssh_node = [];
  node_names = [];
  exit_on_failure = true;
}

abbrev machine : Vm
machine = record {
  vm_name = text "vm";
  ip_address = text "10.0.0.1";
  namespace = text "ns";
  node_name = text "node";
  new_ip_address = [];
}

abbrev check : Bool → ℕ → Entry
check ssh_status n = record {
  vm = machine;
  ssh_status = ssh_status;
  ready = true;
  start_timestamp = n;
}

failures_reported_example :
    (records : List VirtCheck) × (run_virt_check_batch virt_world schedule virt_config plugin
        (machine ∷ [])
        1
      ≡ (some records, 5))
    × (any (reports (text "vm")) records ≡ true)
unfolding keeps_polling apply_all sample_vm text_eq
failures_reported_example =
    failures_reported virt_world schedule virt_config plugin (machine ∷ [])
      (check true 2 ∷ check false 4 ∷ check true 5 ∷ []) 1 5 (text "vm") refl refl

batch_list_lem_example :
    (flatten (batch_list 2 (machine ∷ machine ∷ machine ∷ [])) ≡ machine ∷ machine ∷ machine ∷ [])
    × (length (batch_list 2 (machine ∷ machine ∷ machine ∷ [])) ≤ 2)
    × All
        (λ (batch : List Vm). length batch ≤ batch_size 3 2)
        (batch_list 2 (machine ∷ machine ∷ machine ∷ []))
batch_list_lem_example = batch_list_lem 2 (machine ∷ machine ∷ machine ∷ []) (omega arith)

-- ===== src/Lib.antt =====
-- Verification of krkn, a chaos testing tool for Kubernetes: the loop of a run with its health checks
-- and exit code, the scoring of a run, the rollback of what a scenario changed, the triggers that a run
-- waits for, the signal of Cerberus, the disruption of pods
-- and of virtual machines, and chaos on networks.
--
-- The program. `run_kraken.py` reads a configuration, waits for its triggers, starts health checks in
-- threads, runs scenarios by plugins, iteration by iteration, and scores the run against SLOs that
-- Prometheus answers; what failed is in its exit code. A plugin that changes the cluster
-- writes a version file with a callable that undoes it; a failed scenario or a signal runs these.
--
-- The files.
--   Base: shared types and lemmas. Base/Text is Python text as code points, Base/Dict a dict in the
--     order of insertion, Base/Result a call that returns or raises, Base/Int the integers, and
--     Base/Float an interface of what the program uses of floats, with the laws of correct rounding;
--     Base/Float/Fixed shows that the interface can be met.
--   Resiliency/Score: `krkn/resiliency/score.py`. Resiliency/Collector:
--     `krkn/prometheus/collector.py`. Resiliency/Orchestrator: the class of
--     `krkn/resiliency/resiliency.py`, each method a function from the object to its result and the
--     object after; its child Telemetry has the methods on telemetry items. Resiliency/History:
--     `krkn/resiliency/history.py`.
--   Rollback/Names, Rollback/Config and Rollback/Files: `krkn/rollback/config.py`, that is the names of
--     files and directories, the configuration, and the search in the versions directory, which is a
--     dict of dicts. Rollback/Handler: `krkn/rollback/handler.py` with `execute_rollback` of
--     `krkn/rollback/command.py`; its child Context has `RollbackHandler` and `Version.new_version`.
--     Rollback/Signal: `krkn/rollback/signal.py`.
--   Triggers/Values: the values of a configuration and of a Kubernetes object. Triggers/Condition,
--     Triggers/Kinds and Triggers/Manager: `krkn/scenario_plugins/triggers`, and the block of
--     `run_kraken.py` on `config["triggers"]`.
--   Runner: `run_scenarios` of `krkn/scenario_plugins/abstract_scenario_plugin.py`, over the model of
--     the rollback. The plugin's `run` is a parameter, which may write version files. Its child Factory:
--     `krkn/scenario_plugins/scenario_plugin_factory.py`, whose classes are those that a walk over the
--     package finds.
--   Main: the loop of `main` in `run_kraken.py` over iterations and scenarios, with the run signals of the
--     status server, over the factories of scenarios and of health checks. Main/Exit: the exit code.
--     Main/Laws carries a condition through the loop; Main/Outcome, Main/Signals and Main/Alerting use it.
--   Alerts: `critical_alerts` of `krkn/prometheus/client.py`, which adds to the one summary of a run.
--   HealthChecks: the object of a plugin, which two threads share
--     (`krkn/health_checks/abstract_health_check_plugin.py`). HealthChecks/Http:
--     `krkn/health_checks/http_health_check_plugin.py`. The calls of the main thread are a schedule, one
--     list of calls for each test of the loop. Http/Periods says what one endpoint contributes, Http/Refine
--     and Http/Loop lead the thread back to it. HealthChecks/Factory:
--     `krkn/health_checks/health_check_factory.py`. HealthChecks/Virt:
--     `krkn/health_checks/virt_health_check_plugin.py`, that is the batches of machines and the tracker; its
--     child Thread has the access to a machine, the loop of a thread, under such a schedule, and the
--     checks after a run, and Thread/Samples leads the loop back to the samples it takes.
--   Cerberus: `krkn/cerberus/setup.py`, the go or no-go signal after a scenario.
--   PodDisruption: `krkn/scenario_plugins/pod_disruption`, with its parameters, the selection, the deletion
--     and the wait; its child Plugin has `run`.
--   NetworkChaos: `krkn/scenario_plugins/network_chaos_ng`, that is the validation of its `models.py`, the
--     factory of `network_chaos_factory.py` in the child Factory, and `run` in the child Plugin. A
--     configuration is the dict that it is read from, with the values of YAML but floats, dicts and lists of mixed elements.
--   VmOutage: `krkn/scenario_plugins/kubevirt_vm_outage`, the deletion of a machine and the waits; its
--     child Plugin has `execute_scenario` and `run`.
--
-- Parameters. The Prometheus client, the file system's refusals, the loading of a Python module, the
-- callables, the clock, a shell, HTTP and the Kubernetes client are arguments of the definitions that
-- use them; so are the reading of floats and of dates. A theorem that needs a law of them names it.
--
-- Bounds. Loops are recursion on lists, but for the polling loop of `wait_for_triggers`, which has one
-- unit of fuel for each tick of the timeout and one more: a round that goes on sleeps at least one
-- tick, so this is enough, which is proved. The loop of `main` has one unit for each iteration that is left and
-- one more, and the waits for pods and for machines one for each second of the timeout and one more; they
-- are proved to be enough under the conditions that the results name. A daemon has no such number.
-- Integers are unbounded, as in Python. Texts are ASCII. A timeout or an
-- interval of the triggers is a finite float, tested as one and then taken in ticks of the clock; other
-- times are whole seconds, and the weights of SLOs integers.
--
-- Not modelled: logging; the other scenario plugins; the modules that change a network; the reading of the
-- configuration of the checks of machines, and of `run_kraken.py` the reading of the configuration and the reports; what the runner collects after a
-- scenario; the template that a callable is serialised with; threads but for the health checks, whose
-- interleaving with the main thread is a schedule, and the parallel deletion of pods, which is an order.
pub mod Alerts
pub mod Base
pub mod Cerberus
pub mod HealthChecks
pub mod Main
pub mod NetworkChaos
pub mod PodDisruption
pub mod Resiliency
pub mod Rollback
pub mod Runner
pub mod Triggers
pub mod VmOutage

-- ===== src/Examples/Orders.antt =====
-- The goroutines of metering.go, perf.go and dtstats.go.
use prometheus_obs_exporter.Prelude.{
  ℕ, ◌≡◌, refl, sym, ap, arith, true, some, List, [], ◌∷◌, concat_map, Perm, is_some, ◌==◌, utf8,
}
use mathlib.Core.List.Perm
use prometheus_obs_exporter.Obsclient.Net.{Net}
use prometheus_obs_exporter.Goroutines.{System, place, total, launched, Steps, AllOver}
use prometheus_obs_exporter.Goroutines.Progress.{Steps-finish}
use prometheus_obs_exporter.Goroutines.Cells.{Has}
use prometheus_obs_exporter.Obsclient.Client.{Session}
use prometheus_obs_exporter.Obsclient.DtStats.{NodeDtStats, zeroed}
use prometheus_obs_exporter.Obsclient.DtStats.Tasks.{node_tasks, GivenAt, slots_interleaved}
use prometheus_obs_exporter.Collector.Metering.Tasks.{metering_tasks, capacity}
use prometheus_obs_exporter.Collector.Metering.Limits.{IsAllowed, fan_out-Limited}
use prometheus_obs_exporter.Collector.Perf.Updates.{Update, gather}
use prometheus_obs_exporter.Collector.Perf.Tasks.{perf_tasks}
use prometheus_obs_exporter.Obsclient.Auth.Steady.{Steady}
use prometheus_obs_exporter.Obsclient.Types.{NamespaceRef, NamespaceQuota, NamespaceBillingInfo}
use prometheus_obs_exporter.Collector.Metrics.{Metric}
use prometheus_obs_exporter.Collector.Run.{Env, Run, done, new_run}
use prometheus_obs_exporter.Collector.Metering.{concurrency_of, fan_out}
use prometheus_obs_exporter.Collector.Series.{HasDistinctSeries, HasDistinctNames, not_same}
use prometheus_obs_exporter.Collector.Metering.Series.Goroutines.{fan_out-HasDistinctSeries}
use prometheus_obs_exporter.Collector.Metering.Orders.{interleaved-Perm}
use prometheus_obs_exporter.Collector.Perf.{Gathered, run_queries}
use prometheus_obs_exporter.Collector.Perf.Orders.{queries_interleaved-Perm, nothing_yet, positions}
use prometheus_obs_exporter.Exporter.Handler.{settings_of}
use prometheus_obs_exporter.Examples.Target.{target_net, served, session_with, client_with}
use prometheus_obs_exporter.Examples.Floats.{floats, decoders}
use prometheus_obs_exporter.Examples.World.{env, exporter_config}

-- A target that answers every request with an empty object.
abbrev open_net : Net
open_net = record { builds = λ _. true; answer = λ _ _. some served; path_escape = λ s. s }

open_net-Steady : Steady open_net
open_net-Steady = record {
  memoryless = λ _ _ _. refl;
  accepts = λ _ _ resp came. let same : served ≡ resp = cc in ap (λ r. r.status == 401) (sym same);
}

abbrev quota : NamespaceQuota
quota = record { namespace = "ns1"; block_size = b'5' ∷ []; notification_size = b'4' ∷ [] }

abbrev usage : NamespaceBillingInfo
usage = record { namespace = "ns1"; total_size = b'7' ∷ []; total_objects = b'9' ∷ [] }

abbrev open_env : Env ℕ (List (Metric ℕ))
open_env = record env {
  net = open_net;
  dec = record decoders { namespace_quota = λ _. some quota; namespace_billing = λ _. some usage };
}

abbrev ready : Run (List (Metric ℕ))
ready = new_run open_env (session_with "t1") (settings_of exporter_config)

abbrev namespaces : List NamespaceRef
namespaces = record { id = "a"; name = "ns1" } ∷ record { id = "b"; name = "ns2" } ∷ []

abbrev back : List ℕ
back = 1 ∷ 0 ∷ []

-- A run of the goroutines of the two namespaces, in which all end.
abbrev metering_end :
    (q : System (Run (List (Metric ℕ))) (List (Metric ℕ))) × Steps 4
      (launched (metering_tasks open_env namespaces) ready)
      q
    × AllOver q
metering_end = Steps-finish 4 (omega arith) (launched (metering_tasks open_env namespaces) ready)

interleaved-Perm_example :
    (ms : List (Metric ℕ)) × (end : Run (List (Metric ℕ))) × (fan_out open_env namespaces back []
        ready
      ≡ done ms end)
    × Perm (concat_map (λ own. own) metering_end.0.arrived) ms
unfolding new_run
interleaved-Perm_example =
    interleaved-Perm open_env open_net-Steady (client_with "t1") refl 4 namespaces back ready
      metering_end.0 refl (Perm.swap 0 1 []) metering_end.1 metering_end.2

abbrev perf_start : System (Run (List (Metric ℕ)) × List (Update ℕ)) (Unit {0})
perf_start = launched (perf_tasks open_env "vdc1" (utf8 "5m")) (ready, [])

abbrev perf_end :
    (q : System (Run (List (Metric ℕ)) × List (Update ℕ)) (Unit {0})) × Steps 6 perf_start q
    × AllOver q
perf_end = Steps-finish 6 (omega arith) perf_start

queries_interleaved-Perm_example :
    (g : Gathered ℕ) × (end : Run (List (Metric ℕ))) × (run_queries open_env "vdc1"
        (utf8 "5m")
        positions
        nothing_yet
        ready
      ≡ done g end)
    × Perm (gather perf_end.0.state.1 nothing_yet).metrics g.metrics
    × (is_some (gather perf_end.0.state.1 nothing_yet).first_err ≡ is_some g.first_err)
unfolding new_run
queries_interleaved-Perm_example =
    queries_interleaved-Perm open_env open_net-Steady (client_with "t1") refl "vdc1" (utf8 "5m") 6
      positions ready perf_end.0 refl (Perm.refl positions) perf_end.1 perf_end.2

fan_out-Limited_example :
    IsAllowed (total place metering_end.0.slots) ready.settings.metering_concurrency
    × ((end : System (Run (List (Metric ℕ))) (List (Metric ℕ))) × Steps
          (capacity open_env ready)
          metering_end.0
          end
        × AllOver end)
unfolding new_run concurrency_of settings_of
fan_out-Limited_example = fan_out-Limited open_env namespaces ready metering_end.0 metering_end.1

abbrev node_start : System (Session × List (NodeDtStats ℕ)) (Unit {0})
node_start =
    launched (node_tasks target_net floats decoders 0 ("n1" ∷ "n2" ∷ []))
      (session_with "", zeroed target_net floats decoders ("n1" ∷ "n2" ∷ []))

abbrev node_end :
    (q : System (Session × List (NodeDtStats ℕ)) (Unit {0})) × Steps 2 node_start q × AllOver q
node_end = Steps-finish 2 (omega arith) node_start

slots_interleaved_example :
    Has (GivenAt target_net floats decoders ("n1" ∷ "n2" ∷ [])) 1 node_end.0.state.1
slots_interleaved_example =
    slots_interleaved target_net floats decoders 2 ("n1" ∷ "n2" ∷ []) (session_with "") node_end.0
      node_end.1 node_end.2 1 (omega arith)

two_names : HasDistinctNames (λ n. n.name) namespaces
two_names = ((not_same "ns1" "ns2" refl, tt), (tt, tt))

each_once : HasDistinctNames (λ i. i) back
each_once = ((omega arith, tt), (tt, tt))

fan_out-HasDistinctSeries_example :
    (ms : List (Metric ℕ)) × (end : Run (List (Metric ℕ))) × (fan_out open_env namespaces back []
        ready
      ≡ done ms end)
    × HasDistinctSeries ms
fan_out-HasDistinctSeries_example =
    fan_out-HasDistinctSeries open_env namespaces back ready two_names each_once

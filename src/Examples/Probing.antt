-- ===== src/Examples/Probing.antt =====
-- Collectors and requests of internal/collector/probe.go.
use prometheus_obs_exporter.Prelude.{
  ℕ, String, Bool, false, ◌≡◌, refl, none, List, [], ◌∷◌, ◌++◌, utf8,
}
use prometheus_obs_exporter.Collector.Metrics.{gauge, Metric}
use prometheus_obs_exporter.Collector.Run.{
  Run, Act, done, Fetched, failed, new_run, local_zone, nodes, must_register,
}
use prometheus_obs_exporter.Collector.Cluster.{collect_cluster, with_zone}
use prometheus_obs_exporter.Collector.Replication.{collect_replication, with_groups}
use prometheus_obs_exporter.Obsclient.Apis.{get_local_zone, get_nodes, get_replication_groups}
use prometheus_obs_exporter.Obsclient.Auth.{
  post_authenticated_json, get_authenticated_json, call_authenticated_json, ensure_logged_in,
  request_with_token, settle, read_answer,
}
use prometheus_obs_exporter.Collector.Probe.{
  run_collector, run_collectors, registry, judged, probe, must_new_const_metric,
}
use prometheus_obs_exporter.Collector.Probe.Failed.{failed_registers_nothing}
use prometheus_obs_exporter.Obsclient.Types.{Node}
use prometheus_obs_exporter.Obsclient.Net.{transport}
use prometheus_obs_exporter.Collector.Probe.Verdicts.{
  Trail, success_metrics, duration_metrics, probe_verdicts,
}
use prometheus_obs_exporter.Collector.Perf.{
  Gathered, read_tps_desc, run_queries, run_query, with_results, query_metrics, find_field, sum_tps,
}
use prometheus_obs_exporter.Obsclient.Flux.{query_flux}
use prometheus_obs_exporter.Collector.Perf.Kept.{Extends, run_queries-Extends}
use prometheus_obs_exporter.Exporter.Handler.{settings_of}
use prometheus_obs_exporter.Examples.Target.{session_with}
use prometheus_obs_exporter.Examples.World.{env, exporter_config}

abbrev R : Type 0
R = List (Metric ℕ)

abbrev state_of : {A : Type 0} → Act R A → Run R
state_of (Act.done a run) = run
state_of (Act.panic run) = run

abbrev result_of : {A : Type 0} → Act R A → A → A
result_of (Act.done a run) otherwise = a
result_of (Act.panic run) otherwise = otherwise

abbrev start : Run R
start = new_run env (session_with "") (settings_of exporter_config)

-- The cluster's collector asks for the local zone and for the nodes.
abbrev cluster_run : Run R
cluster_run = state_of (run_collector env "cluster" start)

-- The answer of the replication groups does not decode.
abbrev replication_run : Run R
replication_run = state_of (run_collector env "replication" cluster_run)

replication_ends : run_collector env "replication" cluster_run ≡ done false replication_run
unfolding run_collector registry collect_replication get_replication_groups with_groups
    collect_cluster local_zone new_run get_local_zone get_authenticated_json call_authenticated_json
    ensure_logged_in request_with_token settle read_answer with_zone nodes get_nodes must_register
    judged
replication_ends = refl

failed_registers_nothing_example : replication_run.registry ≡ cluster_run.registry
failed_registers_nothing_example =
    failed_registers_nothing env cluster_run "replication" replication_run replication_ends

-- The zone and the nodes have been asked for.
abbrev zone_run : Run R
zone_run = state_of (local_zone env start)

abbrev nodes_run : Run R
nodes_run = state_of (nodes env zone_run)

abbrev no_nodes : Fetched (List Node)
no_nodes = result_of (nodes env zone_run) (failed transport)

abbrev last_run : Run R
last_run = state_of (run_collector env "replication" nodes_run)

abbrev names : List String
names = "cluster" ∷ "capacity" ∷ []

abbrev end : Run R
end = state_of (probe env (session_with "") (settings_of exporter_config) names)

probed : probe env (session_with "") (settings_of exporter_config) names ≡ done tt end
unfolding probe run_collectors run_collector registry collect_cluster local_zone new_run
    get_local_zone get_authenticated_json call_authenticated_json ensure_logged_in
    request_with_token settle read_answer with_zone nodes get_nodes must_register judged
    must_new_const_metric
probed = refl

probe_verdicts_example :
    (bs : List Bool) × (last : Run R) × Trail env names start bs last
    × (must_register env (success_metrics env names bs ++ duration_metrics env 0 names) last
        ≡ done tt end)
probe_verdicts_example =
    probe_verdicts env (session_with "") (settings_of exporter_config) names end probed

abbrev gathered : Gathered ℕ
gathered = record { metrics = gauge read_tps_desc 5 ("vdc1" ∷ []) ∷ []; first_err = none }

-- The six queries find nothing.
abbrev queried : Act R (Gathered ℕ)
queried = run_queries env "vdc1" (utf8 "5m") (env.order 6) gathered start

queries_end : queried ≡ done gathered (state_of queried)
unfolding run_queries run_query query_flux post_authenticated_json call_authenticated_json
    ensure_logged_in new_run request_with_token settle read_answer with_results query_metrics
    find_field sum_tps
queries_end = refl

run_queries-Extends_example : Extends env "vdc1" (utf8 "5m") gathered gathered
run_queries-Extends_example =
    run_queries-Extends env "vdc1" (utf8 "5m") (env.order 6) gathered gathered start
      (state_of queried) queries_end

-- ===== src/Examples/Series.antt =====
-- The series of a zone, of two replication groups, of two nodes and of two queries.
use prometheus_obs_exporter.Prelude.{
  refl, ap, ◌≢◌, concat_map, String, none, some, List, [], ◌∷◌, ◌++◌, ℕ,
}
use prometheus_obs_exporter.Obsclient.Net.{transport}
use prometheus_obs_exporter.Obsclient.Types.{ReplicationGroup}
use prometheus_obs_exporter.Obsclient.DtStats.{NodeDtStats}
use prometheus_obs_exporter.Collector.Cluster.{zone_metrics, info_metric}
use prometheus_obs_exporter.Collector.Replication.{groups_metrics}
use prometheus_obs_exporter.Collector.Node.{node_dt_metrics}
use prometheus_obs_exporter.Prelude.Dict.{find}
use prometheus_obs_exporter.Obsclient.Flux.{FluxResult}
use prometheus_obs_exporter.Collector.Perf.{throughput, error_head, query_metrics}
use prometheus_obs_exporter.Collector.Perf.Series.{HasDistinctResults}
use prometheus_obs_exporter.Collector.Perf.Series.Queries.{Given, queries-HasDistinctSeries}
use prometheus_obs_exporter.Collector.Series.{HasDistinctSeries, not_same}
use prometheus_obs_exporter.Collector.Series.Sources.{
  cluster-HasDistinctSeries, groups-HasDistinctSeries, nodes-HasDistinctSeries,
}
use prometheus_obs_exporter.Examples.Floats.{floats, some_zone}

cluster-HasDistinctSeries_example :
    HasDistinctSeries (zone_metrics floats some_zone ++ info_metric floats some_zone "4.1" ∷ [])
cluster-HasDistinctSeries_example = cluster-HasDistinctSeries floats some_zone "4.1"

abbrev group_named : String → ReplicationGroup
group_named name = record {
  name = name;
  replication_ingress_traffic = b'5' ∷ [];
  replication_egress_traffic = [];
  chunks_repo_pending_replication_total_size = b'7' ∷ [];
  chunks_journal_pending_replication_total_size = [];
  chunks_pending_xor_total_size = b'1' ∷ [];
  replication_rpo_timestamp = b'9' ∷ [];
}

abbrev groups : List ReplicationGroup
groups = group_named "rg1" ∷ group_named "rg2" ∷ []

groups-HasDistinctSeries_example : HasDistinctSeries (groups_metrics floats groups)
groups-HasDistinctSeries_example =
    groups-HasDistinctSeries floats groups ((not_same "rg1" "rg2" refl, tt), (tt, tt))

abbrev stats_of : String → NodeDtStats ℕ
stats_of node = record {
  node = node;
  total_dt = 8;
  unready_dt = 1;
  unknown_dt = 0;
  active_connections = 3;
  error = none;
}

abbrev stats : List (NodeDtStats ℕ)
stats = stats_of "10.0.0.1" ∷ record (stats_of "10.0.0.2") { error = some transport } ∷ []

nodes-HasDistinctSeries_example : HasDistinctSeries (node_dt_metrics stats)
nodes-HasDistinctSeries_example =
    nodes-HasDistinctSeries stats ((not_same "10.0.0.1" "10.0.0.2" refl, tt), (tt, tt))

abbrev result_of : String → String → FluxResult ℕ
result_of field head = record {
  measurement = "";
  field = field;
  value = 3;
  time = 0;
  tags = ("head", head) ∷ [];
}

abbrev bytes : List (FluxResult ℕ)
bytes = result_of "total_read_requests_size" "" ∷ result_of "total_write_requests_size" "" ∷ []

-- The errors of two protocols.
abbrev errors : List (FluxResult ℕ)
errors = result_of "user_errors" "S3" ∷ result_of "user_errors" "SWIFT" ∷ []

two_fields : HasDistinctResults throughput bytes
two_fields = ((not_same "total_read_requests_size" "total_write_requests_size" refl, tt), (tt, tt))

two_heads : HasDistinctResults error_head errors
unfolding find
two_heads = ((λ e. not_same "S3" "SWIFT" refl (ap (λ x. x.1) e), tt), (tt, tt))

abbrev asked : List (Given ℕ)
asked =
    record { query = error_head; results = errors; distinct = two_heads }
    ∷ record { query = throughput; results = bytes; distinct = two_fields }
    ∷ []

different : error_head ≢ throughput
different e = cc

queries-HasDistinctSeries_example :
    HasDistinctSeries (concat_map (λ g. query_metrics floats "vdc1" g.query g.results) asked)
queries-HasDistinctSeries_example =
    queries-HasDistinctSeries floats "vdc1" asked ((different, tt), (tt, tt))

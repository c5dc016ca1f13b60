-- ===== src/Collector/Node.antt =====
-- internal/collector/node.go: the metrics of each node that answers.
pub mod Isolated
use prometheus_obs_exporter.Prelude.{
  String, none, some, List, [], ◌∷◌, ◌++◌, map, length, if◌then◌else◌,
}
use prometheus_obs_exporter.Obsclient.Types.{Node}
use prometheus_obs_exporter.Obsclient.DtStats.{NodeDtStats, get_all_node_dt_stats}
use prometheus_obs_exporter.Collector.Metrics.{Desc, Metric, desc, gauge}
use prometheus_obs_exporter.Collector.Run.{
  Env, Fetched, fetched, failed, node_failed, Scrape, done, Func, return, log_entry, nodes,
  must_register, ◌>>=◌, ◌>>◌,
}

abbrev pub tables_desc : Desc
tables_desc = desc "obs_node_directory_tables" ("node" ∷ [])

abbrev pub tables_unready_desc : Desc
tables_unready_desc = desc "obs_node_directory_tables_unready" ("node" ∷ [])

abbrev pub tables_unknown_desc : Desc
tables_unknown_desc = desc "obs_node_directory_tables_unknown" ("node" ∷ [])

abbrev pub connections_desc : Desc
connections_desc = desc "obs_node_active_connections" ("node" ∷ [])

module _ {W : Type 0} where
  abbrev pub stat_metrics : NodeDtStats W → List (Metric W)
  stat_metrics stat =
      gauge tables_desc stat.total_dt (stat.node ∷ [])
      ∷ gauge tables_unready_desc stat.unready_dt (stat.node ∷ [])
      ∷ gauge tables_unknown_desc stat.unknown_dt (stat.node ∷ [])
      ∷ gauge connections_desc stat.active_connections (stat.node ∷ [])
      ∷ []

  unfoldable pub node_dt_metrics : List (NodeDtStats W) → List (Metric W)
  node_dt_metrics [] = []
  node_dt_metrics (stat ∷ stats) = elim stat.error [
    | some e ↦ node_dt_metrics stats
    | none ↦ stat_metrics stat ++ node_dt_metrics stats
  ]

module _ {W R : Type 0} (env : Env W R) where
  -- The loop that logs the nodes that did not answer.
  unfoldable pub log_failures : List (NodeDtStats W) → Scrape R (Unit {0})
  log_failures [] = return tt
  log_failures (stat ∷ stats) =
      (elim stat.error [ none ↦ return tt | some e ↦ log_entry (node_failed stat.node e) ])
      >> log_failures stats

  unfoldable pub all_stats : List String → Scrape R (List (NodeDtStats W))
  all_stats addrs run =
      let (stats, s) =
        get_all_node_dt_stats env.net env.f env.dec (env.order (length addrs)) addrs run.session in
      done stats (record run { session = s })

  unfoldable pub with_nodes : Fetched (List Node) → Func R
  with_nodes (failed e) = return (some e)
  with_nodes (fetched ns) = do
    stats ← all_stats (map (λ n. n.mgmt_ip) ns)
    log_failures stats
    must_register env (node_dt_metrics stats)
    return none

  unfoldable pub collect_node : Func R
  collect_node run =
      if run.settings.dt_stats_enabled then (nodes env >>= with_nodes) run else done none run

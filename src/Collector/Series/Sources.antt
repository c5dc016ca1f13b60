-- ===== src/Collector/Series/Sources.antt =====
-- The series of the collectors of cluster.go, replication.go and node.go.
use prometheus_obs_exporter.Prelude.{
  ◌≡◌, refl, ◌∙◌, ap, String, Option, none, some, List, [], ◌∷◌, ◌++◌, concat_map,
}
use mathlib.Core.List.{append-nil, append_assoc}
use prometheus_obs_exporter.Obsclient.Net.{Error}
use prometheus_obs_exporter.Obsclient.FlexNumber.{Float64, valid, float64}
use prometheus_obs_exporter.Obsclient.Types.{LocalZone, ReplicationGroup, first_count, first_space}
use prometheus_obs_exporter.Obsclient.DtStats.{NodeDtStats}
use prometheus_obs_exporter.Collector.Metrics.{Desc, Metric, when_valid}
use prometheus_obs_exporter.Collector.Series.{
  Row, metrics_of, HasDistinctSeries, rows-HasDistinctSeries, rows-HasLabel, HasDistinctNames,
  items-HasDistinctSeries,
}
use prometheus_obs_exporter.Collector.Cluster.{
  gigabytes, nodes_desc, disks_desc, capacity_total_desc, capacity_free_desc, alerts_desc,
  info_desc, infer_product, zone_metrics, info_metric,
}
use prometheus_obs_exporter.Collector.Replication.{
  thousandth, ingress_desc, egress_desc, pending_repo_desc, pending_journal_desc, pending_xor_desc,
  rpo_desc, group_metrics, groups_metrics,
}
use prometheus_obs_exporter.Collector.Node.{
  tables_desc, tables_unready_desc, tables_unknown_desc, connections_desc, stat_metrics,
  node_dt_metrics,
}

abbrev plain : {W : Type 0} → Desc → List String → Option W → Row W
plain d labels o = record { desc = d; labels = labels; value = o; scale = λ v. v }

module _ {W : Type 0} (f : Float64 W) where
  unfoldable pub zone_rows : LocalZone → String → List (Row W)
  zone_rows lz version =
      plain nodes_desc (lz.name ∷ "good" ∷ []) (valid (float64 f lz.num_good_nodes))
      ∷ plain nodes_desc (lz.name ∷ "bad" ∷ []) (valid (float64 f lz.num_bad_nodes))
      ∷ plain disks_desc (lz.name ∷ "good" ∷ []) (valid (float64 f lz.num_good_disks))
      ∷ plain disks_desc (lz.name ∷ "bad" ∷ []) (valid (float64 f lz.num_bad_disks))
      ∷ record (plain capacity_total_desc (lz.name ∷ [])
          (first_space f lz.disk_space_total_current)) { scale = gigabytes f }
      ∷ record (plain capacity_free_desc (lz.name ∷ [])
          (first_space f lz.disk_space_free_current)) { scale = gigabytes f }
      ∷ plain alerts_desc (lz.name ∷ "critical" ∷ []) (first_count f lz.alerts_num_unack_critical)
      ∷ plain alerts_desc (lz.name ∷ "error" ∷ []) (first_count f lz.alerts_num_unack_error)
      ∷ plain alerts_desc (lz.name ∷ "info" ∷ []) (first_count f lz.alerts_num_unack_info)
      ∷ plain alerts_desc (lz.name ∷ "warning" ∷ []) (first_count f lz.alerts_num_unack_warning)
      ∷ plain info_desc (lz.name ∷ version ∷ infer_product version ∷ []) (some (f.of_nat 1))
      ∷ []

  pub zone-rows :
      (lz : LocalZone) (version : String)
      → zone_metrics f lz ++ info_metric f lz version ∷ []
        ≡ concat_map metrics_of (zone_rows lz version)
  unfolding zone_metrics info_metric zone_rows when_valid
  zone-rows lz version = simp append_assoc

  -- The metrics of the cluster belong to different series, for every answer of the target: whatever
  -- of the answer is missing, malformed or repeated, the registry can gather them.
  pub cluster-HasDistinctSeries :
      (lz : LocalZone) (version : String)
      → HasDistinctSeries (zone_metrics f lz ++ info_metric f lz version ∷ [])
  unfolding zone_rows
  cluster-HasDistinctSeries lz version =
      rw (zone-rows lz version) (rows-HasDistinctSeries (zone_rows lz version) refl)

  unfoldable pub group_rows : ReplicationGroup → List (Row W)
  group_rows g =
      plain ingress_desc (g.name ∷ []) (valid (float64 f g.replication_ingress_traffic))
      ∷ plain egress_desc (g.name ∷ []) (valid (float64 f g.replication_egress_traffic))
      ∷ plain pending_repo_desc (g.name ∷ [])
          (valid (float64 f g.chunks_repo_pending_replication_total_size))
      ∷ plain pending_journal_desc (g.name ∷ [])
          (valid (float64 f g.chunks_journal_pending_replication_total_size))
      ∷ plain pending_xor_desc (g.name ∷ []) (valid (float64 f g.chunks_pending_xor_total_size))
      ∷ record (plain rpo_desc (g.name ∷ []) (valid (float64 f g.replication_rpo_timestamp))) {
        scale = thousandth f;
      }
      ∷ []

  pub group-rows : (g : ReplicationGroup) → group_metrics f g ≡ concat_map metrics_of (group_rows g)
  unfolding group_metrics group_rows when_valid
  group-rows g = simp append-nil

  -- The metrics of the replication groups belong to different series, when no two groups have one
  -- name, whatever fields of a group are missing or malformed.
  pub groups-HasDistinctSeries :
      (groups : List ReplicationGroup)
      → HasDistinctNames (λ g. g.name) groups
      → HasDistinctSeries (groups_metrics f groups)
  unfolding groups_metrics group_rows
  groups-HasDistinctSeries groups h =
      items-HasDistinctSeries (λ g. g.name) (group_metrics f) groups
        (λ g.
          rw (group-rows g) (
            rows-HasLabel g.name (group_rows g) (refl, (refl, (refl, (refl, (refl, (refl, tt))))))))
        (λ g. rw (group-rows g) (rows-HasDistinctSeries (group_rows g) refl)) h

module _ {W : Type 0} where
  -- The metrics of a node whose statistics come with the error `e`, if there is one.
  metrics_at : Option Error → NodeDtStats W → List (Metric W)
  metrics_at none stat = stat_metrics stat
  metrics_at (some e) stat = []

  when_reached : Option Error → W → Option W
  when_reached none v = some v
  when_reached (some e) v = none

  node_rows : Option Error → NodeDtStats W → List (Row W)
  node_rows e stat =
      plain tables_desc (stat.node ∷ []) (when_reached e stat.total_dt)
      ∷ plain tables_unready_desc (stat.node ∷ []) (when_reached e stat.unready_dt)
      ∷ plain tables_unknown_desc (stat.node ∷ []) (when_reached e stat.unknown_dt)
      ∷ plain connections_desc (stat.node ∷ []) (when_reached e stat.active_connections)
      ∷ []

  node-rows :
      (e : Option Error) (stat : NodeDtStats W)
      → metrics_at e stat ≡ concat_map metrics_of (node_rows e stat)
  unfolding metrics_at when_reached node_rows when_valid
  node-rows none stat = refl
  node-rows (some e) stat = refl

  metrics-step :
      (e : Option Error) (stat : NodeDtStats W) (ms : List (Metric W))
      → (elim e [ some _ ↦ ms | none ↦ stat_metrics stat ++ ms ]) ≡ metrics_at e stat ++ ms
  unfolding metrics_at
  metrics-step none stat ms = refl
  metrics-step (some e) stat ms = refl

  node-metrics :
      (stats : List (NodeDtStats W))
      → node_dt_metrics stats ≡ concat_map (λ s. metrics_at s.error s) stats
  unfolding node_dt_metrics
  node-metrics [] = refl
  node-metrics (stat ∷ stats) =
      metrics-step stat.error stat (node_dt_metrics stats)
      ∙ ap (λ ms. metrics_at stat.error stat ++ ms) (node-metrics stats)

  -- The metrics of the nodes belong to different series, when no two results are of one node,
  -- whichever of the nodes had an error.
  pub nodes-HasDistinctSeries :
      (stats : List (NodeDtStats W))
      → HasDistinctNames (λ s. s.node) stats
      → HasDistinctSeries (node_dt_metrics stats)
  unfolding node_rows
  nodes-HasDistinctSeries stats h = rw (node-metrics stats) (
      items-HasDistinctSeries (λ s. s.node) (λ s. metrics_at s.error s) stats
        (λ s.
          rw (node-rows s.error s)
            (rows-HasLabel s.node (node_rows s.error s) (refl, (refl, (refl, (refl, tt))))))
        (λ s. rw (node-rows s.error s) (rows-HasDistinctSeries (node_rows s.error s) refl)) h)

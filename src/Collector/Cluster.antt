-- ===== src/Collector/Cluster.antt =====
-- internal/collector/cluster.go: the metrics of the local zone and of the software's version.
use prometheus_obs_exporter.Prelude.{
  ℕ, String, Bytes, utf8, Bool, true, false, none, some, List, [], ◌∷◌, ◌++◌, ◌==◌, ◌&&◌,
  if◌then◌else◌,
}
use prometheus_obs_exporter.Obsclient.FlexNumber.{Float64, valid, float64}
use prometheus_obs_exporter.Obsclient.Types.{LocalZone, Node, first_count, first_space}
use prometheus_obs_exporter.Collector.Metrics.{Desc, Metric, desc, gauge, when_valid}
use prometheus_obs_exporter.Collector.Run.{
  Env, Fetched, fetched, failed, Func, return, local_zone, nodes, must_register, ◌>>=◌, ◌>>◌,
}

abbrev pub gb_to_bytes : ℕ
gb_to_bytes = 1000000000

abbrev pub nodes_desc : Desc
nodes_desc = desc "obs_cluster_nodes" ("vdc" ∷ "state" ∷ [])

abbrev pub disks_desc : Desc
disks_desc = desc "obs_cluster_disks" ("vdc" ∷ "state" ∷ [])

abbrev pub capacity_total_desc : Desc
capacity_total_desc = desc "obs_cluster_capacity_total_bytes" ("vdc" ∷ [])

abbrev pub capacity_free_desc : Desc
capacity_free_desc = desc "obs_cluster_capacity_free_bytes" ("vdc" ∷ [])

abbrev pub alerts_desc : Desc
alerts_desc = desc "obs_cluster_alerts_unacknowledged" ("vdc" ∷ "severity" ∷ [])

abbrev pub info_desc : Desc
info_desc = desc "obs_cluster_info" ("vdc" ∷ "version" ∷ "product" ∷ [])

-- `strings.HasPrefix`
has_prefix : Bytes → Bytes → Bool
has_prefix s [] = true
has_prefix [] (p ∷ ps) = false
has_prefix (c ∷ s) (p ∷ ps) = (c == p) && has_prefix s ps

unfoldable pub infer_product : String → String
unfolding has_prefix
infer_product version =
    if has_prefix (utf8 version) (utf8 "3.")
    then "ecs"
    else if has_prefix (utf8 version) (utf8 "4.")
    then "objectscale"
    else "unknown"

-- The version of the first node, if the nodes are known and there is one.
unfoldable pub version_of : Fetched (List Node) → String
version_of (fetched (n ∷ _)) = n.version
version_of (fetched []) = "unknown"
version_of (failed _) = "unknown"

module _ {W : Type 0} (f : Float64 W) where
  -- The capacity in bytes.
  abbrev pub gigabytes : W → W
  gigabytes v = f.mul v (f.of_nat gb_to_bytes)

  unfoldable pub zone_metrics : LocalZone → List (Metric W)
  unfolding when_valid
  zone_metrics lz =
      when_valid (valid (float64 f lz.num_good_nodes))
        (λ v. gauge nodes_desc v (lz.name ∷ "good" ∷ []))
      ++ (when_valid (valid (float64 f lz.num_bad_nodes))
            (λ v. gauge nodes_desc v (lz.name ∷ "bad" ∷ []))
          ++ (when_valid (valid (float64 f lz.num_good_disks))
                (λ v. gauge disks_desc v (lz.name ∷ "good" ∷ []))
              ++ (when_valid (valid (float64 f lz.num_bad_disks))
                    (λ v. gauge disks_desc v (lz.name ∷ "bad" ∷ []))
                  ++ (when_valid (first_space f lz.disk_space_total_current)
                        (λ v. gauge capacity_total_desc (gigabytes v) (lz.name ∷ []))
                      ++ (when_valid (first_space f lz.disk_space_free_current)
                            (λ v. gauge capacity_free_desc (gigabytes v) (lz.name ∷ []))
                          ++ (when_valid (first_count f lz.alerts_num_unack_critical)
                                (λ v. gauge alerts_desc v (lz.name ∷ "critical" ∷ []))
                              ++ (when_valid (first_count f lz.alerts_num_unack_error)
                                    (λ v. gauge alerts_desc v (lz.name ∷ "error" ∷ []))
                                  ++ (when_valid (first_count f lz.alerts_num_unack_info)
                                        (λ v. gauge alerts_desc v (lz.name ∷ "info" ∷ []))
                                      ++ when_valid (first_count f lz.alerts_num_unack_warning)
                                          (λ v.
                                            gauge alerts_desc v (lz.name ∷ "warning" ∷ []))))))))))

  unfoldable pub info_metric : LocalZone → String → Metric W
  info_metric lz version =
      gauge info_desc (f.of_nat 1) (lz.name ∷ version ∷ infer_product version ∷ [])

module _ {W R : Type 0} (env : Env W R) where
  unfoldable pub with_zone : Fetched LocalZone → Func R
  with_zone (failed e) = return (some e)
  with_zone (fetched lz) = do
    ns ← nodes env
    must_register env (zone_metrics env.f lz ++ info_metric env.f lz (version_of ns) ∷ [])
    return none

  unfoldable pub collect_cluster : Func R
  collect_cluster = do lz ← local_zone env; with_zone lz

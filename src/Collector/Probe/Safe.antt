-- ===== src/Collector/Probe/Safe.antt =====
-- The collectors of internal/collector, when the registry takes what they register.
pub mod Fans
use prometheus_obs_exporter.Prelude.{
  ℕ, ◌≡◌, refl, ◌∙◌, ap, String, Bytes, Option, none, some, List, [], ◌∷◌, ◌++◌, get_elem?,
  Option-cases, Bool-cases, inl, inr, map, length, ◌⊎◌,
}
use prometheus_obs_exporter.Obsclient.Net.{Error}
use prometheus_obs_exporter.Obsclient.Types.{
  LocalZone, Node, ReplicationGroup, NamespaceRef, NamespaceQuota, NamespaceBillingInfo,
}
use prometheus_obs_exporter.Obsclient.Apis.{
  get_replication_groups, list_namespaces, get_namespace_quota, get_namespace_billing,
}
use prometheus_obs_exporter.Obsclient.DtStats.{NodeDtStats}
use prometheus_obs_exporter.Obsclient.Flux.{FluxResult, query_flux}
use prometheus_obs_exporter.Collector.Metrics.{Metric, new_const_collector}
use prometheus_obs_exporter.Collector.Run.{
  Env, Run, Fetched, fetched, failed, call, log_entry, local_zone, nodes, node_failed, quota_failed,
  billing_failed, query_failed, return, continue_with, must_register, done,
}
use prometheus_obs_exporter.Collector.Run.Sure.{
  Must, Must-bind, Stays, Whatever, call-Stays, local_zone-Stays, nodes-Stays,
}
use prometheus_obs_exporter.Collector.Duration.{flux_duration}
use prometheus_obs_exporter.Collector.Cluster.{collect_cluster, with_zone}
use prometheus_obs_exporter.Collector.Replication.{collect_replication, with_groups}
use prometheus_obs_exporter.Collector.Node.{collect_node, with_nodes, log_failures, all_stats}
use prometheus_obs_exporter.Collector.Metering.{
  collect_metering, with_namespaces, fan_out, metering_namespace_metrics, with_quota, with_billing,
}
use prometheus_obs_exporter.Collector.Perf.{
  collect_perf, run_queries, run_query, with_results, conclude, Query, query_at, query_text,
  Gathered, vdc_of,
}
use prometheus_obs_exporter.Collector.Probe.Tables.{
  Source, cluster, replication, node, metering, perf,
}
use prometheus_obs_exporter.Collector.Probe.Described.{
  AreOf, nil-AreOf, append-AreOf, zone-AreOf, groups-AreOf, node_dt_metrics-AreOf, quota-AreOf,
  billing-AreOf, query-AreOf,
}

module _ {W R : Type 0} (env : Env W R) (r : R) (T : R → Type 0) where
  -- The registry takes metrics of a source.
  abbrev pub Takes : Source → Type 0
  Takes w =
      (ms : List (Metric W))
      → AreOf w ms
      → (r' : R) × (env.reg.register (new_const_collector ms) r ≡ some r') × T r'

  abbrev pub Ended : {A : Type 0} → A → Run R → Type 0
  Ended a run = T run.registry

  abbrev pub Still : {A : Type 0} → A → Run R → Type 0
  Still = Stays r Whatever

  pub register-Ended :
      (w : Source) (ms : List (Metric W)) (run : Run R)
      → Takes w
      → AreOf w ms
      → run.registry ≡ r
      → Must Ended (must_register env ms run)
  unfolding must_register
  register-Ended w ms run takes h e =
      let (r', taken, t) = takes ms h in
      let here : env.reg.register (new_const_collector ms) run.registry ≡ some r' =
        ap (λ x. env.reg.register (new_const_collector ms) x) e ∙ taken in
      rw (here, must_register) t

  pub registered-Ended :
      (w : Source) (ms : List (Metric W)) (run : Run R)
      → Takes w
      → AreOf w ms
      → run.registry ≡ r
      → Must
          (Ended {A = Option Error})
          (continue_with (must_register env ms run) (λ _. return none))
  registered-Ended w ms run takes h e =
      Must-bind Ended Ended (must_register env ms run) _ (register-Ended w ms run takes h e)
        λ _ run' t. t

  module _ (same : T r) where
    pub untouched : (run : Run R) → run.registry ≡ r → T run.registry
    untouched run e = rw e same

    zone-Ended :
        (z : Fetched LocalZone) (run : Run R)
        → Takes cluster
        → run.registry ≡ r
        → Must Ended (with_zone env z run)
    unfolding with_zone
    zone-Ended (failed e) run takes h = untouched run h
    zone-Ended (fetched lz) run takes h =
        Must-bind Still Ended (nodes env run) _ (nodes-Stays env r run h)
          λ ns run' s. registered-Ended cluster _ run' takes (zone-AreOf env.f lz _) s.1

    pub cluster-Ended :
        (run : Run R) → Takes cluster → run.registry ≡ r → Must Ended (collect_cluster env run)
    unfolding collect_cluster
    cluster-Ended run takes h =
        Must-bind Still Ended (local_zone env run) _ (local_zone-Stays env r run h)
          λ z run' s. zone-Ended z run' takes s.1

    groups-Ended :
        (g : Fetched (List ReplicationGroup)) (run : Run R)
        → Takes replication
        → run.registry ≡ r
        → Must Ended (with_groups env g run)
    unfolding with_groups
    groups-Ended (failed e) run takes h = untouched run h
    groups-Ended (fetched groups) run takes h =
        registered-Ended replication _ run takes (groups-AreOf env.f groups) h

    pub replication-Ended :
        (run : Run R)
        → Takes replication
        → run.registry ≡ r
        → Must Ended (collect_replication env run)
    unfolding collect_replication
    replication-Ended run takes h =
        Must-bind Still Ended (call (get_replication_groups env.net env.dec) run) _
          (call-Stays r (get_replication_groups env.net env.dec) run h)
          λ g run' s. groups-Ended g run' takes s.1

    log_failures-Stays :
        (stats : List (NodeDtStats W)) (run : Run R)
        → run.registry ≡ r
        → Must Still (log_failures env stats run)
    unfolding log_failures
    log_failures-Stays [] run h = (tt, h)
    log_failures-Stays (stat ∷ stats) run h = elim (Option-cases stat.error) [
      | inl fine ↦ rw (fine, log_failures) (log_failures-Stays stats run h)
      | inr (e, bad) ↦ rw (bad, log_failures) (log_failures-Stays stats _ h)
    ]

    with_nodes-Ended :
        (ns : Fetched (List Node)) (run : Run R)
        → Takes node
        → run.registry ≡ r
        → Must Ended (with_nodes env ns run)
    unfolding with_nodes all_stats
    with_nodes-Ended (failed e) run takes h = untouched run h
    with_nodes-Ended (fetched ns) run takes h =
        Must-bind Still Ended (all_stats env (map (λ n. n.mgmt_ip) ns) run) _ (tt, h)
          λ stats run' s.
            Must-bind Still Ended (log_failures env stats run') _
              (log_failures-Stays stats run' s.1)
              λ _ run'' s'. registered-Ended node _ run'' takes (node_dt_metrics-AreOf stats) s'.1

    pub node-Ended :
        (run : Run R) → Takes node → run.registry ≡ r → Must Ended (collect_node env run)
    unfolding collect_node
    node-Ended run takes h = elim (Bool-cases run.settings.dt_stats_enabled) [
      | inr off ↦ simp off (untouched run h)
      | inl on ↦ simp on (
          Must-bind Still Ended (nodes env run) _ (nodes-Stays env r run h)
            λ ns run' s. with_nodes-Ended ns run' takes s.1)
    ]

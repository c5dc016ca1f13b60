-- ===== src/Collector/Probe/Isolation.antt =====
-- The registry and the memoised answers of a request behind each of the collectors of cluster.go,
-- replication.go, node.go and metering.go.
use prometheus_obs_exporter.Prelude.{
  ℕ, String, List, [], ◌∷◌, ◌++◌, get_elem?, Option-cases, Bool-cases, inl, inr, map, length,
}
use prometheus_obs_exporter.Obsclient.Types.{
  LocalZone, Node, ReplicationGroup, NamespaceRef, NamespaceQuota, NamespaceBillingInfo,
}
use prometheus_obs_exporter.Obsclient.Apis.{
  get_replication_groups, list_namespaces, get_namespace_quota, get_namespace_billing,
}
use prometheus_obs_exporter.Obsclient.DtStats.{NodeDtStats}
use prometheus_obs_exporter.Collector.Metrics.{Metric}
use prometheus_obs_exporter.Collector.Run.{
  Env, Run, Fetched, fetched, failed, call, log_entry, local_zone, nodes, node_failed, quota_failed,
  billing_failed,
}
use prometheus_obs_exporter.Collector.Run.Frame.{
  Post, Post-bind, Untouched, Quiet, session-Untouched, call-Quiet, log_entry-Quiet,
  local_zone-Quiet, nodes-Quiet, Concluded, register-Concluded,
}
use prometheus_obs_exporter.Collector.Cluster.{collect_cluster, with_zone}
use prometheus_obs_exporter.Collector.Replication.{collect_replication, with_groups}
use prometheus_obs_exporter.Collector.Node.{collect_node, with_nodes, log_failures, all_stats}
use prometheus_obs_exporter.Collector.Metering.{
  collect_metering, with_namespaces, fan_out, metering_namespace_metrics, with_quota, with_billing,
}

module _ {W R : Type 0} (env : Env W R) (start : Run R) where
  abbrev Still : {A : Type 0} → A → Run R → Type 0
  Still _ = Untouched start

  zone-Concluded :
      (z : Fetched LocalZone) (run : Run R)
      → Untouched start run
      → Post (Concluded env start) (with_zone env z run)
  unfolding with_zone
  zone-Concluded (failed e) run u = u
  zone-Concluded (fetched lz) run u =
      Post-bind Still (Concluded env start) (nodes env run) _ (nodes-Quiet env start run u)
        λ ns run' u'. register-Concluded env start _ run' u'

  pub cluster-Concluded :
      (run : Run R) → Untouched start run → Post (Concluded env start) (collect_cluster env run)
  unfolding collect_cluster
  cluster-Concluded run u =
      Post-bind Still (Concluded env start) (local_zone env run) _
        (local_zone-Quiet env start run u) zone-Concluded

  groups-Concluded :
      (g : Fetched (List ReplicationGroup)) (run : Run R)
      → Untouched start run
      → Post (Concluded env start) (with_groups env g run)
  unfolding with_groups
  groups-Concluded (failed e) run u = u
  groups-Concluded (fetched groups) run u = register-Concluded env start _ run u

  pub replication-Concluded :
      (run : Run R) → Untouched start run → Post (Concluded env start) (collect_replication env run)
  unfolding collect_replication
  replication-Concluded run u =
      Post-bind Still (Concluded env start) (call (get_replication_groups env.net env.dec) run) _
        (call-Quiet start (get_replication_groups env.net env.dec) run u) groups-Concluded

  log_failures-Quiet :
      (stats : List (NodeDtStats W)) (run : Run R)
      → Untouched start run
      → Quiet start (log_failures env stats run)
  unfolding log_failures
  log_failures-Quiet [] run u = u
  log_failures-Quiet (stat ∷ stats) run u = elim (Option-cases stat.error) [
    | inl fine ↦ rw (fine, log_failures) (log_failures-Quiet stats run u)
    | inr (e, bad) ↦
        rw (bad, log_failures)
          (Post-bind Still Still (log_entry (node_failed stat.node e) run) _
            (log_entry-Quiet start (node_failed stat.node e) run u)
            λ _ run' u'. log_failures-Quiet stats run' u')
  ]

  all_stats-Quiet :
      (addrs : List String) (run : Run R)
      → Untouched start run
      → Quiet start (all_stats env addrs run)
  unfolding all_stats
  all_stats-Quiet addrs run u = session-Untouched start _ run u

  with_nodes-Concluded :
      (ns : Fetched (List Node)) (run : Run R)
      → Untouched start run
      → Post (Concluded env start) (with_nodes env ns run)
  unfolding with_nodes
  with_nodes-Concluded (failed e) run u = u
  with_nodes-Concluded (fetched ns) run u =
      Post-bind Still (Concluded env start) (all_stats env (map (λ n. n.mgmt_ip) ns) run) _
        (all_stats-Quiet (map (λ n. n.mgmt_ip) ns) run u)
        λ stats run' u'.
          Post-bind Still (Concluded env start) (log_failures env stats run') _
            (log_failures-Quiet stats run' u')
            λ _ run'' u''. register-Concluded env start _ run'' u''

  pub node-Concluded :
      (run : Run R) → Untouched start run → Post (Concluded env start) (collect_node env run)
  unfolding collect_node
  node-Concluded run u = elim (Bool-cases run.settings.dt_stats_enabled) [
    | inr off ↦ simp off u.memo
    | inl on ↦ simp on (
        Post-bind Still (Concluded env start) (nodes env run) _ (nodes-Quiet env start run u)
          with_nodes-Concluded)
  ]

  quota-Quiet :
      (namespace : String) (q : Fetched NamespaceQuota) (run : Run R)
      → Untouched start run
      → Quiet start (with_quota env namespace q run)
  unfolding with_quota
  quota-Quiet namespace (fetched q) run u = u
  quota-Quiet namespace (failed e) run u = log_entry-Quiet start (quota_failed namespace e) run u

  billing-Quiet :
      (namespace : String) (b : Fetched NamespaceBillingInfo) (run : Run R)
      → Untouched start run
      → Quiet start (with_billing env namespace b run)
  unfolding with_billing
  billing-Quiet namespace (fetched b) run u = u
  billing-Quiet namespace (failed e) run u =
      log_entry-Quiet start (billing_failed namespace e) run u

  namespace-Quiet :
      (namespace : String) (run : Run R)
      → Untouched start run
      → Quiet start (metering_namespace_metrics env namespace run)
  unfolding metering_namespace_metrics
  namespace-Quiet namespace run u =
      Post-bind Still Still (call (get_namespace_quota env.net env.dec namespace) run) _
        (call-Quiet start (get_namespace_quota env.net env.dec namespace) run u)
        λ q run1 u1.
          Post-bind Still Still (with_quota env namespace q run1) _
            (quota-Quiet namespace q run1 u1)
            λ quota run2 u2.
              Post-bind Still Still (call (get_namespace_billing env.net env.dec namespace) run2) _
                (call-Quiet start (get_namespace_billing env.net env.dec namespace) run2 u2)
                λ b run3 u3.
                  Post-bind Still Still (with_billing env namespace b run3) _
                    (billing-Quiet namespace b run3 u3) (λ _ _ u4. u4)

  fan_out-Quiet :
      (namespaces : List NamespaceRef) (order : List ℕ) (metrics : List (Metric W)) (run : Run R)
      → Untouched start run
      → Quiet start (fan_out env namespaces order metrics run)
  unfolding fan_out
  fan_out-Quiet namespaces [] metrics run u = u
  fan_out-Quiet namespaces (i ∷ order) metrics run u =
      elim (Option-cases (get_elem? namespaces i)) [
        | inl missing ↦ rw (missing, fan_out) (fan_out-Quiet namespaces order metrics run u)
        | inr (ns, found) ↦
            rw (found, fan_out)
              (Post-bind Still Still (metering_namespace_metrics env ns.name run) _
                (namespace-Quiet ns.name run u)
                λ own run' u'. fan_out-Quiet namespaces order (metrics ++ own) run' u')
      ]

  namespaces-Concluded :
      (n : Fetched (List NamespaceRef)) (run : Run R)
      → Untouched start run
      → Post (Concluded env start) (with_namespaces env n run)
  unfolding with_namespaces
  namespaces-Concluded (failed e) run u = u
  namespaces-Concluded (fetched ns) run u =
      Post-bind Still (Concluded env start) (fan_out env ns (env.order (length ns)) [] run) _
        (fan_out-Quiet ns (env.order (length ns)) [] run u)
        λ metrics run' u'. register-Concluded env start metrics run' u'

  pub metering-Concluded :
      (run : Run R) → Untouched start run → Post (Concluded env start) (collect_metering env run)
  unfolding collect_metering
  metering-Concluded run u =
      Post-bind Still (Concluded env start) (call (list_namespaces env.net env.dec) run) _
        (call-Quiet start (list_namespaces env.net env.dec) run u) namespaces-Concluded

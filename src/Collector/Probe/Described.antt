-- ===== src/Collector/Probe/Described.antt =====
-- The descriptors of the metrics of each collector.
use prometheus_obs_exporter.Prelude.{
  ◌≡◌, refl, inl, inr, String, Bool, true, false, Option, none, some, List, [], ◌∷◌, ◌++◌, All,
  All-append, concat_map, Option-cases, str_eq, if◌then◌else◌,
}
use prometheus_obs_exporter.Obsclient.FlexNumber.{Float64, valid, float64}
use prometheus_obs_exporter.Obsclient.Types.{
  LocalZone, ReplicationGroup, NamespaceQuota, NamespaceBillingInfo,
}
use prometheus_obs_exporter.Obsclient.DtStats.{NodeDtStats}
use prometheus_obs_exporter.Obsclient.Flux.{FluxResult}
use prometheus_obs_exporter.Collector.Metrics.{Metric, when_valid}
use prometheus_obs_exporter.Collector.Cluster.{zone_metrics, info_metric}
use prometheus_obs_exporter.Collector.Replication.{group_metrics, groups_metrics}
use prometheus_obs_exporter.Collector.Node.{stat_metrics, node_dt_metrics}
use prometheus_obs_exporter.Collector.Metering.{quota_metrics, billing_metrics}
use prometheus_obs_exporter.Collector.Perf.{
  Query, throughput, read_tps, write_tps, read_latency, write_latency, error_head, query_metrics,
  sum_tps, find_field, throughput_row, error_row, error_metric, one,
}
use prometheus_obs_exporter.Collector.Perf.Names.{
  field_read_bytes, field_write_bytes, field_system_errors, field_user_errors, field_p50,
}
use prometheus_obs_exporter.Collector.Series.{Row, metrics_of}
use prometheus_obs_exporter.Collector.Series.Sources.{zone_rows, zone-rows, group_rows, group-rows}
use prometheus_obs_exporter.Collector.Probe.Tables.{
  Source, cluster, replication, node, metering, perf, table, Among,
}

module _ {W : Type 0} where
  abbrev pub IsOf : Source → Metric W → Type 0
  IsOf w m = Among (table w) m.desc

  unfoldable pub AreOf : Source → List (Metric W) → Type 0
  AreOf w ms = All (IsOf w) ms

  pub nil-AreOf : (w : Source) (ms : List (Metric W)) → ms ≡ [] → AreOf w ms
  unfolding AreOf
  nil-AreOf w ms e = rw e tt

  pub cons-AreOf :
      (w : Source) (m : Metric W) (ms : List (Metric W)) → IsOf w m → AreOf w ms → AreOf w (m ∷ ms)
  unfolding AreOf
  cons-AreOf w m ms h k = (h, k)

  pub append-AreOf :
      (w : Source) (xs ys : List (Metric W)) → AreOf w xs → AreOf w ys → AreOf w (xs ++ ys)
  unfolding AreOf
  append-AreOf w xs ys = All-append (IsOf w) xs ys

  when_valid-AreOf :
      (w : Source) (o : Option W) (k : W → Metric W)
      → ((v : W) → IsOf w (k v))
      → AreOf w (when_valid o k)
  unfolding when_valid AreOf
  when_valid-AreOf w none k h = tt
  when_valid-AreOf w (some v) k h = (h v, tt)

  each-AreOf :
      {A : Type 0} (w : Source) (k : A → List (Metric W)) (xs : List A)
      → ((x : A) → AreOf w (k x))
      → AreOf w (concat_map k xs)
  each-AreOf w k [] h = nil-AreOf w [] refl
  each-AreOf w k (x ∷ xs) h = append-AreOf w (k x) (concat_map k xs) (h x) (each-AreOf w k xs h)

  one-AreOf :
      (f : Float64 W) (w : Source) (o : Option W) (k : W → Metric W)
      → ((v : W) → IsOf w (k v))
      → AreOf w (one f o k)
  unfolding one AreOf
  one-AreOf f w none k h = tt
  one-AreOf f w (some v) k h = (h v, tt)

  if-AreOf :
      (w : Source) (b : Bool) (xs ys : List (Metric W))
      → AreOf w xs
      → AreOf w ys
      → AreOf w (if b then xs else ys)
  if-AreOf w true xs ys h k = h
  if-AreOf w false xs ys h k = k

  rows-AreOf :
      (w : Source) (rows : List (Row W))
      → All (λ r. Among (table w) r.desc) rows
      → AreOf w (concat_map metrics_of rows)
  rows-AreOf w [] h = nil-AreOf w [] refl
  rows-AreOf w (r ∷ rows) h =
      append-AreOf w (metrics_of r) (concat_map metrics_of rows)
        (when_valid-AreOf w r.value _ (λ v. h.0)) (rows-AreOf w rows h.1)

  stat-AreOf : (stat : NodeDtStats W) → AreOf node (stat_metrics stat)
  unfolding AreOf
  stat-AreOf stat =
      (inl refl, (inr (inl refl), (inr (inr (inl refl)), (inr (inr (inr (inl refl))), tt))))

  pub node_dt_metrics-AreOf : (stats : List (NodeDtStats W)) → AreOf node (node_dt_metrics stats)
  unfolding node_dt_metrics
  node_dt_metrics-AreOf [] = nil-AreOf node [] refl
  node_dt_metrics-AreOf (stat ∷ stats) = elim (Option-cases stat.error) [
    | inr (e, bad) ↦ rw (bad, node_dt_metrics) (node_dt_metrics-AreOf stats)
    | inl fine ↦
        rw (fine, node_dt_metrics)
          (append-AreOf node (stat_metrics stat) (node_dt_metrics stats) (stat-AreOf stat)
            (node_dt_metrics-AreOf stats))
  ]

module _ {W : Type 0} (f : Float64 W) where
  pub zone-AreOf :
      (lz : LocalZone) (version : String)
      → AreOf cluster (zone_metrics f lz ++ info_metric f lz version ∷ [])
  unfolding zone_rows
  zone-AreOf lz version = rw (zone-rows f lz version) (
      rows-AreOf cluster (zone_rows f lz version) (
        inl refl,
        (
          inl refl,
          (
            inr (inl refl),
            (
              inr (inl refl),
              (
                inr (inr (inl refl)),
                (
                  inr (inr (inr (inl refl))),
                  (
                    inr (inr (inr (inr (inl refl)))),
                    (
                      inr (inr (inr (inr (inl refl)))),
                      (
                        inr (inr (inr (inr (inl refl)))),
                        (
                          inr (inr (inr (inr (inl refl)))),
                          (inr (inr (inr (inr (inr (inl refl))))), tt),
                        ),
                      ),
                    ),
                  ),
                ),
              ),
            ),
          ),
        ),
      ))

  group-AreOf : (g : ReplicationGroup) → AreOf replication (group_metrics f g)
  unfolding group_rows
  group-AreOf g = rw (group-rows f g) (
      rows-AreOf replication (group_rows f g) (
        inl refl,
        (
          inr (inl refl),
          (
            inr (inr (inl refl)),
            (
              inr (inr (inr (inl refl))),
              (inr (inr (inr (inr (inl refl)))), (inr (inr (inr (inr (inr (inl refl))))), tt)),
            ),
          ),
        ),
      ))

  pub groups-AreOf : (groups : List ReplicationGroup) → AreOf replication (groups_metrics f groups)
  unfolding groups_metrics
  groups-AreOf groups = each-AreOf replication (group_metrics f) groups group-AreOf

  pub quota-AreOf : (name : String) (q : NamespaceQuota) → AreOf metering (quota_metrics f name q)
  unfolding quota_metrics
  quota-AreOf name q = elim (Option-cases (valid (float64 f q.block_size))) [
    | inl missing ↦ rw (missing, quota_metrics) (nil-AreOf metering [] refl)
    | inr (v, there) ↦
        rw (there, quota_metrics)
          (if-AreOf metering _ _ []
            (cons-AreOf metering _ _ (inl refl) (when_valid-AreOf metering _ _ (λ n. inl refl)))
            (nil-AreOf metering [] refl))
  ]

  pub billing-AreOf :
      (name : String) (b : NamespaceBillingInfo) → AreOf metering (billing_metrics f name b)
  unfolding billing_metrics
  billing-AreOf name b =
      append-AreOf metering _ _ (when_valid-AreOf metering _ _ (λ v. inr (inl refl)))
        (when_valid-AreOf metering _ _ (λ v. inr (inr (inl refl))))

  throughput_row-AreOf : (vdc : String) (r : FluxResult W) → AreOf perf (throughput_row f vdc r)
  unfolding throughput_row
  throughput_row-AreOf vdc r =
      if-AreOf perf (str_eq r.field field_read_bytes) _ _
        (cons-AreOf perf _ [] (inr (inr (inl refl))) (nil-AreOf perf [] refl))
        (if-AreOf perf (str_eq r.field field_write_bytes) _ _
          (cons-AreOf perf _ [] (inr (inr (inr (inl refl)))) (nil-AreOf perf [] refl))
          (nil-AreOf perf [] refl))

  error_row-AreOf : (vdc : String) (r : FluxResult W) → AreOf perf (error_row f vdc r)
  unfolding error_row error_metric
  error_row-AreOf vdc r =
      let last : IsOf perf (error_metric f vdc "" r) =
        inr (inr (inr (inr (inr (inr (inl refl)))))) in
      if-AreOf perf (str_eq r.field field_system_errors) _ _
        (cons-AreOf perf _ [] last (nil-AreOf perf [] refl))
        (if-AreOf perf (str_eq r.field field_user_errors) _ _
          (cons-AreOf perf _ [] last (nil-AreOf perf [] refl)) (nil-AreOf perf [] refl))

  pub query-AreOf :
      (vdc : String) (q : Query) (rs : List (FluxResult W)) → AreOf perf (query_metrics f vdc q rs)
  unfolding query_metrics
  query-AreOf vdc throughput rs =
      each-AreOf perf (throughput_row f vdc) rs (throughput_row-AreOf vdc)
  query-AreOf vdc read_tps rs =
      one-AreOf f perf (sum_tps f rs) _ (λ v. inr (inr (inr (inr (inl refl)))))
  query-AreOf vdc write_tps rs =
      one-AreOf f perf (sum_tps f rs) _ (λ v. inr (inr (inr (inr (inr (inl refl))))))
  query-AreOf vdc read_latency rs = one-AreOf f perf (find_field f field_p50 rs) _ (λ v. inl refl)
  query-AreOf vdc write_latency rs =
      one-AreOf f perf (find_field f field_p50 rs) _ (λ v. inr (inl refl))
  query-AreOf vdc error_head rs = each-AreOf perf (error_row f vdc) rs (error_row-AreOf vdc)

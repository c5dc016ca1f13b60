-- ===== src/Collector/Probe/Safe/Fans.antt =====
-- The fan-outs of metering.go and perf.go, when the registry takes what they register.
use prometheus_obs_exporter.Prelude.{
  ℕ, ◌≡◌, refl, String, Bytes, List, [], ◌∷◌, ◌++◌, get_elem?, Option-cases, inl, inr, length,
}
use prometheus_obs_exporter.Obsclient.Types.{NamespaceRef, NamespaceQuota, NamespaceBillingInfo}
use prometheus_obs_exporter.Obsclient.Apis.{
  list_namespaces, get_namespace_quota, get_namespace_billing,
}
use prometheus_obs_exporter.Obsclient.Flux.{FluxResult, query_flux}
use prometheus_obs_exporter.Collector.Metrics.{Metric}
use prometheus_obs_exporter.Collector.Run.{Env, Run, Fetched, fetched, failed, call, local_zone}
use prometheus_obs_exporter.Collector.Run.Sure.{
  Must, Must-bind, Stays, call-Stays, local_zone-Stays,
}
use prometheus_obs_exporter.Collector.Duration.{flux_duration}
use prometheus_obs_exporter.Collector.Metering.{
  collect_metering, with_namespaces, fan_out, metering_namespace_metrics, with_quota, with_billing,
}
use prometheus_obs_exporter.Collector.Perf.{
  collect_perf, run_queries, run_query, with_results, conclude, Query, query_at, query_text,
  Gathered, vdc_of,
}
use prometheus_obs_exporter.Collector.Probe.Tables.{Source, metering, perf}
use prometheus_obs_exporter.Collector.Probe.Described.{
  AreOf, nil-AreOf, append-AreOf, quota-AreOf, billing-AreOf, query-AreOf,
}
use prometheus_obs_exporter.Collector.Perf.{query_metrics}
use prometheus_obs_exporter.Collector.Probe.Failed.{empty_or_not}
use prometheus_obs_exporter.Collector.Probe.Safe.{Takes, Ended, Still, registered-Ended, untouched}

module _ {W R : Type 0} (env : Env W R) (r : R) (T : R → Type 0) (same : T r) where
  -- The metrics of a step are of a source, and the registry stays.
  abbrev Of : Source → List (Metric W) → Run R → Type 0
  Of w = Stays r (AreOf w)

  quota-Of :
      (name : String) (q : Fetched NamespaceQuota) (run : Run R)
      → run.registry ≡ r
      → Must (Of metering) (with_quota env name q run)
  unfolding with_quota
  quota-Of name (fetched q) run h = (quota-AreOf env.f name q, h)
  quota-Of name (failed e) run h = (nil-AreOf metering [] refl, h)

  billing-Of :
      (name : String) (b : Fetched NamespaceBillingInfo) (run : Run R)
      → run.registry ≡ r
      → Must (Of metering) (with_billing env name b run)
  unfolding with_billing
  billing-Of name (fetched b) run h = (billing-AreOf env.f name b, h)
  billing-Of name (failed e) run h = (nil-AreOf metering [] refl, h)

  namespace-Of :
      (name : String) (run : Run R)
      → run.registry ≡ r
      → Must (Of metering) (metering_namespace_metrics env name run)
  unfolding metering_namespace_metrics
  namespace-Of name run h =
      Must-bind (Still env r T) (Of metering) (call (get_namespace_quota env.net env.dec name) run)
        _ (call-Stays r (get_namespace_quota env.net env.dec name) run h)
        λ q run1 s1.
          Must-bind (Of metering) (Of metering) (with_quota env name q run1) _
            (quota-Of name q run1 s1.1)
            λ quota run2 s2.
              Must-bind (Still env r T) (Of metering)
                (call (get_namespace_billing env.net env.dec name) run2) _
                (call-Stays r (get_namespace_billing env.net env.dec name) run2 s2.1)
                λ b run3 s3.
                  Must-bind (Of metering) (Of metering) (with_billing env name b run3) _
                    (billing-Of name b run3 s3.1)
                    λ billing run4 s4. (append-AreOf metering quota billing s2.0 s4.0, s4.1)

  fan_out-Of :
      (namespaces : List NamespaceRef) (order : List ℕ) (ms : List (Metric W)) (run : Run R)
      → AreOf metering ms
      → run.registry ≡ r
      → Must (Of metering) (fan_out env namespaces order ms run)
  unfolding fan_out
  fan_out-Of namespaces [] ms run a h = (a, h)
  fan_out-Of namespaces (i ∷ order) ms run a h = elim (Option-cases (get_elem? namespaces i)) [
    | inl missing ↦ rw (missing, fan_out) (fan_out-Of namespaces order ms run a h)
    | inr (ns, found) ↦
        rw (found, fan_out)
          (Must-bind (Of metering) (Of metering) (metering_namespace_metrics env ns.name run) _
            (namespace-Of ns.name run h)
            λ own run' s.
              fan_out-Of namespaces order (ms ++ own) run' (append-AreOf metering ms own a s.0) s.1)
  ]

  namespaces-Ended :
      (n : Fetched (List NamespaceRef)) (run : Run R)
      → Takes env r T metering
      → run.registry ≡ r
      → Must (Ended env r T) (with_namespaces env n run)
  unfolding with_namespaces
  namespaces-Ended (failed e) run takes h = untouched env r T same run h
  namespaces-Ended (fetched ns) run takes h =
      Must-bind (Of metering) (Ended env r T) (fan_out env ns (env.order (length ns)) [] run) _
        (fan_out-Of ns (env.order (length ns)) [] run (nil-AreOf metering [] refl) h)
        λ ms run' s. registered-Ended env r T metering ms run' takes s.0 s.1

  pub metering-Ended :
      (run : Run R)
      → Takes env r T metering
      → run.registry ≡ r
      → Must (Ended env r T) (collect_metering env run)
  unfolding collect_metering
  metering-Ended run takes h =
      Must-bind (Still env r T) (Ended env r T) (call (list_namespaces env.net env.dec) run) _
        (call-Stays r (list_namespaces env.net env.dec) run h)
        λ n run' s. namespaces-Ended n run' takes s.1

  module _ (vdc : String) (range : Bytes) where
    -- The metrics gathered so far are of perf.go, and the registry stays.
    abbrev Gathers : Gathered W → Run R → Type 0
    Gathers g run = AreOf perf g.metrics × (run.registry ≡ r)

    results-Gathers :
        (q : Query) (g : Gathered W) (x : Fetched (List (FluxResult W))) (run : Run R)
        → AreOf perf g.metrics
        → run.registry ≡ r
        → Must Gathers (with_results env vdc range q g x run)
    unfolding with_results
    results-Gathers q g (fetched rs) run a h = (
      append-AreOf perf g.metrics (query_metrics env.f vdc q rs) a (query-AreOf env.f vdc q rs),
      h,
    )
    results-Gathers q g (failed e) run a h = (a, h)

    queries-Gathers :
        (order : List ℕ) (g : Gathered W) (run : Run R)
        → AreOf perf g.metrics
        → run.registry ≡ r
        → Must Gathers (run_queries env vdc range order g run)
    unfolding run_queries run_query
    queries-Gathers [] g run a h = (a, h)
    queries-Gathers (i ∷ order) g run a h = elim (Option-cases (query_at i)) [
      | inl past ↦ rw (past, run_queries) (queries-Gathers order g run a h)
      | inr (q, there) ↦
          let m = query_flux env.f env.parse_time env.net env.dec (query_text range q) in
          rw (there, run_queries)
            (Must-bind Gathers Gathers (run_query env vdc range q g run) _
              (Must-bind (Still env r T) Gathers (call m run) _ (call-Stays r m run h)
                λ x run' s. results-Gathers q g x run' a s.1)
              λ g' run'' s'. queries-Gathers order g' run'' s'.0 s'.1)
    ]

  conclude-Ended :
      (g : Gathered W) (run : Run R)
      → Takes env r T perf
      → AreOf perf g.metrics
      → run.registry ≡ r
      → Must (Ended env r T) (conclude env g run)
  unfolding conclude
  conclude-Ended g run takes a h = elim (empty_or_not g.metrics) [
    | inr (m, ms, some_metrics) ↦
        let own : AreOf perf (m ∷ ms) = rw some_metrics at a in
        simp (some_metrics, conclude) (registered-Ended env r T perf (m ∷ ms) run takes own h)
    | inl no_metrics ↦ elim (Option-cases g.first_err) [
      | inl fine ↦
          simp (no_metrics, fine, conclude)
            (registered-Ended env r T perf [] run takes (nil-AreOf perf [] refl) h)
      | inr (e, bad) ↦ simp (no_metrics, bad, conclude) (untouched env r T same run h)
    ]
  ]

  pub perf-Ended :
      (run : Run R)
      → Takes env r T perf
      → run.registry ≡ r
      → Must (Ended env r T) (collect_perf env run)
  unfolding collect_perf
  perf-Ended run takes h =
      Must-bind (Still env r T) (Ended env r T) (local_zone env run) _
        (local_zone-Stays env r run h)
        λ lz run' s.
          Must-bind (Gathers (vdc_of lz) (flux_duration run.settings.perf_range)) (Ended env r T)
            (run_queries env (vdc_of lz) (flux_duration run.settings.perf_range) (env.order 6) _
              run')
            _
            (queries-Gathers (vdc_of lz) (flux_duration run.settings.perf_range) (env.order 6) _
              run' (nil-AreOf perf [] refl) s.1)
            λ g run'' s'. conclude-Ended g run'' takes s'.0 s'.1

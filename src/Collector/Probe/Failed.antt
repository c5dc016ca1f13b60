-- ===== src/Collector/Probe/Failed.antt =====
-- The registry and the memoised answers of a request behind a collector (internal/collector):
-- `collectPerf`, and the collectors by their names.
use prometheus_obs_exporter.Prelude.{
  ℕ, String, Bytes, ◌≡◌, refl, Bool, true, false, Option, none, some, List, [], ◌∷◌, Option-cases,
  inl, inr, str_eq, if◌then◌else◌, ◌⊎◌,
}
use prometheus_obs_exporter.Obsclient.Net.{Error}
use prometheus_obs_exporter.Obsclient.Flux.{query_flux, FluxResult}
use prometheus_obs_exporter.Collector.Run.{
  Env, Run, done, Func, Fetched, fetched, failed, call, local_zone, query_failed, collector_failed,
  unknown_collector,
}
use prometheus_obs_exporter.Collector.Duration.{flux_duration}
use prometheus_obs_exporter.Collector.Run.Frame.{
  Post, Post-bind, Memoised, Untouched, Untouched-refl, Quiet, call-Quiet, log_entry-Quiet,
  local_zone-Quiet, Concluded, register-Concluded,
}
use prometheus_obs_exporter.Collector.Cluster.{collect_cluster}
use prometheus_obs_exporter.Collector.Replication.{collect_replication}
use prometheus_obs_exporter.Collector.Node.{collect_node}
use prometheus_obs_exporter.Collector.Metering.{collect_metering}
use prometheus_obs_exporter.Collector.Perf.{
  collect_perf, run_queries, run_query, with_results, conclude, Query, query_at, query_text,
  Gathered, vdc_of,
}
use prometheus_obs_exporter.Collector.Probe.{registry, judged, run_collector}
use prometheus_obs_exporter.Collector.Probe.Isolation.{
  cluster-Concluded, replication-Concluded, node-Concluded, metering-Concluded,
}

if-holds : {A : Type 0} (P : A → Type 0) (b : Bool) (x y : A) → P x → P y → P (if b then x else y)
if-holds P true x y h k = h
if-holds P false x y h k = k

pub empty_or_not :
    {A : Type 0} (xs : List A) → (xs ≡ []) ⊎ ((x : A) × (ys : List A) × (xs ≡ x ∷ ys))
empty_or_not [] = inl refl
empty_or_not (x ∷ ys) = inr (x, ys, refl)

module _ {W R : Type 0} (env : Env W R) (start : Run R) where
  abbrev Still : {A : Type 0} → A → Run R → Type 0
  Still _ = Untouched start

  module _ (vdc : String) (range : Bytes) where
    results-Quiet :
        (q : Query) (g : Gathered W) (r : Fetched (List (FluxResult W))) (run : Run R)
        → Untouched start run
        → Quiet start (with_results env vdc range q g r run)
    unfolding with_results
    results-Quiet q g (fetched rs) run u = u
    results-Quiet q g (failed e) run u =
        log_entry-Quiet start (query_failed (query_text range q) e) run u

    query-Quiet :
        (q : Query) (g : Gathered W) (run : Run R)
        → Untouched start run
        → Quiet start (run_query env vdc range q g run)
    unfolding run_query
    query-Quiet q g run u =
        let m = query_flux env.f env.parse_time env.net env.dec (query_text range q) in
        Post-bind Still Still (call m run) _ (call-Quiet start m run u) (results-Quiet q g)

    queries-Quiet :
        (order : List ℕ) (g : Gathered W) (run : Run R)
        → Untouched start run
        → Quiet start (run_queries env vdc range order g run)
    unfolding run_queries
    queries-Quiet [] g run u = u
    queries-Quiet (i ∷ order) g run u = elim (Option-cases (query_at i)) [
      | inl past ↦ rw (past, run_queries) (queries-Quiet order g run u)
      | inr (q, at_i) ↦
          rw (at_i, run_queries)
            (Post-bind Still Still (run_query env vdc range q g run) _ (query-Quiet q g run u)
              (queries-Quiet order))
    ]

  conclude-Concluded :
      (g : Gathered W) (run : Run R)
      → Untouched start run
      → Post (Concluded env start) (conclude env g run)
  unfolding conclude
  conclude-Concluded g run u = elim (empty_or_not g.metrics) [
    | inr (m, ms, some_metrics) ↦
        simp (some_metrics, conclude) (register-Concluded env start (m ∷ ms) run u)
    | inl no_metrics ↦ elim (Option-cases g.first_err) [
      | inl fine ↦ simp (no_metrics, fine, conclude) (register-Concluded env start [] run u)
      | inr (e, bad) ↦ simp (no_metrics, bad, conclude) u
    ]
  ]

  perf-Concluded :
      (run : Run R) → Untouched start run → Post (Concluded env start) (collect_perf env run)
  unfolding collect_perf
  perf-Concluded run u =
      Post-bind Still (Concluded env start) (local_zone env run) _
        (local_zone-Quiet env start run u)
        λ lz run' u'.
          Post-bind Still (Concluded env start)
            (run_queries env (vdc_of lz) (flux_duration run.settings.perf_range) (env.order 6) _
              run')
            _
            (queries-Quiet (vdc_of lz) (flux_duration run.settings.perf_range) (env.order 6) _ run'
              u')
            conclude-Concluded

  -- The collector of a name, if there is one, ends as the collectors do.
  abbrev Fit : Option (Func R) → Type 0
  Fit none = Unit {0}
  Fit (some fn) = Post (Concluded env start) (fn start)

  registry-Fit : (name : String) → Fit (registry env name)
  unfolding registry
  registry-Fit name =
      let u = Untouched-refl start in
      if-holds Fit (str_eq name "cluster") (some (collect_cluster env)) _
        (cluster-Concluded env start start u)
        (if-holds Fit (str_eq name "replication") (some (collect_replication env)) _
          (replication-Concluded env start start u)
          (if-holds Fit (str_eq name "node") (some (collect_node env)) _
            (node-Concluded env start start u)
            (if-holds Fit (str_eq name "metering") (some (collect_metering env)) _
              (metering-Concluded env start start u)
              (if-holds Fit (str_eq name "perf") (some (collect_perf env)) none
                (perf-Concluded start u) tt))))

  -- What is left when the collector of a name has been run.
  abbrev Judged : Bool → Run R → Type 0
  Judged true = Memoised start
  Judged false = Untouched start

  judged-Judged :
      (name : String) (e : Option Error) (run : Run R)
      → Concluded env start e run
      → Post Judged (judged env name e run)
  unfolding judged
  judged-Judged name none run c = c
  judged-Judged name (some e) run c = log_entry-Quiet start (collector_failed name e) run c

  run_collector-Judged : (name : String) → Post Judged (run_collector env name start)
  unfolding run_collector
  run_collector-Judged name = elim (Option-cases (registry env name)) [
    | inl unknown ↦
        rw (unknown, run_collector)
          (log_entry-Quiet start (unknown_collector name) start (Untouched-refl start))
    | inr (fn, known) ↦
        let fit : Post (Concluded env start) (fn start) = rw known at (registry-Fit name) in
        rw (known, run_collector)
          (Post-bind (Concluded env start) Judged (fn start) (judged env name) fit
            (judged-Judged name))
  ]

  abbrev judgement : (b : Bool) (run : Run R) → Judged b run → Memoised start run
  judgement true run j = j
  judgement false run j = j.memo

  module _ (name : String) (run : Run R) where
    -- When the collector of a name fails, or no collector has the name, the registry of the
    -- request is the one there was before, whatever the appliance answered: a collector registers
    -- all of its metrics at its end or none.
    pub failed_registers_nothing :
        run_collector env name start ≡ done false run → run.registry ≡ start.registry
    failed_registers_nothing ended =
        let j : Post Judged (done false run) = rw ended at (run_collector-Judged name) in
        j.same_registry

    -- A collector keeps what has been memoised.
    pub run_collector-Memoised :
        (success : Bool) → run_collector env name start ≡ done success run → Memoised start run
    run_collector-Memoised success ended =
        let j : Post Judged (done success run) = rw ended at (run_collector-Judged name) in
        judgement success run j

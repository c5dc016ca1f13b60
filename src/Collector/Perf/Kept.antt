-- ===== src/Collector/Perf/Kept.antt =====
-- What the goroutines of `collectPerf` (internal/collector/perf.go) have gathered.
use prometheus_obs_exporter.Prelude.{
  ℕ, String, Bytes, ◌≡◌, refl, sym, ◌∙◌, ap, List, [], ◌∷◌, ◌++◌, Option-cases, inl, inr,
}
use mathlib.Core.List.{append_assoc, append-nil}
use prometheus_obs_exporter.Obsclient.Flux.{FluxResult, query_flux}
use prometheus_obs_exporter.Collector.Metrics.{Metric}
use prometheus_obs_exporter.Collector.Run.{
  Env, Run, Act, done, panic, Fetched, fetched, failed, call,
}
use prometheus_obs_exporter.Collector.Run.Frame.{Post, Post-bind}
use prometheus_obs_exporter.Collector.Perf.{
  Query, Gathered, query_at, query_text, query_metrics, with_results, run_query, run_queries,
}

module _ {W R : Type 0} (env : Env W R) (vdc : String) (range : Bytes) where
  -- `g'` has the metrics of `g` and more behind them.
  abbrev pub Extends : Gathered W → Gathered W → Type 0
  Extends g g' = (more : List (Metric W)) × (g'.metrics ≡ g.metrics ++ more)

  abbrev After : Gathered W → Gathered W → Run R → Type 0
  After g g' run = Extends g g'

  Extends-trans : (g h k : Gathered W) → Extends g h → Extends h k → Extends g k
  Extends-trans g h k (m, e) (n, e') =
      (m ++ n, e' ∙ ap (λ ms. ms ++ n) e ∙ append_assoc g.metrics m n)

  results-Extends :
      (q : Query) (g : Gathered W) (r : Fetched (List (FluxResult W))) (run : Run R)
      → Post (After g) (with_results env vdc range q g r run)
  unfolding with_results
  results-Extends q g (fetched rs) run = (query_metrics env.f vdc q rs, refl)
  results-Extends q g (failed e) run = ([], sym (append-nil g.metrics))

  query-Extends :
      (q : Query) (g : Gathered W) (run : Run R) → Post (After g) (run_query env vdc range q g run)
  unfolding run_query
  query-Extends q g run =
      let m = query_flux env.f env.parse_time env.net env.dec (query_text range q) in
      Post-bind (λ _ _. Unit {0}) (After g) (call m run) _ (always (call m run))
        (λ r run' _. results-Extends q g r run')
    where
      always : {A : Type 0} (a : Act R A) → Post (λ _ _. Unit {0}) a
      always (done x run) = tt
      always (panic run) = tt

  queries-Extends :
      (order : List ℕ) (g : Gathered W) (run : Run R)
      → Post (After g) (run_queries env vdc range order g run)
  unfolding run_queries
  queries-Extends [] g run = ([], sym (append-nil g.metrics))
  queries-Extends (i ∷ order) g run = elim (Option-cases (query_at i)) [
    | inl past ↦ rw (past, run_queries) (queries-Extends order g run)
    | inr (q, at_i) ↦
        rw (at_i, run_queries)
          (Post-bind (After g) (After g) (run_query env vdc range q g run)
            (run_queries env vdc range order) (query-Extends q g run)
            (λ h run' x.
              weaken g h x (run_queries env vdc range order h run') (queries-Extends order h run')))
  ]
    where
      weaken :
          (g h : Gathered W)
          → Extends g h
          → (a : Act R (Gathered W)) → Post (After h) a
          → Post (After g) a
      weaken g h x (done k run) y = Extends-trans g h k x y
      weaken g h x (panic run) y = tt

  -- The queries that run after some metrics have been gathered keep them, in whatever order they run
  -- and whichever of them fail: the metrics before are the beginning of those after.
  pub run_queries-Extends :
      (order : List ℕ) (g g' : Gathered W) (run run' : Run R)
      → run_queries env vdc range order g run ≡ done g' run'
      → Extends g g'
  run_queries-Extends order g g' run run' e =
      let h : Post (After g) (done g' run') = rw e at (queries-Extends order g run) in h

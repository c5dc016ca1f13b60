-- ===== src/Collector/Perf/Tasks.antt =====
-- The goroutines of `collectPerf` (perf.go), whose steps interleave.
use prometheus_obs_exporter.Prelude.{
  String, Bytes, none, some, List, [], ◌∷◌, concat_map, Option-cases, inl, inr, map,
}
use prometheus_obs_exporter.Goroutines.{Task, ret, bind}
use prometheus_obs_exporter.Goroutines.Output.{
  beside, emit_all, Emits, emit_all-Emits, beside-Emits, then_beside-Emits,
}
use prometheus_obs_exporter.Obsclient.Net.{building, wrapped}
use prometheus_obs_exporter.Obsclient.Client.{Client, wrap}
use prometheus_obs_exporter.Obsclient.Auth.{post_authenticated_json}
use prometheus_obs_exporter.Obsclient.Auth.Steady.{Steady, HasToken}
use prometheus_obs_exporter.Obsclient.Flux.{
  FluxResult, encoded, flux_query_path, flatten_flux_series, query_flux,
}
use prometheus_obs_exporter.Collector.Run.{Env, Run, Fetched, fetched, failed, query_failed, call}
use prometheus_obs_exporter.Collector.Run.Steady.{Yields}
use prometheus_obs_exporter.Collector.Run.Tasks.{Asking, ◌>>=◌, wrap_task, log_task, post_task}
use prometheus_obs_exporter.Collector.Run.Tasks.Runs.{
  Runs, ret-Runs, failed-Runs, bind-Runs, wrap-Runs, post-Runs,
}
use prometheus_obs_exporter.Collector.Run.Tasks.Settling.{
  KeepsClient, IsSteady, then-IsSteady, ret-IsSteady, log-IsSteady, wrap-IsSteady, post-IsSteady,
}
use prometheus_obs_exporter.Collector.Run.Tasks.Matches.{call-Matches, Matches-Yields}
use prometheus_obs_exporter.Collector.Perf.Updates.{Update, added, broken}
use prometheus_obs_exporter.Collector.Perf.{
  Query, throughput, read_tps, write_tps, read_latency, write_latency, error_head, query_text,
  query_metrics,
}

-- The queries in the order in which the code starts their goroutines.
abbrev pub queries : List Query
queries = throughput ∷ read_tps ∷ write_tps ∷ read_latency ∷ write_latency ∷ error_head ∷ []

module _ {W R : Type 0} (env : Env W R) where
  unfoldable pub encoding_task : Bytes → Asking R Bytes
  encoding_task query = elim (env.dec.encode_flux_query (record { query = query })) [
    | none ↦ ret (failed (wrapped "obsclient: encoding flux query" building))
    | some body ↦ ret (fetched body)
  ]

  -- `Query` of flux.go
  unfoldable pub flux_task : Bytes → Asking R (List (FluxResult W))
  unfolding encoding_task
  flux_task query = do
    body ← encoding_task query
    resp ←
        wrap_task "obsclient: flux query"
          (post_task env.net env.dec.flux_query_response flux_query_path body)
    ret (fetched (concat_map (flatten_flux_series env.f env.parse_time) resp.series))

  -- What a failed query logs, behind the update of `firstErr`.
  unfoldable pub note_task : Bytes → Fetched (List (FluxResult W)) → Task (Run R) (Unit {0})
  note_task text (fetched rs) = ret tt
  note_task text (failed e) = log_task (query_failed text e)

  -- The updates of a goroutine, in their order: `addMetrics` for each metric, or `firstErr`.
  unfoldable pub updates_of : String → Query → Fetched (List (FluxResult W)) → List (Update W)
  updates_of vdc q (fetched rs) = map (λ m. added m) (query_metrics env.f vdc q rs)
  updates_of vdc q (failed e) = broken e ∷ []

  -- The goroutine of a query.
  unfoldable pub query_task : String → Bytes → Query → Task (Run R × List (Update W)) (Unit {0})
  unfolding flux_task updates_of note_task
  query_task vdc range q = bind (beside (flux_task (query_text range q))) (λ rs.
      bind (emit_all (updates_of vdc q rs)) (λ _. beside (note_task (query_text range q) rs)))

  -- The goroutines in the order of the code.
  abbrev pub perf_tasks : String → Bytes → List (Task (Run R × List (Update W)) (Unit {0}))
  perf_tasks vdc range = map (λ q. query_task vdc range q) queries

  encoding_task-Runs :
      (query : Bytes)
      → Runs (encoding_task query) (encoded env.f env.parse_time env.net env.dec query)
  unfolding encoding_task encoded
  encoding_task-Runs query =
      elim (Option-cases (env.dec.encode_flux_query (record { query = query }))) [
        | inl bad ↦ rw (encoding_task, encoded, bad) (failed-Runs _)
        | inr (body, good) ↦ rw (encoding_task, encoded, good) (ret-Runs body)
      ]

  flux_task-Runs :
      (query : Bytes)
      → Runs (flux_task query) (query_flux env.f env.parse_time env.net env.dec query)
  unfolding flux_task query_flux
  flux_task-Runs query =
      bind-Runs (encoding_task query) (encoded env.f env.parse_time env.net env.dec query) _ _
        (encoding_task-Runs query)
        (λ body.
          bind-Runs
            (wrap_task "obsclient: flux query"
              (post_task env.net env.dec.flux_query_response flux_query_path body))
            (wrap "obsclient: flux query"
              (post_authenticated_json env.net env.dec.flux_query_response flux_query_path body))
            _ _
            (wrap-Runs "obsclient: flux query"
              (post_task env.net env.dec.flux_query_response flux_query_path body) _
              (post-Runs env.net env.dec.flux_query_response flux_query_path body))
            (λ resp. ret-Runs _))

  module _ (steady : Steady env.net) (c : Client) (held : HasToken c) where
    encoding_task-IsSteady : (query : Bytes) → IsSteady R c (encoding_task query)
    unfolding encoding_task
    encoding_task-IsSteady query =
        elim (Option-cases (env.dec.encode_flux_query (record { query = query }))) [
          | inl bad ↦ rw (encoding_task, bad) (ret-IsSteady R c _)
          | inr (body, good) ↦ rw (encoding_task, good) (ret-IsSteady R c _)
        ]

    pub flux_task-IsSteady : (query : Bytes) → IsSteady R c (flux_task query)
    unfolding flux_task
    flux_task-IsSteady query =
        then-IsSteady R c (encoding_task query) _ (encoding_task-IsSteady query) (λ body.
          then-IsSteady R c
            (wrap_task "obsclient: flux query"
              (post_task env.net env.dec.flux_query_response flux_query_path body))
            _
            (wrap-IsSteady R c _
              (post_task env.net env.dec.flux_query_response flux_query_path body)
              (post-IsSteady R env.net steady c held env.dec.flux_query_response flux_query_path
                body))
            (λ resp. ret-IsSteady R c _))

    pub flux-Yields :
        (query : Bytes)
        → Yields {R = R} c
            (call (query_flux env.f env.parse_time env.net env.dec query))
            (flux_task-IsSteady query).0
    flux-Yields query =
        Matches-Yields c (flux_task query)
          (call (query_flux env.f env.parse_time env.net env.dec query))
          (call-Matches (flux_task query) (query_flux env.f env.parse_time env.net env.dec query)
            (flux_task-Runs query))
          (flux_task-IsSteady query)

    note_task-IsSteady :
        (text : Bytes) (rs : Fetched (List (FluxResult W))) → IsSteady R c (note_task text rs)
    unfolding note_task
    note_task-IsSteady text (fetched rs) = ret-IsSteady R c tt
    note_task-IsSteady text (failed e) = log-IsSteady R c (query_failed text e)

    pub query_task-Emits :
        (vdc : String) (range : Bytes) (q : Query)
        → Emits
            (KeepsClient R c)
            (updates_of vdc q (flux_task-IsSteady (query_text range q)).0)
            (query_task vdc range q)
    unfolding query_task
    query_task-Emits vdc range q =
        let (rs, settled) = flux_task-IsSteady (query_text range q) in
        let (u, noted) = note_task-IsSteady (query_text range q) rs in
        beside-Emits (KeepsClient R c) rs (updates_of vdc q rs) (flux_task (query_text range q)) _
          settled
          (then_beside-Emits (KeepsClient R c) (updates_of vdc q rs)
            (emit_all (updates_of vdc q rs)) u (note_task (query_text range q) rs) noted
            (emit_all-Emits (KeepsClient R c) (updates_of vdc q rs)))

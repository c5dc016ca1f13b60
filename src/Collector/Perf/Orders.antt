-- ===== src/Collector/Perf/Orders.antt =====
-- The orders in which the goroutines of perf.go run, and their interleavings.
use prometheus_obs_exporter.Prelude.{
  ℕ, String, Bytes, ◌≡◌, refl, sym, Option, none, some, List, [], ◌∷◌, map, concat_map, Perm,
  Perm-concat_map, Option-cases, is_some, inl, inr,
}
use mathlib.Core.List.Perm
use prometheus_obs_exporter.Goroutines.{System, launched, Steps, AllOver}
use prometheus_obs_exporter.Goroutines.Output.Appended.{AllEmit, appended-Perm}
use prometheus_obs_exporter.Obsclient.Client.{Client}
use prometheus_obs_exporter.Obsclient.Auth.Steady.{Steady, HasToken}
use prometheus_obs_exporter.Obsclient.Flux.{FluxResult, query_flux}
use prometheus_obs_exporter.Collector.Run.{
  Env, Run, Fetched, fetched, failed, done, call, return, log_entry, query_failed,
}
use prometheus_obs_exporter.Collector.Run.Steady.{
  Yields, return-Yields, log_entry-Yields, bind-Yields,
}
use prometheus_obs_exporter.Collector.Run.Tasks.Settling.{KeepsClient}
use prometheus_obs_exporter.Collector.Perf.{
  Query, Gathered, query_at, query_text, query_metrics, with_results, run_query, run_queries,
}
use prometheus_obs_exporter.Collector.Perf.Updates.{
  Update, broken, update, gather, gather-append, gather-added, gather-metrics_Perm,
  gather-failed_Perm,
}
use prometheus_obs_exporter.Collector.Perf.Tasks.{
  queries, updates_of, query_task, perf_tasks, flux_task-IsSteady, flux-Yields, query_task-Emits,
}

abbrev pub nothing_yet : {W : Type 0} → Gathered W
nothing_yet = record { metrics = []; first_err = none }

-- The positions of the six goroutines.
abbrev pub positions : List ℕ
positions = 0 ∷ 1 ∷ 2 ∷ 3 ∷ 4 ∷ 5 ∷ []

module _ {W R : Type 0} (env : Env W R) (steady : Steady env.net) (c : Client) (held : HasToken c)
    (vdc : String) (range : Bytes) where
  -- What the query of a goroutine gives, and its updates.
  abbrev asked : Query → Fetched (List (FluxResult W))
  asked q = (flux_task-IsSteady env steady c held (query_text range q)).0

  abbrev own_of : Query → List (Update W)
  own_of q = updates_of env vdc q (asked q)

  own_at : Option Query → List (Update W)
  own_at none = []
  own_at (some q) = own_of q

  results-Yields :
      (q : Query) (g : Gathered W) (x : Fetched (List (FluxResult W)))
      → Yields {R = R} c (with_results env vdc range q g x) (gather (updates_of env vdc q x) g)
  unfolding with_results updates_of gather
  results-Yields q g (fetched rs) =
      rw (gather-added (query_metrics env.f vdc q rs) g) (return-Yields c _)
  results-Yields q g (failed e) =
      bind-Yields c (log_entry (query_failed (query_text range q) e))
        (λ _. return (update (broken e) g)) tt (update (broken e) g) (log_entry-Yields c _)
        (return-Yields c _)

  query-Yields :
      (q : Query) (g : Gathered W)
      → Yields {R = R} c (run_query env vdc range q g) (gather (own_of q) g)
  unfolding run_query
  query-Yields q g =
      bind-Yields c (call (query_flux env.f env.parse_time env.net env.dec (query_text range q)))
        (with_results env vdc range q g) (asked q) _
        (flux-Yields env steady c held (query_text range q)) (results-Yields q g _)

  queries-Yields :
      (order : List ℕ) (g : Gathered W)
      → Yields {R = R} c
          (run_queries env vdc range order g)
          (gather (concat_map (λ i. own_at (query_at i)) order) g)
  unfolding run_queries own_at gather
  queries-Yields [] g = return-Yields c g
  queries-Yields (i ∷ order) g = elim (Option-cases (query_at i)) [
    | inl out ↦ rw (out, run_queries, own_at) (queries-Yields order g)
    | inr (q, there) ↦
        rw
          (
            there,
            run_queries,
            own_at,
            gather-append (own_of q) (concat_map (λ j. own_at (query_at j)) order) g,
          )
          (bind-Yields c (run_query env vdc range q g) (run_queries env vdc range order)
            (gather (own_of q) g) _ (query-Yields q g) (queries-Yields order _))
  ]

  emits :
      (qs : List Query)
      → AllEmit (KeepsClient R c) (map own_of qs) (map (λ q. query_task env vdc range q) qs)
  emits [] = tt
  emits (q ∷ qs) = (query_task-Emits env steady c held vdc range q, emits qs)

  own-positions :
      concat_map (λ own. own) (map own_of queries) ≡ concat_map (λ i. own_at (query_at i)) positions
  unfolding own_at
  own-positions = refl

  -- When the target answers a request in the same way whatever was sent before, and never with a
  -- 401, and the client holds a token, so that no call logs in, the six goroutines may interleave in
  -- any way, between their requests and the updates of the shared variables: once all have ended,
  -- those variables hold the metrics of `run_queries`, which runs each goroutine in one piece, in
  -- some order, whatever the order in which it runs them, and hold an error exactly when those of
  -- `run_queries` do, which ends without a panic. The code has no semaphore here; `size` may be any
  -- bound on the goroutines under way.
  pub queries_interleaved-Perm :
      (size : ℕ) (order : List ℕ) (run : Run R) (p : System (Run R × List (Update W)) (Unit {0}))
      → run.session.client ≡ c
      → Perm order positions
      → Steps size (launched (perf_tasks env vdc range) (run, [])) p
      → AllOver p
      → (g : Gathered W) × (end : Run R) × (run_queries env vdc range order nothing_yet run
          ≡ done g end)
        × Perm (gather p.state.1 nothing_yet).metrics g.metrics
        × (is_some (gather p.state.1 nothing_yet).first_err ≡ is_some g.first_err)
  queries_interleaved-Perm size order run p h ordered r all =
      let us = concat_map (λ i. own_at (query_at i)) order in
      let (end, same, _) = queries-Yields order nothing_yet run h in
      let appended : Perm p.state.1 (concat_map (λ i. own_at (query_at i)) positions) =
        rw (sym own-positions) (
          appended-Perm (KeepsClient R c) size (map own_of queries) (perf_tasks env vdc range) run p
            (emits queries) h r all) in
      let alike : Perm p.state.1 us =
        Perm.trans appended (Perm.symm (Perm-concat_map (λ i. own_at (query_at i)) ordered)) in
      (
        gather us nothing_yet,
        end,
        same,
        gather-metrics_Perm p.state.1 us nothing_yet alike,
        gather-failed_Perm p.state.1 us nothing_yet alike,
      )

-- ===== src/Collector/Perf.antt =====
-- internal/collector/perf.go: six Flux queries and the metrics of the whole cluster. Here the six
-- goroutines run in the order `env.order 6`, each in one piece; Perf/Tasks has their steps, which
-- interleave.
pub mod Kept
pub mod Names
pub mod Orders
pub mod Tasks
pub mod Updates
pub mod Series
use prometheus_obs_exporter.Prelude.{
  ℕ, zero, suc, String, Bytes, Bool, true, false, Option, none, some, List, [], ◌∷◌, ◌++◌,
  concat_map, str_eq, ◌||◌, if◌then◌else◌,
}
use prometheus_obs_exporter.Prelude.Dict.{find}
use prometheus_obs_exporter.Obsclient.Net.{Error}
use prometheus_obs_exporter.Obsclient.FlexNumber.{Float64}
use prometheus_obs_exporter.Obsclient.Types.{LocalZone}
use prometheus_obs_exporter.Obsclient.Flux.{FluxResult, or_else, query_flux}
use prometheus_obs_exporter.Collector.Duration.{
  flux_duration, flux_last_query, flux_last_query_with_tag,
}
use prometheus_obs_exporter.Collector.Metrics.{Desc, Metric, desc, gauge}
use prometheus_obs_exporter.Collector.Perf.Names.{
  meas_throughput, field_read_bytes, field_write_bytes, meas_transaction_method, tag_method,
  tag_method_read, tag_method_write, field_succeed_counter, field_failed_counter, meas_latency,
  tag_id, tag_id_read, tag_id_write, field_p50, meas_error_head, tag_head, field_system_errors,
  field_user_errors,
}
use prometheus_obs_exporter.Collector.Replication.{thousandth}
use prometheus_obs_exporter.Collector.Run.{
  Env, Fetched, fetched, failed, query_failed, Scrape, Func, return, call, log_entry, local_zone,
  must_register, ◌>>=◌, ◌>>◌,
}

abbrev pub read_latency_desc : Desc
read_latency_desc = desc "obs_perf_read_latency_seconds" ("vdc" ∷ [])

abbrev pub write_latency_desc : Desc
write_latency_desc = desc "obs_perf_write_latency_seconds" ("vdc" ∷ [])

abbrev pub read_bytes_desc : Desc
read_bytes_desc = desc "obs_perf_read_bytes_per_second" ("vdc" ∷ [])

abbrev pub write_bytes_desc : Desc
write_bytes_desc = desc "obs_perf_write_bytes_per_second" ("vdc" ∷ [])

abbrev pub read_tps_desc : Desc
read_tps_desc = desc "obs_perf_read_transactions_per_second" ("vdc" ∷ [])

abbrev pub write_tps_desc : Desc
write_tps_desc = desc "obs_perf_write_transactions_per_second" ("vdc" ∷ [])

abbrev pub errors_desc : Desc
errors_desc = desc "obs_perf_transaction_errors" ("vdc" ∷ "category" ∷ "error_type" ∷ [])

-- Which of the six queries a goroutine makes.
pub data Query : Type 0 where
  throughput read_tps write_tps read_latency write_latency error_head : Query

unfoldable pub query_text : Bytes → Query → Bytes
query_text range throughput = flux_last_query range meas_throughput
query_text range read_tps =
    flux_last_query_with_tag range meas_transaction_method tag_method tag_method_read
query_text range write_tps =
    flux_last_query_with_tag range meas_transaction_method tag_method tag_method_write
query_text range read_latency = flux_last_query_with_tag range meas_latency tag_id tag_id_read
query_text range write_latency = flux_last_query_with_tag range meas_latency tag_id tag_id_write
query_text range error_head = flux_last_query range meas_error_head

module _ {W : Type 0} (f : Float64 W) where
  abbrev pub is_request_counter : FluxResult W → Bool
  is_request_counter r = str_eq r.field field_succeed_counter || str_eq r.field field_failed_counter

  -- The loop of `sumTPS`, over the sum so far and whether a counter was found.
  sum_from : W → Bool → List (FluxResult W) → Option W
  sum_from sum found [] = if found then some sum else none
  sum_from sum found (r ∷ rs) =
      sum_from (if is_request_counter r then f.add sum r.value else sum)
        (if is_request_counter r then true else found) rs

  unfoldable pub sum_tps : List (FluxResult W) → Option W
  unfolding sum_from
  sum_tps = sum_from (f.of_nat 0) false

  unfoldable pub find_field : String → List (FluxResult W) → Option W
  find_field field [] = none
  find_field field (r ∷ rs) = if str_eq r.field field then some r.value else find_field field rs

  unfoldable pub throughput_row : String → FluxResult W → List (Metric W)
  throughput_row vdc r =
      if str_eq r.field field_read_bytes
      then gauge read_bytes_desc r.value (vdc ∷ []) ∷ []
      else if str_eq r.field field_write_bytes
      then gauge write_bytes_desc r.value (vdc ∷ []) ∷ []
      else []

  unfoldable pub error_metric : String → String → FluxResult W → Metric W
  error_metric vdc category r =
      gauge errors_desc r.value (vdc ∷ category ∷ or_else "" (find tag_head r.tags) ∷ [])

  unfoldable pub error_row : String → FluxResult W → List (Metric W)
  unfolding error_metric
  error_row vdc r =
      if str_eq r.field field_system_errors
      then error_metric vdc "system" r ∷ []
      else if str_eq r.field field_user_errors
      then error_metric vdc "user" r ∷ []
      else []

  unfoldable pub one : Option W → (W → Metric W) → List (Metric W)
  one none metric = []
  one (some v) metric = metric v ∷ []

  -- What a goroutine adds for the results of its query.
  unfoldable pub query_metrics : String → Query → List (FluxResult W) → List (Metric W)
  unfolding throughput_row error_row one
  query_metrics vdc throughput rs = concat_map (throughput_row vdc) rs
  query_metrics vdc read_tps rs = one (sum_tps rs) (λ v. gauge read_tps_desc v (vdc ∷ []))
  query_metrics vdc write_tps rs = one (sum_tps rs) (λ v. gauge write_tps_desc v (vdc ∷ []))
  query_metrics vdc read_latency rs =
      one (find_field field_p50 rs) (λ v. gauge read_latency_desc (thousandth f v) (vdc ∷ []))
  query_metrics vdc write_latency rs =
      one (find_field field_p50 rs) (λ v. gauge write_latency_desc (thousandth f v) (vdc ∷ []))
  query_metrics vdc error_head rs = concat_map (error_row vdc) rs

-- The goroutine at a position of the code.
abbrev pub query_at : ℕ → Option Query
query_at zero = some throughput
query_at (suc zero) = some read_tps
query_at (suc (suc zero)) = some write_tps
query_at (suc (suc (suc zero))) = some read_latency
query_at (suc (suc (suc (suc zero)))) = some write_latency
query_at (suc (suc (suc (suc (suc zero))))) = some error_head
query_at (suc (suc (suc (suc (suc (suc i)))))) = none

-- The variables that the goroutines share.
pub record Gathered (W : Type 0) : Type 0 where
  pub metrics : List (Metric W)
  pub first_err : Option Error

module _ {W R : Type 0} (env : Env W R) (vdc : String) (range : Bytes) where
  -- The first error is kept, and the query of a failed goroutine gives no results.
  unfoldable pub with_results :
      Query → Gathered W → Fetched (List (FluxResult W)) → Scrape R (Gathered W)
  with_results q g (fetched rs) =
      return (record g { metrics = g.metrics ++ query_metrics env.f vdc q rs })
  with_results q g (failed e) =
      log_entry (query_failed (query_text range q) e)
      >> return (record g { first_err = elim g.first_err [ none ↦ some e | some d ↦ some d ] })

  unfoldable pub run_query : Query → Gathered W → Scrape R (Gathered W)
  run_query q g = do
    rs ← call (query_flux env.f env.parse_time env.net env.dec (query_text range q))
    with_results q g rs

  unfoldable pub run_queries : List ℕ → Gathered W → Scrape R (Gathered W)
  run_queries [] g = return g
  run_queries (i ∷ order) g = elim (query_at i) [
    | none ↦ run_queries order g
    | some q ↦ run_query q g >>= run_queries order
  ]

unfoldable pub vdc_of : Fetched LocalZone → String
vdc_of (fetched lz) = lz.name
vdc_of (failed _) = "unknown"

module _ {W R : Type 0} (env : Env W R) where
  -- An error only if there is no metric at all and some query failed.
  unfoldable pub conclude : Gathered W → Func R
  conclude g = elim g.metrics [
    | [] ↦ elim g.first_err [
      | some e ↦ return (some e)
      | none ↦ must_register env [] >> return none
    ]
    | m ∷ ms ↦ must_register env (m ∷ ms) >> return none
  ]

  unfoldable pub collect_perf : Func R
  collect_perf run =
      (do
        lz ← local_zone env
        g ←
            run_queries env (vdc_of lz) (flux_duration run.settings.perf_range) (env.order 6)
              (record { metrics = []; first_err = none })
        conclude g)
        run

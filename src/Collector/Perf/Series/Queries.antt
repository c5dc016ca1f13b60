-- ===== src/Collector/Perf/Series/Queries.antt =====
-- The series of all the queries of perf.go.
use prometheus_obs_exporter.Prelude.{
  String, ◌≡◌, ◌≢◌, refl, sym, ap, ◌∙◌, Option, none, some, List, [], ◌∷◌, All, All-append,
  concat_map, str_eq, inl, if◌then◌else◌, ◌||◌,
}
use prometheus_obs_exporter.Obsclient.FlexNumber.{Float64}
use prometheus_obs_exporter.Obsclient.Flux.{FluxResult}
use prometheus_obs_exporter.Collector.Metrics.{Metric}
use prometheus_obs_exporter.Collector.Series.{
  Differ, HasDistinctSeries, HasDistinctNames, keys-HasDistinctSeries, each-Apart,
}
use prometheus_obs_exporter.Collector.Perf.{
  Query, throughput, read_tps, write_tps, read_latency, write_latency, error_head,
  read_latency_desc, write_latency_desc, read_bytes_desc, write_bytes_desc, read_tps_desc,
  write_tps_desc, throughput_row, error_row, one, query_metrics,
}
use prometheus_obs_exporter.Collector.Perf.Series.{
  Throughput, nothing, reads, writes, throughput_row-Throughput, Failures, no_failures, system,
  user, error_row-Failures, HasDistinctResults, query-distinct,
}

-- The query that the metrics of a descriptor come from.
abbrev query_of : String → Option Query
query_of name =
    if str_eq name read_bytes_desc.name || str_eq name write_bytes_desc.name
    then some throughput
    else if str_eq name read_tps_desc.name
    then some read_tps
    else if str_eq name write_tps_desc.name
    then some write_tps
    else if str_eq name read_latency_desc.name
    then some read_latency
    else if str_eq name write_latency_desc.name
    then some write_latency
    else some error_head

abbrev IsFrom : {W : Type 0} → Query → List (Metric W) → Type 0
IsFrom q = All (λ m. query_of m.desc.name ≡ some q)

module _ {W : Type 0} (f : Float64 W) (vdc : String) where
  concat_map-IsFrom :
      (q : Query) (row : FluxResult W → List (Metric W)) (rs : List (FluxResult W))
      → ((r : FluxResult W) → IsFrom q (row r))
      → IsFrom q (concat_map row rs)
  concat_map-IsFrom q row [] h = tt
  concat_map-IsFrom q row (r ∷ rs) h =
      All-append (λ m. query_of m.desc.name ≡ some q) (row r) (concat_map row rs) (h r)
        (concat_map-IsFrom q row rs h)

  Throughput-IsFrom :
      (r : FluxResult W) (ms : List (Metric W)) → Throughput f vdc r ms → IsFrom throughput ms
  Throughput-IsFrom r ms nothing = tt
  Throughput-IsFrom r ms (reads e) = (refl, tt)
  Throughput-IsFrom r ms (writes e) = (refl, tt)

  Failures-IsFrom :
      (r : FluxResult W) (ms : List (Metric W)) → Failures f vdc r ms → IsFrom error_head ms
  Failures-IsFrom r ms no_failures = tt
  Failures-IsFrom r ms (system e) = (refl, tt)
  Failures-IsFrom r ms (user e) = (refl, tt)

  one-IsFrom :
      (q : Query) (o : Option W) (metric : W → Metric W)
      → ((v : W) → query_of (metric v).desc.name ≡ some q)
      → IsFrom q (one f o metric)
  unfolding one
  one-IsFrom q none metric h = tt
  one-IsFrom q (some v) metric h = (h v, tt)

  query-IsFrom : (q : Query) (rs : List (FluxResult W)) → IsFrom q (query_metrics f vdc q rs)
  unfolding query_metrics
  query-IsFrom throughput rs =
      concat_map-IsFrom throughput (throughput_row f vdc) rs
        (λ r. Throughput-IsFrom r _ (throughput_row-Throughput f vdc r))
  query-IsFrom read_tps rs = one-IsFrom read_tps _ _ (λ v. refl)
  query-IsFrom write_tps rs = one-IsFrom write_tps _ _ (λ v. refl)
  query-IsFrom read_latency rs = one-IsFrom read_latency _ _ (λ v. refl)
  query-IsFrom write_latency rs = one-IsFrom write_latency _ _ (λ v. refl)
  query-IsFrom error_head rs =
      concat_map-IsFrom error_head (error_row f vdc) rs
        (λ r. Failures-IsFrom r _ (error_row-Failures f vdc r))

  other_query :
      (q q' : Query) (m m' : Metric W)
      → q ≢ q'
      → query_of m.desc.name ≡ some q
      → query_of m'.desc.name ≡ some q'
      → Differ m m'
  other_query q q' m m' n e e' =
      inl (λ same. let z : some q ≡ some q' = sym e ∙ ap query_of same ∙ e' in n cc)

-- The results that one of the queries has been given.
pub record Given (W : Type 0) : Type 0 where
  pub query : Query
  pub results : List (FluxResult W)
  pub distinct : HasDistinctResults query results

module _ {W : Type 0} (f : Float64 W) (vdc : String) where
  -- When no two results of the query of throughput have one field, and no two of the query of errors
  -- one field and one tag `head`, the metrics of different queries, in any order, belong to different
  -- series, whatever other fields and tags the results have.
  pub queries-HasDistinctSeries :
      (given : List (Given W))
      → HasDistinctNames (λ g. g.query) given
      → HasDistinctSeries (concat_map (λ g. query_metrics f vdc g.query g.results) given)
  queries-HasDistinctSeries given =
      keys-HasDistinctSeries (λ g. g.query) (λ g. query_metrics f vdc g.query g.results) given
        (λ g h n.
          each-Apart (λ m. query_of m.desc.name ≡ some g.query)
            (λ m. query_of m.desc.name ≡ some h.query)
            (λ m m'. other_query f vdc g.query h.query m m' n) _ _
            (query-IsFrom f vdc g.query g.results) (query-IsFrom f vdc h.query h.results))
        (λ g. query-distinct f vdc g.query g.results g.distinct)

-- ===== src/Collector/Perf/Series.antt =====
-- The series of one query of perf.go.
pub mod Queries
use prometheus_obs_exporter.Prelude.{
  ℕ, String, ◌≡◌, ◌≢◌, refl, sym, ap, ◌∙◌, Bool, true, false, Option, none, some, List, [], ◌∷◌,
  ◌++◌, All, All-append, concat_map, str_eq, Option-cases, Bool-cases, inl, inr, if◌then◌else◌,
  ◌||◌,
}
use text.Mathlib.TextEquality.{eq_iff}
use prometheus_obs_exporter.Prelude.Dict.{find}
use prometheus_obs_exporter.Obsclient.FlexNumber.{Float64}
use prometheus_obs_exporter.Obsclient.Flux.{FluxResult, or_else}
use prometheus_obs_exporter.Collector.Metrics.{Desc, Metric, gauge}
use prometheus_obs_exporter.Collector.Series.{
  Differ, Apart, HasDistinctSeries, HasDistinctNames, keys-HasDistinctSeries, each-Apart, not_same,
}
use prometheus_obs_exporter.Collector.Perf.Names.{
  field_read_bytes, field_write_bytes, tag_head, field_system_errors, field_user_errors,
}
use prometheus_obs_exporter.Collector.Perf.{
  Query, throughput, read_tps, write_tps, read_latency, write_latency, error_head,
  read_latency_desc, write_latency_desc, read_bytes_desc, write_bytes_desc, read_tps_desc,
  write_tps_desc, errors_desc, throughput_row, error_row, error_metric, one, query_metrics,
}

abbrev second_label : List String → String
second_label (a ∷ b ∷ _) = b
second_label _ = ""

abbrev third_label : List String → String
third_label (a ∷ b ∷ c ∷ _) = c
third_label _ = ""

module _ {W : Type 0} where
  abbrev head_of : FluxResult W → String
  head_of r = or_else "" (find tag_head r.tags)

  abbrev error_key : FluxResult W → String × String
  error_key r = (r.field, head_of r)

  -- What tells two results of a query apart: the field, and for the errors the tag `head` as well.
  -- The other queries give one metric at most.
  abbrev pub HasDistinctResults : Query → List (FluxResult W) → Type 0
  HasDistinctResults throughput rs = HasDistinctNames (λ r. r.field) rs
  HasDistinctResults error_head rs = HasDistinctNames error_key rs
  HasDistinctResults _ rs = Unit {0}

module _ {W : Type 0} (f : Float64 W) (vdc : String) where
  -- The metrics of one result of the query of throughput.
  data Throughput (r : FluxResult W) : List (Metric W) → Type 0 where
    nothing : Throughput r []
    reads :
        r.field ≡ field_read_bytes → Throughput r (gauge read_bytes_desc r.value (vdc ∷ []) ∷ [])
    writes :
        r.field ≡ field_write_bytes → Throughput r (gauge write_bytes_desc r.value (vdc ∷ []) ∷ [])

  throughput_row-Throughput : (r : FluxResult W) → Throughput r (throughput_row f vdc r)
  unfolding throughput_row
  throughput_row-Throughput r = elim (Bool-cases (str_eq r.field field_read_bytes)) [
    | inl is_read ↦
        rw (throughput_row, is_read) (reads ((eq_iff r.field field_read_bytes).0 is_read))
    | inr not_read ↦ elim (Bool-cases (str_eq r.field field_write_bytes)) [
      | inl is_write ↦
          rw (throughput_row, not_read, is_write)
            (writes ((eq_iff r.field field_write_bytes).0 is_write))
      | inr neither ↦ rw (throughput_row, not_read, neither) nothing
    ]
  ]

  Throughput-Apart :
      (r s : FluxResult W) (ms ns : List (Metric W))
      → Throughput r ms
      → Throughput s ns
      → r.field ≢ s.field
      → Apart ms ns
  Throughput-Apart r s ms ns nothing y h = tt
  Throughput-Apart r s ms ns (reads e) nothing h = (tt, tt)
  Throughput-Apart r s ms ns (writes e) nothing h = (tt, tt)
  Throughput-Apart r s ms ns (reads e) (reads e') h = absurd (h (e ∙ sym e'))
  Throughput-Apart r s ms ns (writes e) (writes e') h = absurd (h (e ∙ sym e'))
  Throughput-Apart r s ms ns (reads e) (writes e') h =
      (((inl (not_same read_bytes_desc.name write_bytes_desc.name refl)), tt), tt)
  Throughput-Apart r s ms ns (writes e) (reads e') h =
      (((inl (not_same write_bytes_desc.name read_bytes_desc.name refl)), tt), tt)

  -- The metrics of one result of the query of errors.
  data Failures (r : FluxResult W) : List (Metric W) → Type 0 where
    no_failures : Failures r []
    system :
        r.field ≡ field_system_errors
        → Failures r (gauge errors_desc r.value (vdc ∷ "system" ∷ head_of r ∷ []) ∷ [])
    user :
        r.field ≡ field_user_errors
        → Failures r (gauge errors_desc r.value (vdc ∷ "user" ∷ head_of r ∷ []) ∷ [])

  error_row-Failures : (r : FluxResult W) → Failures r (error_row f vdc r)
  unfolding error_row error_metric
  error_row-Failures r = elim (Bool-cases (str_eq r.field field_system_errors)) [
    | inl is_system ↦
        rw (error_row, is_system) (system ((eq_iff r.field field_system_errors).0 is_system))
    | inr not_system ↦ elim (Bool-cases (str_eq r.field field_user_errors)) [
      | inl is_user ↦
          rw (error_row, not_system, is_user) (user ((eq_iff r.field field_user_errors).0 is_user))
      | inr neither ↦ rw (error_row, not_system, neither) no_failures
    ]
  ]

  same_key :
      (r s : FluxResult W) (field : String)
      → r.field ≡ field
      → s.field ≡ field
      → head_of r ≡ head_of s
      → error_key r ≡ error_key s
  same_key r s field e e' same = λ i. ((e ∙ sym e') i, same i)

  Failures-Apart :
      (r s : FluxResult W) (ms ns : List (Metric W))
      → Failures r ms
      → Failures s ns
      → error_key r ≢ error_key s
      → Apart ms ns
  Failures-Apart r s ms ns no_failures y h = tt
  Failures-Apart r s ms ns (system e) no_failures h = (tt, tt)
  Failures-Apart r s ms ns (user e) no_failures h = (tt, tt)
  Failures-Apart r s ms ns (system e) (system e') h =
      (((inr (λ same. h (same_key r s field_system_errors e e' (ap third_label same)))), tt), tt)
  Failures-Apart r s ms ns (user e) (user e') h =
      (((inr (λ same. h (same_key r s field_user_errors e e' (ap third_label same)))), tt), tt)
  Failures-Apart r s ms ns (system e) (user e') h =
      (((inr (λ same. not_same "system" "user" refl (ap second_label same))), tt), tt)
  Failures-Apart r s ms ns (user e) (system e') h =
      (((inr (λ same. not_same "user" "system" refl (ap second_label same))), tt), tt)

  Throughput-distinct :
      (r : FluxResult W) (ms : List (Metric W)) → Throughput r ms → HasDistinctSeries ms
  Throughput-distinct r ms nothing = tt
  Throughput-distinct r ms (reads e) = (tt, tt)
  Throughput-distinct r ms (writes e) = (tt, tt)

  Failures-distinct :
      (r : FluxResult W) (ms : List (Metric W)) → Failures r ms → HasDistinctSeries ms
  Failures-distinct r ms no_failures = tt
  Failures-distinct r ms (system e) = (tt, tt)
  Failures-distinct r ms (user e) = (tt, tt)

  one-distinct : (o : Option W) (metric : W → Metric W) → HasDistinctSeries (one f o metric)
  unfolding one
  one-distinct none metric = tt
  one-distinct (some v) metric = (tt, tt)

  query-distinct :
      (q : Query) (rs : List (FluxResult W))
      → HasDistinctResults q rs
      → HasDistinctSeries (query_metrics f vdc q rs)
  unfolding query_metrics
  query-distinct throughput rs h =
      keys-HasDistinctSeries (λ r. r.field) (throughput_row f vdc) rs
        (λ r s.
          Throughput-Apart r s _ _ (throughput_row-Throughput r) (throughput_row-Throughput s))
        (λ r. Throughput-distinct r _ (throughput_row-Throughput r)) h
  query-distinct read_tps rs h = one-distinct _ _
  query-distinct write_tps rs h = one-distinct _ _
  query-distinct read_latency rs h = one-distinct _ _
  query-distinct write_latency rs h = one-distinct _ _
  query-distinct error_head rs h =
      keys-HasDistinctSeries error_key (error_row f vdc) rs
        (λ r s. Failures-Apart r s _ _ (error_row-Failures r) (error_row-Failures s))
        (λ r. Failures-distinct r _ (error_row-Failures r)) h

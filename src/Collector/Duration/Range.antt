-- ===== src/Collector/Duration/Range.antt =====
-- The Flux range that the checked settings give to the queries (config.go:107-112, perf.go:118-168).
use prometheus_obs_exporter.Prelude.{
  utf8, ◌++◌, ℕ, ◌+◌, ◌*◌, ◌/◌, ◌≤◌, Bytes, ◌≡◌, some, arith, Option-cases, ap, ◌∙◌, inl, inr,
}
use prometheus_obs_exporter.Prelude.Int.{pos}
use prometheus_obs_exporter.Config.{Flags, Config, new, parsed, validate, with_credentials}
use prometheus_obs_exporter.Collector.Duration.{quoted, perf_bucket, second, flux_duration}
use prometheus_obs_exporter.Collector.Duration.Reads.{read_seconds, read_seconds-flux_duration}

validate_bound :
    (d c : Config) (n : ℕ)
    → validate d ≡ parsed c
    → c.collector_perf_range ≡ pos n
    → n ≤ 3600 * second
unfolding validate
validate_bound d c n e r = ground arith

new_validates :
    (fl : Flags) (c : Config) → new fl ≡ parsed c → (d : Config) × (validate d ≡ parsed c)
unfolding new
new_validates fl c e = elim (Option-cases fl.ecs_username) [
  | inl u ↦ absurd (ground arith)
  | inr (user, u) ↦ elim (Option-cases fl.ecs_password) [
    | inl p ↦ absurd (ground arith)
    | inr (pass, p) ↦ (with_credentials fl user pass, ground arith)
  ]
]

-- Settings that pass the check ask Flux for at most an hour: the literal of a range that is not
-- negative denotes 3600 seconds at most, also after the rounding.
pub parsed_range_bound :
    (fl : Flags) (c : Config) (n : ℕ)
    → new fl ≡ parsed c
    → c.collector_perf_range ≡ pos n
    → (s : ℕ) × (read_seconds (flux_duration c.collector_perf_range) ≡ some s) × (s ≤ 3600)
parsed_range_bound fl c n e r =
    let (d, v) = new_validates fl c e in
    let bound : n ≤ 3600 * second = validate_bound d c n v r in
    (
      (n + second / 2) / second,
      ap (λ t. read_seconds (flux_duration t)) r ∙ read_seconds-flux_duration n (omega arith),
      omega arith,
    )

-- The text between the bucket and the range in a query.
abbrev pub front_of_range : Bytes
front_of_range = utf8 "from(bucket:" ++ (quoted perf_bucket ++ utf8 ") |> ")

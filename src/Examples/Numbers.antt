-- ===== src/Examples/Numbers.antt =====
-- Numbers, durations, paths, Flux series and node statistics.
use prometheus_obs_exporter.Prelude.{
  ap, ℕ, zero, suc, ◌+◌, ◌*◌, ◌/◌, ◌≤◌, ◌<◌, utf8, ◌≡◌, refl, arith, none, some, [], ◌∷◌, ◌++◌, inl,
  inr,
}
use prometheus_obs_exporter.Prelude.Int.{ℤ, pos}
use prometheus_obs_exporter.Obsclient.FlexNumber.{unmarshal, float64, missing}
use prometheus_obs_exporter.Obsclient.FlexNumber.Reading.{IsBare, unmarshal_forms}
use prometheus_obs_exporter.Obsclient.Apis.{quota_path, billing_path}
use prometheus_obs_exporter.Obsclient.Apis.Paths.{Escapes, read_path, namespace_paths}
use prometheus_obs_exporter.Examples.Escapes.{
  unescape, path_escape-EndsNothing, unescape-path_escape,
}
use prometheus_obs_exporter.Obsclient.Types.{FluxSeries}
use prometheus_obs_exporter.Obsclient.DtStats.{get_all_node_dt_stats}
use prometheus_obs_exporter.Obsclient.DtStats.Slots.{Filled, Listed, get_all-Filled}
use prometheus_obs_exporter.Obsclient.Flux.{flatten_flux_series}
use prometheus_obs_exporter.Obsclient.Flux.Cells.{Flattens, flatten_flux_series-Flattens}
use prometheus_obs_exporter.Config.{Flags, Config, new, parsed, with_credentials, validate}
use prometheus_obs_exporter.Collector.Duration.{second, flux_duration}
use prometheus_obs_exporter.Collector.Duration.Reads.{read_seconds, read_seconds-flux_duration}
use prometheus_obs_exporter.Collector.Duration.Range.{parsed_range_bound}
use prometheus_obs_exporter.Examples.Target.{target_net, session_with}
use prometheus_obs_exporter.Examples.Floats.{floats, decoders}

twelve : IsBare (utf8 "12.5")
twelve = record {
  first = b'1';
  rest = utf8 "2.5";
  begins = refl;
  last = b'5';
  initial = utf8 "12.";
  ends = refl;
  no_space = refl;
  no_space_at_end = refl;
  no_quote = omega arith;
  no_null = λ e. cc;
}

unmarshal_forms_example :
    (unmarshal (utf8 " " ++ utf8 "12.5" ++ []) ≡ utf8 "12.5")
    × (unmarshal ([] ++ (b'"' ∷ (utf8 "12.5" ++ b'"' ∷ [])) ++ utf8 " ") ≡ utf8 "12.5")
    × (float64 floats (unmarshal (utf8 " " ++ utf8 "null" ++ [])) ≡ missing)
    × (float64 floats (unmarshal (utf8 " " ++ (b'"' ∷ b'"' ∷ []) ++ [])) ≡ missing)
unmarshal_forms_example =
    unmarshal_forms floats (utf8 " ") [] [] (utf8 " ") (utf8 "12.5") (refl, tt) tt tt (refl, tt)
      twelve

target_net-Escapes : Escapes target_net
target_net-Escapes = record {
  path_unescape = λ s. some (unescape s);
  segment = path_escape-EndsNothing;
  reads_back = λ s h. ap (λ t. some t) (unescape-path_escape s h);
}

namespace_paths_example :
    (read_path target_net-Escapes.path_unescape
        (utf8 "/object/namespaces/namespace/")
        (quota_path target_net "a/b")
      ≡ some (utf8 "a/b", utf8 "/quota"))
    × (read_path target_net-Escapes.path_unescape
          (utf8 "/object/billing/namespace/")
          (billing_path target_net "a/b")
        ≡ some (utf8 "a/b", utf8 "/info?sizeunit=KB"))
namespace_paths_example =
    namespace_paths target_net target_net-Escapes "a/b"
      (omega arith, (omega arith, (omega arith, tt)))

read_seconds-flux_duration_example :
    read_seconds (flux_duration (pos (300 * second))) ≡ some ((300 * second + second / 2) / second)
read_seconds-flux_duration_example = read_seconds-flux_duration (300 * second) (omega arith)

abbrev listed : (i : ℕ) → i < 2 → Listed i (1 ∷ 0 ∷ [])
listed zero h = inr (inl refl)
listed (suc zero) h = inl refl
listed (suc (suc i)) h = absurd (omega arith)

get_all-Filled_example :
    Filled target_net floats decoders
      ("n1" ∷ "n2" ∷ [])
      (get_all_node_dt_stats target_net floats decoders
        (1 ∷ 0 ∷ [])
        ("n1" ∷ "n2" ∷ [])
        (session_with "")).0
      0
get_all-Filled_example =
    get_all-Filled target_net floats decoders (1 ∷ 0 ∷ []) ("n1" ∷ "n2" ∷ []) (session_with "")
      listed 0 (omega arith)

abbrev some_series : FluxSeries
some_series = record {
  datatypes = [];
  columns = "_value" ∷ "_field" ∷ "head" ∷ [];
  values = ("7" ∷ "system_errors" ∷ "s3" ∷ []) ∷ ("" ∷ "user_errors" ∷ []) ∷ [];
}

flatten_flux_series-Flattens_example :
    Flattens floats
      (λ _. none)
      some_series.columns
      some_series.values
      (flatten_flux_series floats (λ _. none) some_series)
flatten_flux_series-Flattens_example = flatten_flux_series-Flattens floats (λ _. none) some_series

abbrev flags_with : ℤ → Flags
flags_with range = record {
  web_listen_address = none;
  web_config_file = none;
  ecs_username = some "monitor";
  ecs_password = some "secret";
  ecs_mgmt_port = none;
  ecs_obj_port = none;
  ecs_tls_insecure_skip_verify = none;
  ecs_tls_ca_file = none;
  collector_node_dt_stats = none;
  collector_metering_concurrency = none;
  collector_perf_range = some range;
}

abbrev minute_config : Config
minute_config = with_credentials (flags_with (pos 60000000000)) "monitor" "secret"

minute_parsed : new (flags_with (pos 60000000000)) ≡ parsed minute_config
unfolding new with_credentials validate
minute_parsed = refl

minute_range : minute_config.collector_perf_range ≡ pos 60000000000
unfolding with_credentials
minute_range = refl

parsed_range_bound_example :
    (s : ℕ) × (read_seconds (flux_duration minute_config.collector_perf_range) ≡ some s)
    × (s ≤ 3600)
parsed_range_bound_example =
    parsed_range_bound (flags_with (pos 60000000000)) minute_config 60000000000 minute_parsed
      minute_range

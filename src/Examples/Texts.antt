-- ===== src/Examples/Texts.antt =====
-- Tests of the functions on texts and numbers.
use prometheus_obs_exporter.Prelude.{◌+◌, ◌-◌, ◌*◌, ◌/◌, ◌^◌, utf8, decimal, ◌≡◌, refl}
use prometheus_obs_exporter.Prelude.Int.{pos, negsuc}
use prometheus_obs_exporter.Obsclient.FlexNumber.{unmarshal, int64, value, malformed}
use prometheus_obs_exporter.Examples.Escapes.{path_escape}
use prometheus_obs_exporter.Collector.Duration.{second, max_int64, flux_duration}
use prometheus_obs_exporter.Collector.Cluster.{infer_product}

quoted_number : unmarshal (utf8 " \"12.5\" ") ≡ utf8 "12.5"
unfolding unmarshal
quoted_number = refl

int64_min : int64 (utf8 "-9223372036854775808") ≡ value (negsuc (2 ^ 63 - 1))
unfolding int64
int64_min = refl

int64_over : int64 (utf8 "9223372036854775808") ≡ malformed
unfolding int64
int64_over = refl

five_minutes : flux_duration (pos 300000000000) ≡ utf8 "5m"
unfolding flux_duration decimal
five_minutes = refl

ninety_minutes : flux_duration (negsuc (5400 * second + second / 2 - 1)) ≡ utf8 "-1h30m1s"
unfolding flux_duration decimal
ninety_minutes = refl

least : flux_duration (negsuc max_int64) ≡ utf8 "-"
unfolding flux_duration decimal
least = refl

escaped : path_escape (utf8 "a/b c") ≡ utf8 "a%2Fb%20c"
unfolding path_escape
escaped = refl

products :
    (infer_product "3.8.1.0" ≡ "ecs")
    × (infer_product "4.1.0.0" ≡ "objectscale")
    × (infer_product "unknown" ≡ "unknown")
unfolding infer_product
products = (refl, refl, refl)

decimal_zero : decimal 0 ≡ utf8 "0"
unfolding decimal
decimal_zero = refl

decimal_port : decimal 4443 ≡ utf8 "4443"
unfolding decimal
decimal_port = refl

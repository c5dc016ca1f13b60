-- ===== src/Examples/World.antt =====
-- The outside of the program for the examples: a registry that keeps the metrics and refuses
-- nothing, files that are not there, and goroutines that run in reverse order.
use prometheus_obs_exporter.Prelude.{
  ℕ, zero, suc, String, Bool, ◌==◌, if◌then◌else◌, true, false, Option, none, some, List, [], ◌∷◌,
  ◌++◌,
}
use Prim.Native.Char.{code}
use prometheus_obs_exporter.Prelude.Int.{pos}
use prometheus_obs_exporter.Obsclient.Client.{Files}
use prometheus_obs_exporter.Config.{Config}
use prometheus_obs_exporter.Collector.Metrics.{ConstCollector, Registries, Metric}
use prometheus_obs_exporter.Collector.Run.{Env}
use prometheus_obs_exporter.Examples.Target.{target_net}
use prometheus_obs_exporter.Examples.Floats.{floats, decoders}

abbrev pub files : Files
files = record { read_file = λ _. none; append_certs_from_pem = λ _. false }

abbrev pub exporter_config : Config
exporter_config = record {
  username = "monitor";
  password = "secret";
  mgmt_port = pos 4443;
  obj_port = pos 9021;
  tls_insecure_skip_verify = false;
  tls_ca_file = "";
  collector_node_dt_stats = true;
  collector_metering_concurrency = pos 4;
  collector_perf_range = pos 300000000000;
  web = record { web_listen_addresses = []; web_config_file = "" };
}

abbrev register_all : ConstCollector ℕ → List (Metric ℕ) → Option (List (Metric ℕ))
register_all c metrics = some (metrics ++ c.metrics)

-- A text with a character of the code 255 stands for one that is not valid UTF-8.
abbrev pub is_plain : String → Bool
is_plain String.[] = true
is_plain (String.◌∷◌ c s) = if code c == 255 then false else is_plain s

abbrev pub registries : Registries ℕ (List (Metric ℕ))
registries = record {
  new_registry = [];
  register = register_all;
  gather = λ metrics. some metrics;
  valid_label = is_plain;
}

abbrev backwards : ℕ → List ℕ
backwards zero = []
backwards (suc n) = n ∷ backwards n

abbrev pub env : Env ℕ (List (Metric ℕ))
env = record {
  net = target_net;
  dec = decoders;
  f = floats;
  parse_time = λ _. none;
  reg = registries;
  order = backwards;
  elapsed = λ i. i;
}

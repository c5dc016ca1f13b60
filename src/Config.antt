-- ===== src/Config.antt =====
-- internal/config/config.go: the settings, the flags with their defaults, and the check of the
-- Flux range at the start. kingpin parses the flags; what it hands over is the record `Flags`.
use prometheus_obs_exporter.Prelude.{
  ℕ, String, Bool, true, false, Option, none, some, List, [], ◌∷◌, ltb, if◌then◌else◌,
}
use prometheus_obs_exporter.Prelude.Int.{ℤ, pos, negsuc}

-- `time.Hour`, in nanoseconds.
abbrev pub hour : ℕ
hour = 3600000000000

abbrev pub max_perf_range : ℤ
max_perf_range = pos hour

abbrev env_prefix : String
env_prefix = "OBS_EXPORTER_"

pub record WebFlagConfig : Type 0 where
  pub web_listen_addresses : List String
  pub web_config_file : String

pub record Config : Type 0 where
  pub username : String
  pub password : String
  pub mgmt_port : ℤ
  pub obj_port : ℤ
  pub tls_insecure_skip_verify : Bool
  pub tls_ca_file : String
  pub collector_node_dt_stats : Bool
  pub collector_metering_concurrency : ℤ
  pub collector_perf_range : ℤ
  pub web : WebFlagConfig

-- What kingpin reads from the arguments and the environment: `none` for a setting not given.
pub record Flags : Type 0 where
  pub web_listen_address : Option (List String)
  pub web_config_file : Option String
  pub ecs_username : Option String
  pub ecs_password : Option String
  pub ecs_mgmt_port : Option ℤ
  pub ecs_obj_port : Option ℤ
  pub ecs_tls_insecure_skip_verify : Option Bool
  pub ecs_tls_ca_file : Option String
  pub collector_node_dt_stats : Option Bool
  pub collector_metering_concurrency : Option ℤ
  pub collector_perf_range : Option ℤ

pub data ParseResult : Type 0 where
  parsed : Config → ParseResult
  required_flag : String → ParseResult
  range_too_long : ℤ → ParseResult

abbrev pub default : {A : Type 0} → A → Option A → A
default a none = a
default a (some b) = b

unfoldable pub with_credentials : Flags → String → String → Config
with_credentials fl user pass = record {
  username = user;
  password = pass;
  mgmt_port = default (pos 4443) fl.ecs_mgmt_port;
  obj_port = default (pos 9021) fl.ecs_obj_port;
  tls_insecure_skip_verify = default false fl.ecs_tls_insecure_skip_verify;
  tls_ca_file = default "" fl.ecs_tls_ca_file;
  collector_node_dt_stats = default true fl.collector_node_dt_stats;
  collector_metering_concurrency = default (pos 4) fl.collector_metering_concurrency;
  collector_perf_range = default (pos 300000000000) fl.collector_perf_range;
  web = record {
    web_listen_addresses = default (":9438" ∷ []) fl.web_listen_address;
    web_config_file = default "" fl.web_config_file;
  };
}

-- `c.CollectorPerfRange > maxPerfRange`
unfoldable pub exceeds : ℤ → Bool
exceeds (pos n) = ltb hour n
exceeds (negsuc n) = false

unfoldable pub validate : Config → ParseResult
unfolding exceeds
validate c =
    if exceeds c.collector_perf_range then range_too_long c.collector_perf_range else parsed c

unfoldable pub new : Flags → ParseResult
unfolding with_credentials validate
new fl = elim fl.ecs_username [
  | none ↦ required_flag "ecs.username"
  | some user ↦ elim fl.ecs_password [
    | none ↦ required_flag "ecs.password"
    | some pass ↦ validate (with_credentials fl user pass)
  ]
]

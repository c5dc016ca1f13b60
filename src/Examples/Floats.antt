-- ===== src/Examples/Floats.antt =====
-- Numbers and decoders for the examples: a float64 is a natural number, and every answer decodes to
-- a value of its type or to none.
use prometheus_obs_exporter.Prelude.{ℕ, ◌+◌, ◌*◌, ◌/◌, none, some, [], ◌∷◌, ltb, spelled}
use prometheus_obs_exporter.Obsclient.FlexNumber.{Float64}
use prometheus_obs_exporter.Obsclient.Types.{Decoders, LocalZone}

abbrev pub floats : Float64 ℕ
floats = record {
  of_nat = λ n. n;
  add = λ a b. a + b;
  mul = λ a b. a * b;
  div = λ a b. a / b;
  gt = λ a b. ltb b a;
  parse_float = λ s. elim s [ [] ↦ none | c ∷ t ↦ some (spelled 0 (c ∷ t)) ];
}

abbrev pub some_zone : LocalZone
some_zone = record {
  name = "vdc1";
  num_bad_disks = b'1' ∷ [];
  num_bad_nodes = b'0' ∷ [];
  num_good_nodes = b'4' ∷ [];
  num_good_disks = [];
  alerts_num_unack_critical = [];
  alerts_num_unack_error = [];
  alerts_num_unack_info = [];
  alerts_num_unack_warning = [];
  disk_space_free_current = [];
  disk_space_total_current = [];
  disk_space_allocated_current = [];
}

abbrev pub decoders : Decoders ℕ
decoders = record {
  who_am_i = λ _. none;
  local_zone = λ _. some some_zone;
  replication_groups = λ _. none;
  nodes = λ _. some (record { node = [] });
  namespaces = λ _. some (record { namespace = [] });
  namespace_quota = λ _. none;
  namespace_billing = λ _. none;
  dt_init_stat = λ _. some (record { total_dt_num = 8; unready_dt_num = 1; unknown_dt_num = 0 });
  ping = λ _. none;
  flux_query_response = λ _. some (record { series = [] });
  encode_flux_query = λ r. some r.query;
}

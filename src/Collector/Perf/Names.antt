-- ===== src/Collector/Perf/Names.antt =====
-- The names of measurements, fields and tags of internal/collector/perf.go.
use prometheus_obs_exporter.Prelude.{String}

abbrev pub meas_throughput : String
meas_throughput = "cq_performance_throughput"

abbrev pub field_read_bytes : String
field_read_bytes = "total_read_requests_size"

abbrev pub field_write_bytes : String
field_write_bytes = "total_write_requests_size"

abbrev pub meas_transaction_method : String
meas_transaction_method = "cq_performance_transaction_method"

abbrev pub tag_method : String
tag_method = "method"

abbrev pub tag_method_read : String
tag_method_read = "READ"

abbrev pub tag_method_write : String
tag_method_write = "WRITE"

abbrev pub field_succeed_counter : String
field_succeed_counter = "succeed_request_counter"

abbrev pub field_failed_counter : String
field_failed_counter = "failed_request_counter"

abbrev pub meas_latency : String
meas_latency = "cq_performance_latency"

abbrev pub tag_id : String
tag_id = "id"

abbrev pub tag_id_read : String
tag_id_read = "read"

abbrev pub tag_id_write : String
tag_id_write = "write"

abbrev pub field_p50 : String
field_p50 = "p50"

abbrev pub meas_error_head : String
meas_error_head = "cq_performance_error_head"

abbrev pub tag_head : String
tag_head = "head"

abbrev pub field_system_errors : String
field_system_errors = "system_errors"

abbrev pub field_user_errors : String
field_user_errors = "user_errors"

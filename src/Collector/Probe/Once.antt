-- ===== src/Collector/Probe/Once.antt =====
-- The memoised `LocalZone` and `Nodes` of a request (probe.go).
use prometheus_obs_exporter.Collector.Run.{Run}

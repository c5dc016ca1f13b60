-- ===== src/Collector.antt =====
-- internal/collector: the collectors that one call of /probe runs.
pub mod Series
pub mod Metrics
pub mod Duration
pub mod Run
pub mod Cluster
pub mod Replication
pub mod Node
pub mod Metering
pub mod Perf
pub mod Probe

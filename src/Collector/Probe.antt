-- ===== src/Collector/Probe.antt =====
-- `Probe` of internal/collector/probe.go, and the table of the collectors.
pub mod Isolation
pub mod Failed
pub mod Verdicts
pub mod Twice
pub mod Once
pub mod Tables
pub mod Described
pub mod Safe
pub mod Distinct
use prometheus_obs_exporter.Prelude.{
  ℕ, suc, String, Bool, true, false, Option, none, some, List, [], ◌∷◌, ◌++◌, str_eq, if◌then◌else◌,
}
use prometheus_obs_exporter.Obsclient.Net.{Error}
use prometheus_obs_exporter.Obsclient.Client.{Session}
use prometheus_obs_exporter.Collector.Metrics.{Desc, Metric, desc, gauge}
use prometheus_obs_exporter.Collector.Run.{
  Settings, collector_failed, unknown_collector, Env, Run, Act, done, panic, Scrape, Func, return,
  log_entry, new_run, must_register, ◌>>=◌, ◌>>◌,
}
use prometheus_obs_exporter.Collector.Cluster.{collect_cluster}
use prometheus_obs_exporter.Collector.Replication.{collect_replication}
use prometheus_obs_exporter.Collector.Node.{collect_node}
use prometheus_obs_exporter.Collector.Metering.{collect_metering}
use prometheus_obs_exporter.Collector.Perf.{collect_perf}

abbrev pub default_collectors : List String
default_collectors = "cluster" ∷ "replication" ∷ "node" ∷ "perf" ∷ []

abbrev pub scrape_success_desc : Desc
scrape_success_desc = desc "obs_scrape_success" ("collector" ∷ [])

abbrev pub scrape_duration_desc : Desc
scrape_duration_desc = desc "obs_scrape_duration_seconds" ("collector" ∷ [])

module _ {W R : Type 0} (env : Env W R) where
  -- `Registry`, as the five `init` functions fill it.
  unfoldable pub registry : String → Option (Func R)
  registry name =
      if str_eq name "cluster"
      then some (collect_cluster env)
      else if str_eq name "replication"
      then some (collect_replication env)
      else if str_eq name "node"
      then some (collect_node env)
      else if str_eq name "metering"
      then some (collect_metering env)
      else if str_eq name "perf"
      then some (collect_perf env)
      else none

  unfoldable pub judged : String → Option Error → Scrape R Bool
  judged name none = return true
  judged name (some e) = log_entry (collector_failed name e) >> return false

  -- Whether the collector of a name succeeded.
  unfoldable pub run_collector : String → Scrape R Bool
  run_collector name = elim (registry name) [
    | none ↦ log_entry (unknown_collector name) >> return false
    | some fn ↦ fn >>= judged name
  ]

  abbrev pub success_metric : String → Bool → Metric W
  success_metric name success =
      gauge scrape_success_desc (if success then env.f.of_nat 1 else env.f.of_nat 0) (name ∷ [])

  abbrev pub duration_metric : String → ℕ → Metric W
  duration_metric name i = gauge scrape_duration_desc (env.elapsed i) (name ∷ [])

  abbrev valid_labels : List String → Bool
  valid_labels [] = true
  valid_labels (l ∷ ls) = if env.reg.valid_label l then valid_labels ls else false

  -- `MustNewConstMetric` with a name of the request as a label, which may not be valid UTF-8.
  unfoldable pub must_new_const_metric : Metric W → Scrape R (Metric W)
  must_new_const_metric m run = if valid_labels m.label_values then done m run else panic run

  -- The loop over the names, from position `i` on, with the metrics of success and duration.
  unfoldable pub run_collectors :
      ℕ → List String → List (Metric W) → List (Metric W) → Scrape R (Unit {0})
  run_collectors i [] successes durations = must_register env (successes ++ durations)
  run_collectors i (name ∷ names) successes durations = run_collector name >>= λ success.
      must_new_const_metric (success_metric name success) >>= λ s.
      must_new_const_metric (duration_metric name i) >>= λ d.
      run_collectors (suc i) names (successes ++ s ∷ []) (durations ++ d ∷ [])

  unfoldable pub probe : Session → Settings → List String → Act R (Unit {0})
  probe s settings collectors = run_collectors 0 collectors [] [] (new_run env s settings)

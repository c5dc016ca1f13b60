-- ===== src/Collector/Metering.antt =====
-- internal/collector/metering.go: quota and usage of each namespace. Here the goroutines of the
-- namespaces run in the order `env.order`, each in one piece; Metering/Tasks has their steps, which
-- interleave, and Metering/Limits the semaphore, which bounds how many are under way.
pub mod Orders
pub mod Limits
pub mod Tasks
pub mod Series
use prometheus_obs_exporter.Prelude.{
  ℕ, String, none, some, List, [], ◌∷◌, ◌++◌, length, get_elem?, ltb, if◌then◌else◌,
}
use prometheus_obs_exporter.Prelude.Int.{ℤ, pos, negsuc}
use prometheus_obs_exporter.Obsclient.FlexNumber.{Float64, valid, float64}
use prometheus_obs_exporter.Obsclient.Types.{NamespaceRef, NamespaceQuota, NamespaceBillingInfo}
use prometheus_obs_exporter.Obsclient.Apis.{
  list_namespaces, get_namespace_quota, get_namespace_billing,
}
use prometheus_obs_exporter.Collector.Metrics.{Desc, Metric, desc, gauge, when_valid}
use prometheus_obs_exporter.Collector.Cluster.{gigabytes}
use prometheus_obs_exporter.Collector.Run.{
  Env, Fetched, fetched, failed, quota_failed, billing_failed, Scrape, Func, return, call,
  log_entry, must_register, ◌>>=◌, ◌>>◌,
}

abbrev pub kb_to_bytes : ℕ
kb_to_bytes = 1000

abbrev pub quota_desc : Desc
quota_desc = desc "obs_metering_namespace_quota_bytes" ("namespace" ∷ "quota" ∷ [])

abbrev pub used_desc : Desc
used_desc = desc "obs_metering_namespace_used_bytes" ("namespace" ∷ [])

abbrev pub objects_desc : Desc
objects_desc = desc "obs_metering_namespace_objects" ("namespace" ∷ [])

-- The capacity of the semaphore: at least one.
unfoldable pub concurrency_of : ℤ → ℕ
concurrency_of (pos n) = if ltb n 1 then 1 else n
concurrency_of (negsuc n) = 1

module _ {W : Type 0} (f : Float64 W) where
  -- A block size of 0 means that the namespace has no quota.
  abbrev quota_block : String → NamespaceQuota → W → List (Metric W)
  quota_block namespace q v =
      if f.gt v (f.of_nat 0)
      then gauge quota_desc (gigabytes f v) (namespace ∷ "block" ∷ [])
        ∷ when_valid (valid (float64 f q.notification_size))
            (λ n. gauge quota_desc (gigabytes f n) (namespace ∷ "notification" ∷ []))
      else []

  unfoldable pub quota_metrics : String → NamespaceQuota → List (Metric W)
  unfolding when_valid
  quota_metrics namespace q = elim (valid (float64 f q.block_size)) [
    | none ↦ []
    | some v ↦ quota_block namespace q v
  ]

  unfoldable pub billing_metrics : String → NamespaceBillingInfo → List (Metric W)
  unfolding when_valid
  billing_metrics namespace b =
      when_valid (valid (float64 f b.total_size))
        (λ v. gauge used_desc (f.mul v (f.of_nat kb_to_bytes)) (namespace ∷ []))
      ++ when_valid (valid (float64 f b.total_objects)) (λ v. gauge objects_desc v (namespace ∷ []))

module _ {W R : Type 0} (env : Env W R) where
  unfoldable pub with_quota : String → Fetched NamespaceQuota → Scrape R (List (Metric W))
  with_quota namespace (fetched q) = return (quota_metrics env.f namespace q)
  with_quota namespace (failed e) = log_entry (quota_failed namespace e) >> return []

  unfoldable pub with_billing : String → Fetched NamespaceBillingInfo → Scrape R (List (Metric W))
  with_billing namespace (fetched b) = return (billing_metrics env.f namespace b)
  with_billing namespace (failed e) = log_entry (billing_failed namespace e) >> return []

  unfoldable pub metering_namespace_metrics : String → Scrape R (List (Metric W))
  metering_namespace_metrics namespace = do
    q ← call (get_namespace_quota env.net env.dec namespace)
    quota ← with_quota namespace q
    b ← call (get_namespace_billing env.net env.dec namespace)
    billing ← with_billing namespace b
    return (quota ++ billing)

  -- The goroutines in their order; each appends its metrics under the mutex.
  unfoldable pub fan_out : List NamespaceRef → List ℕ → List (Metric W) → Scrape R (List (Metric W))
  fan_out namespaces [] metrics = return metrics
  fan_out namespaces (i ∷ order) metrics = elim (get_elem? namespaces i) [
    | none ↦ fan_out namespaces order metrics
    | some ns ↦
        metering_namespace_metrics ns.name >>= λ own. fan_out namespaces order (metrics ++ own)
  ]

  unfoldable pub with_namespaces : Fetched (List NamespaceRef) → Func R
  with_namespaces (failed e) = return (some e)
  with_namespaces (fetched namespaces) = do
    metrics ← fan_out namespaces (env.order (length namespaces)) []
    must_register env metrics
    return none

  unfoldable pub collect_metering : Func R
  collect_metering = do
    namespaces ← call (list_namespaces env.net env.dec)
    with_namespaces namespaces

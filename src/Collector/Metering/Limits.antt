-- ===== src/Collector/Metering/Limits.antt =====
-- The semaphore of metering.go.
use prometheus_obs_exporter.Prelude.{ℕ, ◌≤◌, ◌<◌, ◌⊎◌, inl, inr, Bool-cases, ltb, List, arith}
use prometheus_obs_exporter.Prelude.Int.{ℤ, pos, negsuc}
use prometheus_obs_exporter.Goroutines.{System, place, total, launched, Steps, AllOver}
use prometheus_obs_exporter.Goroutines.Semaphore.{places-le}
use prometheus_obs_exporter.Goroutines.Progress.{Steps-finish}
use prometheus_obs_exporter.Obsclient.Types.{NamespaceRef}
use prometheus_obs_exporter.Collector.Metrics.{Metric}
use prometheus_obs_exporter.Collector.Run.{Env, Run}
use prometheus_obs_exporter.Collector.Metering.{concurrency_of}
use prometheus_obs_exporter.Collector.Metering.Tasks.{metering_tasks, capacity}

concurrency_of-pos : (n : ℤ) → 0 < concurrency_of n
unfolding concurrency_of
concurrency_of-pos (pos n) = ground arith
concurrency_of-pos (negsuc n) = omega arith

-- How many goroutines may be under way by `MeteringConcurrency`.
abbrev pub IsAllowed : ℕ → ℤ → Type 0
IsAllowed k (pos n) = (k ≤ n) ⊎ (k ≤ 1)
IsAllowed k (negsuc n) = k ≤ 1

capacity-IsAllowed : (k : ℕ) (z : ℤ) → k ≤ concurrency_of z → IsAllowed k z
unfolding concurrency_of
capacity-IsAllowed k (pos n) h = elim (Bool-cases (ltb n 1)) [
  | inl none_given ↦ let one : k ≤ 1 = rw none_given at h in inr one
  | inr given ↦ let some_given : k ≤ n = rw given at h in inl some_given
]
capacity-IsAllowed k (negsuc n) h = h

module _ {W R : Type 0} (env : Env W R) where
  -- However the goroutines of the namespaces interleave, and whatever the target answers, no more
  -- than `MeteringConcurrency` of them are under way at one time, or than one if that is not positive,
  -- and they are never stuck: from every state that they reach all of them can end.
  pub fan_out-Limited :
      (namespaces : List NamespaceRef) (run : Run R) (q : System (Run R) (List (Metric W)))
      → Steps (capacity env run) (launched (metering_tasks env namespaces) run) q
      → IsAllowed (total place q.slots) run.settings.metering_concurrency
        × ((end : System (Run R) (List (Metric W))) × Steps (capacity env run) q end × AllOver end)
  fan_out-Limited namespaces run q r = (
    capacity-IsAllowed (total place q.slots) run.settings.metering_concurrency
        (places-le (metering_tasks env namespaces) run q r),
    Steps-finish (capacity env run) (concurrency_of-pos run.settings.metering_concurrency) q,
  )

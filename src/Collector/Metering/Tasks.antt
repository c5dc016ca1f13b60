-- ===== src/Collector/Metering/Tasks.antt =====
-- The goroutines of `collectMetering` (metering.go), whose steps interleave.
use prometheus_obs_exporter.Prelude.{String, List, [], ◌++◌, map, ℕ}
use prometheus_obs_exporter.Goroutines.{Task, ret, bind}
use prometheus_obs_exporter.Obsclient.Client.{Client}
use prometheus_obs_exporter.Obsclient.Auth.Steady.{Steady, HasToken}
use prometheus_obs_exporter.Obsclient.Types.{NamespaceRef, NamespaceQuota, NamespaceBillingInfo}
use prometheus_obs_exporter.Obsclient.Apis.{
  quota_path, billing_path, get_namespace_quota, get_namespace_billing,
}
use prometheus_obs_exporter.Collector.Metrics.{Metric}
use prometheus_obs_exporter.Collector.Run.{
  Env, Run, Fetched, fetched, failed, quota_failed, billing_failed, call, log_entry,
}
use prometheus_obs_exporter.Collector.Run.Steady.{Yields}
use prometheus_obs_exporter.Collector.Run.Tasks.{Asking, wrap_task, log_task, get_task}
use prometheus_obs_exporter.Collector.Run.Tasks.Runs.{Runs, wrap-Runs, get-Runs}
use prometheus_obs_exporter.Collector.Run.Tasks.Settling.{
  IsSteady, bind-IsSteady, ret-IsSteady, log-IsSteady, wrap-IsSteady, get-IsSteady,
}
use prometheus_obs_exporter.Collector.Run.Tasks.Matches.{
  Matches, ret-Matches, log-Matches, call-Matches, bind-Matches, Matches-Yields,
}
use prometheus_obs_exporter.Collector.Metering.{
  concurrency_of, quota_metrics, billing_metrics, with_quota, with_billing,
  metering_namespace_metrics,
}

module _ {W R : Type 0} (env : Env W R) where
  unfoldable pub quota_request : String → Asking R NamespaceQuota
  quota_request name =
      wrap_task "obsclient: get namespace quota"
        (get_task env.net env.dec.namespace_quota (quota_path env.net name))

  unfoldable pub billing_request : String → Asking R NamespaceBillingInfo
  billing_request name =
      wrap_task "obsclient: get namespace billing info"
        (get_task env.net env.dec.namespace_billing (billing_path env.net name))

  unfoldable pub quota_task : String → Fetched NamespaceQuota → Task (Run R) (List (Metric W))
  quota_task name (fetched q) = ret (quota_metrics env.f name q)
  quota_task name (failed e) = bind (log_task (quota_failed name e)) (λ _. ret [])

  unfoldable pub billing_task :
      String → Fetched NamespaceBillingInfo → Task (Run R) (List (Metric W))
  billing_task name (fetched b) = ret (billing_metrics env.f name b)
  billing_task name (failed e) = bind (log_task (billing_failed name e)) (λ _. ret [])

  -- `meteringNamespaceMetrics`, as its goroutine runs it.
  unfoldable pub namespace_task : String → Task (Run R) (List (Metric W))
  unfolding quota_request billing_request quota_task billing_task
  namespace_task name = bind (quota_request name) (λ q. bind (quota_task name q) (λ quota.
      bind (billing_request name)
        (λ b. bind (billing_task name b) (λ billing. ret (quota ++ billing)))))

  -- The goroutines of all the namespaces, and the capacity of their semaphore.
  abbrev pub metering_tasks : List NamespaceRef → List (Task (Run R) (List (Metric W)))
  metering_tasks namespaces = map (λ ns. namespace_task ns.name) namespaces

  abbrev pub capacity : Run R → ℕ
  capacity run = concurrency_of run.settings.metering_concurrency

  quota_request-Runs :
      (name : String) → Runs (quota_request name) (get_namespace_quota env.net env.dec name)
  unfolding quota_request get_namespace_quota
  quota_request-Runs name =
      wrap-Runs "obsclient: get namespace quota"
        (get_task env.net env.dec.namespace_quota (quota_path env.net name)) _
        (get-Runs env.net env.dec.namespace_quota (quota_path env.net name))

  billing_request-Runs :
      (name : String) → Runs (billing_request name) (get_namespace_billing env.net env.dec name)
  unfolding billing_request get_namespace_billing
  billing_request-Runs name =
      wrap-Runs "obsclient: get namespace billing info"
        (get_task env.net env.dec.namespace_billing (billing_path env.net name)) _
        (get-Runs env.net env.dec.namespace_billing (billing_path env.net name))

  quota_task-Matches :
      (name : String) (q : Fetched NamespaceQuota)
      → Matches (quota_task name q) (with_quota env name q)
  unfolding quota_task with_quota
  quota_task-Matches name (fetched q) = ret-Matches _
  quota_task-Matches name (failed e) =
      bind-Matches (log_task (quota_failed name e)) (log_entry (quota_failed name e)) _ _
        (log-Matches _) (λ _. ret-Matches [])

  billing_task-Matches :
      (name : String) (b : Fetched NamespaceBillingInfo)
      → Matches (billing_task name b) (with_billing env name b)
  unfolding billing_task with_billing
  billing_task-Matches name (fetched b) = ret-Matches _
  billing_task-Matches name (failed e) =
      bind-Matches (log_task (billing_failed name e)) (log_entry (billing_failed name e)) _ _
        (log-Matches _) (λ _. ret-Matches [])

  pub namespace_task-Matches :
      (name : String) → Matches (namespace_task name) (metering_namespace_metrics env name)
  unfolding namespace_task metering_namespace_metrics
  namespace_task-Matches name =
      bind-Matches (quota_request name) (call (get_namespace_quota env.net env.dec name)) _ _
        (call-Matches (quota_request name) (get_namespace_quota env.net env.dec name)
          (quota_request-Runs name))
        (λ q.
          bind-Matches (quota_task name q) (with_quota env name q) _ _ (quota_task-Matches name q)
            (λ quota.
              bind-Matches (billing_request name)
                (call (get_namespace_billing env.net env.dec name)) _ _
                (call-Matches (billing_request name) (get_namespace_billing env.net env.dec name)
                  (billing_request-Runs name))
                (λ b.
                  bind-Matches (billing_task name b) (with_billing env name b) _ _
                    (billing_task-Matches name b) (λ billing. ret-Matches (quota ++ billing)))))

  module _ (steady : Steady env.net) (c : Client) (held : HasToken c) where
    quota_task-IsSteady :
        (name : String) (q : Fetched NamespaceQuota) → IsSteady R c (quota_task name q)
    unfolding quota_task
    quota_task-IsSteady name (fetched q) = ret-IsSteady R c _
    quota_task-IsSteady name (failed e) =
        bind-IsSteady R c (log_task _) _ (log-IsSteady R c (quota_failed name e))
          (λ _. ret-IsSteady R c [])

    billing_task-IsSteady :
        (name : String) (b : Fetched NamespaceBillingInfo) → IsSteady R c (billing_task name b)
    unfolding billing_task
    billing_task-IsSteady name (fetched b) = ret-IsSteady R c _
    billing_task-IsSteady name (failed e) =
        bind-IsSteady R c (log_task _) _ (log-IsSteady R c (billing_failed name e))
          (λ _. ret-IsSteady R c [])

    quota_request-IsSteady : (name : String) → IsSteady R c (quota_request name)
    unfolding quota_request
    quota_request-IsSteady name =
        wrap-IsSteady R c _ (get_task env.net env.dec.namespace_quota (quota_path env.net name))
          (get-IsSteady R env.net steady c held env.dec.namespace_quota (quota_path env.net name))

    billing_request-IsSteady : (name : String) → IsSteady R c (billing_request name)
    unfolding billing_request
    billing_request-IsSteady name =
        wrap-IsSteady R c _ (get_task env.net env.dec.namespace_billing (billing_path env.net name))
          (get-IsSteady R env.net steady c held env.dec.namespace_billing
            (billing_path env.net name))

    pub namespace_task-IsSteady : (name : String) → IsSteady R c (namespace_task name)
    unfolding namespace_task
    namespace_task-IsSteady name =
        bind-IsSteady R c (quota_request name) _ (quota_request-IsSteady name) (λ q.
          bind-IsSteady R c (quota_task name q) _ (quota_task-IsSteady name q) (λ quota.
            bind-IsSteady R c (billing_request name) _ (billing_request-IsSteady name) (λ b.
              bind-IsSteady R c (billing_task name b) _ (billing_task-IsSteady name b)
                (λ billing. ret-IsSteady R c (quota ++ billing)))))

    pub namespace-Yields :
        (name : String)
        → Yields {R = R} c (metering_namespace_metrics env name) (namespace_task-IsSteady name).0
    namespace-Yields name =
        Matches-Yields c (namespace_task name) (metering_namespace_metrics env name)
          (namespace_task-Matches name) (namespace_task-IsSteady name)

-- ===== src/Collector/Metering/Series.antt =====
-- The series of one namespace (metering.go).
pub mod Goroutines
use prometheus_obs_exporter.Prelude.{
  ℕ, zero, suc, String, ◌≡◌, ◌≢◌, refl, sym, ap, ◌∙◌, Bool, true, false, Option, none, some, List,
  [], ◌∷◌, ◌++◌, get_elem?, All, concat_map, concat_map-append, Option-cases, Bool-cases, inl, inr,
}
use mathlib.Core.List.{append-nil, append_assoc}
use prometheus_obs_exporter.Obsclient.FlexNumber.{Float64, valid, float64}
use prometheus_obs_exporter.Obsclient.Types.{NamespaceRef, NamespaceQuota, NamespaceBillingInfo}
use prometheus_obs_exporter.Obsclient.Apis.{get_namespace_quota, get_namespace_billing}
use prometheus_obs_exporter.Obsclient.Client.{Outcome, ok, err}
use prometheus_obs_exporter.Collector.Metrics.{Desc, Metric, gauge, when_valid}
use prometheus_obs_exporter.Collector.Cluster.{gigabytes}
use prometheus_obs_exporter.Collector.Run.{
  Env, Run, Fetched, fetched, failed, Act, done, Scrape, call, kept, continue_with, return,
}
use prometheus_obs_exporter.Collector.Series.{
  Row, metrics_of, HasDistinctSeries, rows-HasDistinctSeries, HasLabel, rows-HasLabel,
  HasDistinctNames, items-HasDistinctSeries,
}
use prometheus_obs_exporter.Collector.Metering.{
  quota_desc, used_desc, objects_desc, kb_to_bytes, quota_metrics, billing_metrics, with_quota,
  with_billing, metering_namespace_metrics, fan_out,
}

module _ {W : Type 0} where
  abbrev row : Desc → List String → Option W → Row W
  row d labels o = record { desc = d; labels = labels; value = o; scale = λ v. v }

  quota_rows : String → Option W → Option W → List (Row W)
  quota_rows name block notification =
      row quota_desc (name ∷ "block" ∷ []) block
      ∷ row quota_desc (name ∷ "notification" ∷ []) notification
      ∷ []

  billing_rows : String → Option W → Option W → List (Row W)
  billing_rows name used objects =
      row used_desc (name ∷ []) used ∷ row objects_desc (name ∷ []) objects ∷ []

  -- The metrics of one namespace, by the values that there are.
  abbrev IsQuotaOf : String → List (Metric W) → Type 0
  IsQuotaOf name ms = (b n : Option W) × (ms ≡ concat_map metrics_of (quota_rows name b n))

  abbrev IsUsageOf : String → List (Metric W) → Type 0
  IsUsageOf name ms = (u o : Option W) × (ms ≡ concat_map metrics_of (billing_rows name u o))

  none_given : (name : String) → IsQuotaOf name []
  unfolding quota_rows when_valid
  none_given name = (none, none, refl)

  no_usage : (name : String) → IsUsageOf name []
  unfolding billing_rows when_valid
  no_usage name = (none, none, refl)

  module _ (f : Float64 W) where
    quota_metrics-IsQuotaOf :
        (name : String) (q : NamespaceQuota) → IsQuotaOf name (quota_metrics f name q)
    unfolding quota_metrics quota_rows when_valid
    quota_metrics-IsQuotaOf name q = elim (Option-cases (valid (float64 f q.block_size))) [
      | inl absent ↦ (none, none, rw (absent, quota_metrics) refl)
      | inr (v, there) ↦ elim (Bool-cases (f.gt v (f.of_nat 0))) [
        | inr unset ↦ (none, none, rw (there, quota_metrics, unset) refl)
        | inl positive ↦ elim (Option-cases (valid (float64 f q.notification_size))) [
          | inl gone ↦ (some (gigabytes f v), none, rw (there, quota_metrics, positive, gone) refl)
          | inr (n, given) ↦ (
            some (gigabytes f v),
            some (gigabytes f n),
            rw (there, quota_metrics, positive, given) refl,
          )
        ]
      ]
    ]

    billing_metrics-IsUsageOf :
        (name : String) (b : NamespaceBillingInfo) → IsUsageOf name (billing_metrics f name b)
    unfolding billing_metrics billing_rows when_valid
    billing_metrics-IsUsageOf name b = elim (Option-cases (valid (float64 f b.total_size))) [
      | inl absent ↦ elim (Option-cases (valid (float64 f b.total_objects))) [
        | inl gone ↦ (none, none, rw (absent, gone, billing_metrics) refl)
        | inr (n, given) ↦ (none, some n, rw (absent, given, billing_metrics) refl)
      ]
      | inr (v, there) ↦ elim (Option-cases (valid (float64 f b.total_objects))) [
        | inl gone ↦
            (some (f.mul v (f.of_nat kb_to_bytes)), none, rw (there, gone, billing_metrics) refl)
        | inr (n, given) ↦
            (some (f.mul v (f.of_nat kb_to_bytes)), some n, rw (there, given, billing_metrics) refl)
      ]
    ]

module _ {R : Type 0} where
  Gives : {A : Type 0} → (A → Type 0) → Act R A → Type 0
  Gives {A} Q m = (a : A) × (end : Run R) × (m ≡ done a end) × Q a

  Gives-bind :
      {A B : Type 0} (Q : A → Type 0) (S : B → Type 0) (m : Act R A) (k : A → Scrape R B)
      → Gives Q m
      → ((a : A) (run : Run R) → Q a → Gives S (k a run))
      → Gives S (continue_with m k)
  unfolding Gives
  Gives-bind Q S m k (a, end, same, q) next =
      let (b, end', same', s) = next a end q in
      (b, end', ap (λ r. continue_with r k) same ∙ same', s)

  kept-Gives : {A : Type 0} (run : Run R) (o : Outcome A) → Gives (λ _. Unit {0}) (kept run o)
  unfolding Gives
  kept-Gives run (ok a s) = (fetched a, record run { session = s }, refl, tt)
  kept-Gives run (err e s) = (failed e, record run { session = s }, refl, tt)

module _ {W R : Type 0} (env : Env W R) where
  quota-Gives :
      (name : String) (q : Fetched NamespaceQuota) (run : Run R)
      → Gives (IsQuotaOf name) (with_quota env name q run)
  unfolding Gives with_quota
  quota-Gives name (fetched q) run = (_, run, refl, quota_metrics-IsQuotaOf env.f name q)
  quota-Gives name (failed e) run = ([], _, refl, none_given name)

  billing-Gives :
      (name : String) (b : Fetched NamespaceBillingInfo) (run : Run R)
      → Gives (IsUsageOf name) (with_billing env name b run)
  unfolding Gives with_billing
  billing-Gives name (fetched b) run = (_, run, refl, billing_metrics-IsUsageOf env.f name b)
  billing-Gives name (failed e) run = ([], _, refl, no_usage name)

  -- Metrics with the name for their first label, which belong to different series.
  abbrev IsOwn : String → List (Metric W) → Type 0
  IsOwn name ms = HasLabel name ms × HasDistinctSeries ms

  joined-IsOwn :
      (name : String) (quota usage : List (Metric W))
      → IsQuotaOf name quota
      → IsUsageOf name usage
      → IsOwn name (quota ++ usage)
  unfolding quota_rows billing_rows
  joined-IsOwn name quota usage (b, n, e) (u, o, e') =
      let rows = quota_rows name b n ++ billing_rows name u o in
      rw (e, e', sym (concat_map-append metrics_of (quota_rows name b n) (billing_rows name u o)))
        (
          rows-HasLabel name rows (refl, (refl, (refl, (refl, tt)))),
          rows-HasDistinctSeries rows refl,
        )

  namespace-Gives :
      (name : String) (run : Run R) → Gives (IsOwn name) (metering_namespace_metrics env name run)
  unfolding metering_namespace_metrics Gives
  namespace-Gives name run =
      Gives-bind (λ _. Unit {0}) (IsOwn name) (call (get_namespace_quota env.net env.dec name) run)
        _ (kept-Gives run (get_namespace_quota env.net env.dec name run.session))
        (λ q run' _.
          Gives-bind (IsQuotaOf name) (IsOwn name) (with_quota env name q run') _
            (quota-Gives name q run')
            (λ quota run'' of_quota.
              Gives-bind (λ _. Unit {0}) (IsOwn name)
                (call (get_namespace_billing env.net env.dec name) run'') _
                (kept-Gives run'' (get_namespace_billing env.net env.dec name run''.session))
                (λ b run3 _.
                  Gives-bind (IsUsageOf name) (IsOwn name) (with_billing env name b run3) _
                    (billing-Gives name b run3)
                    (λ usage run4 of_usage. (
                      quota ++ usage,
                      run4,
                      refl,
                      joined-IsOwn name quota usage of_quota of_usage,
                    )))))

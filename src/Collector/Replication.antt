-- ===== src/Collector/Replication.antt =====
-- internal/collector/replication.go: the metrics of each replication group.
use prometheus_obs_exporter.Prelude.{none, some, List, [], ◌∷◌, ◌++◌, concat_map}
use prometheus_obs_exporter.Obsclient.FlexNumber.{Float64, valid, float64}
use prometheus_obs_exporter.Obsclient.Types.{ReplicationGroup}
use prometheus_obs_exporter.Obsclient.Apis.{get_replication_groups}
use prometheus_obs_exporter.Collector.Metrics.{Desc, Metric, desc, gauge, when_valid}
use prometheus_obs_exporter.Collector.Run.{
  Env, Fetched, fetched, failed, Func, return, call, must_register, ◌>>=◌, ◌>>◌,
}

abbrev pub ingress_desc : Desc
ingress_desc = desc "obs_replication_ingress_bytes_per_second" ("rg" ∷ [])

abbrev pub egress_desc : Desc
egress_desc = desc "obs_replication_egress_bytes_per_second" ("rg" ∷ [])

abbrev pub pending_repo_desc : Desc
pending_repo_desc = desc "obs_replication_pending_repo_bytes" ("rg" ∷ [])

abbrev pub pending_journal_desc : Desc
pending_journal_desc = desc "obs_replication_pending_journal_bytes" ("rg" ∷ [])

abbrev pub pending_xor_desc : Desc
pending_xor_desc = desc "obs_replication_pending_xor_bytes" ("rg" ∷ [])

abbrev pub rpo_desc : Desc
rpo_desc = desc "obs_replication_rpo_timestamp_seconds" ("rg" ∷ [])

module _ {W : Type 0} (f : Float64 W) where
  -- Milliseconds as seconds.
  abbrev pub thousandth : W → W
  thousandth v = f.div v (f.of_nat 1000)

  -- One round of the loop over the groups.
  unfoldable pub group_metrics : ReplicationGroup → List (Metric W)
  unfolding when_valid
  group_metrics g =
      when_valid (valid (float64 f g.replication_ingress_traffic))
        (λ v. gauge ingress_desc v (g.name ∷ []))
      ++ (when_valid (valid (float64 f g.replication_egress_traffic))
            (λ v. gauge egress_desc v (g.name ∷ []))
          ++ (when_valid (valid (float64 f g.chunks_repo_pending_replication_total_size))
                (λ v. gauge pending_repo_desc v (g.name ∷ []))
              ++ (when_valid (valid (float64 f g.chunks_journal_pending_replication_total_size))
                    (λ v. gauge pending_journal_desc v (g.name ∷ []))
                  ++ (when_valid (valid (float64 f g.chunks_pending_xor_total_size))
                        (λ v. gauge pending_xor_desc v (g.name ∷ []))
                      ++ when_valid (valid (float64 f g.replication_rpo_timestamp))
                          (λ v. gauge rpo_desc (thousandth v) (g.name ∷ []))))))

  unfoldable pub groups_metrics : List ReplicationGroup → List (Metric W)
  groups_metrics groups = concat_map group_metrics groups

module _ {W R : Type 0} (env : Env W R) where
  unfoldable pub with_groups : Fetched (List ReplicationGroup) → Func R
  with_groups (failed e) = return (some e)
  with_groups (fetched groups) = do must_register env (groups_metrics env.f groups); return none

  unfoldable pub collect_replication : Func R
  collect_replication = do
    groups ← call (get_replication_groups env.net env.dec)
    with_groups groups

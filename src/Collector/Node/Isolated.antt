-- ===== src/Collector/Node/Isolated.antt =====
-- `nodeDTMetrics` of internal/collector/node.go and the nodes that had an error.
use prometheus_obs_exporter.Prelude.{◌≡◌, refl, some, List, [], ◌∷◌, ◌++◌, Option-cases, inl, inr}
use prometheus_obs_exporter.Obsclient.Net.{Error}
use prometheus_obs_exporter.Obsclient.DtStats.{NodeDtStats}
use prometheus_obs_exporter.Collector.Node.{node_dt_metrics}

-- The metrics of the nodes are those of the nodes without the one that had an error, wherever it
-- stands and whatever its other fields hold.
node_dt_metrics-unreachable :
    {W : Type 0} (before after : List (NodeDtStats W)) (stat : NodeDtStats W) (e : Error)
    → stat.error ≡ some e
    → node_dt_metrics (before ++ stat ∷ after) ≡ node_dt_metrics (before ++ after)
unfolding node_dt_metrics
node_dt_metrics-unreachable [] after stat e bad = rw (bad, node_dt_metrics) refl
node_dt_metrics-unreachable (s ∷ before) after stat e bad =
    let rest = node_dt_metrics-unreachable before after stat e bad in
    elim (Option-cases s.error) [
      | inl fine ↦ rw (fine, node_dt_metrics, rest) refl
      | inr (e', failed) ↦ rw (failed, node_dt_metrics) rest
    ]

-- ===== src/Collector/Metrics.antt =====
-- internal/collector/metrics.go and the registry that the collectors fill. A metric is what
-- `prometheus.MustNewConstMetric` is given: a descriptor, a value and the values of the labels.
use prometheus_obs_exporter.Prelude.{String, Bool, Option, none, some, List, [], ◌∷◌, map}

pub record Desc : Type 0 where
  pub name : String
  pub labels : List String

-- Every metric of the program is a gauge.
pub record Metric (W : Type 0) : Type 0 where
  pub desc : Desc
  pub value : W
  pub label_values : List String

-- `constCollector`: `Describe` sends the descriptor of each metric, `Collect` the metrics.
pub record ConstCollector (W : Type 0) : Type 0 where
  pub metrics : List (Metric W)

module _ {W : Type 0} where
  unfoldable pub new_const_collector : List (Metric W) → ConstCollector W
  new_const_collector metrics = record { metrics = metrics }

  unfoldable pub describe : ConstCollector W → List Desc
  describe c = map (λ m. m.desc) c.metrics

  unfoldable pub collect : ConstCollector W → List (Metric W)
  collect c = c.metrics

-- `*prometheus.Registry` of client_golang, of type `R`: `register` is `Register`, `none` for its
-- error, with which `MustRegister` panics; `gather` is `Gather`, the metrics of the registered
-- collectors, `none` for its error. `valid_label` says if `NewConstMetric` takes a value of a label:
-- a text stands for a Go string, which need not be valid UTF-8.
pub record Registries (W R : Type 0) : Type 0 where
  pub new_registry : R
  pub register : ConstCollector W → R → Option R
  pub gather : R → Option (List (Metric W))
  pub valid_label : String → Bool

abbrev pub desc : String → List String → Desc
desc name labels = record { name = name; labels = labels }

-- The metric of `MustNewConstMetric` with a gauge. Where the values of its labels come from answers
-- that encoding/json has decoded, they are valid UTF-8 and it does not panic.
abbrev pub gauge : {W : Type 0} → Desc → W → List String → Metric W
gauge d v labels = record { desc = d; value = v; label_values = labels }

-- `if v, err := …; err == nil { metrics = append(metrics, …) }`
unfoldable pub when_valid : {W : Type 0} → Option W → (W → Metric W) → List (Metric W)
when_valid none metric = []
when_valid (some v) metric = metric v ∷ []

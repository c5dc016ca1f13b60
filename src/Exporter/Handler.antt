-- ===== src/Exporter/Handler.antt =====
-- `probeHandler` of cmd/obs-exporter/main.go, on the clients and one request.
pub mod Kept
use prometheus_obs_exporter.Prelude.{
  ℕ, String, Bool, true, Option, none, some, List, [], ◌∷◌, get_elem?, set, str_eq, ◌==◌,
  if◌then◌else◌,
}
use Prim.Native.String
use Prim.Native.Char.{Char, code}
use prometheus_obs_exporter.Obsclient.Net.{Error}
use prometheus_obs_exporter.Obsclient.Client.{Files, Session}
use prometheus_obs_exporter.Config.{Config}
use prometheus_obs_exporter.Collector.Metrics.{Metric}
use prometheus_obs_exporter.Collector.Run.{Env, Run, Act, done, panic, Settings}
use prometheus_obs_exporter.Collector.Probe.{probe, default_collectors}
use prometheus_obs_exporter.Exporter.Clients.{
  Clients, Obtained, client_at, refused, get_or_create_client,
}

-- `strings.Split(raw, ",")`
onto : Char → List String → List String
onto c [] = String.◌∷◌ c "" ∷ []
onto c (part ∷ parts) = String.◌∷◌ c part ∷ parts

unfoldable pub split_names : String → List String
unfolding onto
split_names String.[] = "" ∷ []
split_names (String.◌∷◌ c raw) =
    let rest = split_names raw in if code c == b',' then "" ∷ rest else onto c rest

-- The collectors of a request: those of the parameter `collectors`, which is "" when missing.
unfoldable pub requested : String → List String
requested raw = if str_eq raw "" then default_collectors else split_names raw

-- An answer with a status and the error that its text shows, an answer with the metrics of the
-- registry, or a connection that is closed because the handler panicked. The status 500 is the answer
-- of `promhttp.HandlerFor` when the registry gathers an error; `collector.Probe` returns no error.
pub data Reply (W : Type 0) : Type 0 where
  error_reply : ℕ → Option Error → Reply W
  metrics_reply : List (Metric W) → Reply W
  aborted : Reply W

unfoldable pub settings_of : Config → Settings
settings_of cfg = record {
  dt_stats_enabled = cfg.collector_node_dt_stats;
  metering_concurrency = cfg.collector_metering_concurrency;
  perf_range = cfg.collector_perf_range;
  logger = true;
}

-- `promhttp.HandlerFor` with its default options.
unfoldable pub gathered : {W : Type 0} → Option (List (Metric W)) → Reply W
gathered none = error_reply 500 none
gathered (some metrics) = metrics_reply metrics

module _ {W R : Type 0} (env : Env W R) where
  -- The probe leaves the client at position `i` in a new state.
  unfoldable pub reply_of : ℕ → Clients → Act R (Unit {0}) → Reply W × Clients
  reply_of i st (panic run) = (aborted, record st { objects = set st.objects i run.session })
  reply_of i st (done _ run) =
      (gathered (env.reg.gather run.registry), record st { objects = set st.objects i run.session })

  unfoldable pub probe_client : Config → List String → ℕ → Clients → Reply W × Clients
  probe_client cfg collectors i st = elim (get_elem? st.objects i) [
    | none ↦ (aborted, st)
    | some s ↦ reply_of i st (probe env s (settings_of cfg) collectors)
  ]

  unfoldable pub respond : Config → List String → Obtained × Clients → Reply W × Clients
  respond cfg collectors (refused e, st) = (error_reply 502 (some e), st)
  respond cfg collectors (client_at i, st) = probe_client cfg collectors i st

  unfoldable pub probe_handler :
      Files → Config → (Clients → Clients) → String → String → Clients → Reply W × Clients
  probe_handler files cfg others target raw st =
      if str_eq target ""
      then (error_reply 400 none, st)
      else respond cfg (requested raw) (get_or_create_client env.net files target cfg others st)

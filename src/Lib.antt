-- ===== src/Lib.antt =====
-- The Prometheus exporter of Dell ObjectScale and ECS clusters: a request of /probe names a target,
-- the exporter keeps one logged-in client for each target, and the collectors ask the target's
-- management API through it and fill a registry of metrics.
--
-- The client of one target, internal/obsclient:
--   Obsclient/Net, Obsclient/Client: client.go. `Session` is the client with all the requests that
--     it has sent; a method runs in the monad `M` on it. `Net` is net/http with the target behind it:
--     an answer may depend on every request before.
--   Obsclient/Auth: auth.go, `login`, `logout`, `ensure_logged_in`, `invalidate_token` and
--     `call_authenticated_json`, with its pieces `retry_unauthorized`, `settle` and `read_answer`.
--     Auth/Threads interleaves calls that share a client; a step is what runs under `authMu`, or
--     one request. Auth/Steady is the target whose answers do not depend on what was sent before.
--   Obsclient/FlexNumber, Obsclient/Types: types.go. Obsclient/Apis: dashboard.go, metering.go.
--   Obsclient/DtStats: dtstats.go. Obsclient/Flux: flux.go.
--   Obsclient/Obsclienttest: obsclienttest/obsclienttest.go.
-- The settings, internal/config/config.go: Config.
-- The collectors, internal/collector:
--   Collector/Metrics, Collector/Run, Collector/Probe: metrics.go and probe.go. `Run` is the state of
--     one request with its memoised answers and its registry, and a collector runs in the monad
--     `Scrape` on it, where the panic of MustRegister is an outcome. Collector/Run/Steady has the
--     steps that do not depend on the other goroutines, Collector/Series the series of metrics.
--   Collector/Cluster, Replication, Node, Metering, Perf: the files of these names;
--     Collector/Duration is `fluxDuration` of perf.go, and Collector/Probe/Tables has the
--     descriptors of each collector.
--   Goroutines: the goroutines of one fan-out of metering.go, perf.go or dtstats.go, whose
--     indivisible steps interleave (`Step`), with the semaphore of metering.go. Collector/Run/Tasks
--     cuts a call of the client into such steps, and Metering/Tasks, Perf/Tasks and
--     Obsclient/DtStats/Tasks the bodies of the goroutines.
-- The program, cmd/obs-exporter/main.go: Exporter/Clients is `getOrCreateClient` and `logoutAll`,
-- Exporter/Handler is `probeHandler`, and Exporter/Program is the process: its requests interleave,
-- each step being one operation on the map or one call of the client, while `main` serves and the
-- goroutine of the signal shuts the server down. Exporter/Start is how `main` begins.
--
-- Prelude has the helpers that the parts share, and Examples the tests and a target at which the
-- theorems are applied.
--
-- Every function is structural recursion; only `decimal_from` in Prelude/Text, the digits of a
-- number, has fuel, one more than the number, which has no more digits. Numbers are natural numbers or
-- integers; the int64 of a time.Duration is written out, with its wrap-around. Strings that the
-- program walks are lists of bytes. In a collector the goroutines of one fan-out run in an order that
-- is a parameter, each in one piece, as `fan_out`, `run_queries` and `fill_slots`; Goroutines
-- interleaves the steps of the same goroutines.
--
-- Parameters are what the source does not hold: net/http and the target, the files, the decoders of
-- encoding/json and encoding/xml, float64 with strconv.ParseFloat, time.Parse, kingpin, the registry
-- of client_golang with the values that a label can have, `url.PathEscape`, the clock, and when
-- `web.ListenAndServe` returns. The labels of the collectors come from encoding/json, which makes
-- them valid UTF-8, so only the names of a request reach the panic of MustNewConstMetric. Not modelled are contexts and timeouts (an error of transport
-- stands for them), the texts of log lines and help, and of `main` the logger and the dispatch
-- of the mux, which are calls of libraries.
pub mod Prelude
pub mod Obsclient
pub mod Config
pub mod Goroutines
pub mod Collector
pub mod Exporter
mod Examples

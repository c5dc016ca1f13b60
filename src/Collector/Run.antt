-- ===== src/Collector/Run.antt =====
-- `Settings` and `Run` of internal/collector/probe.go, and what the collectors use of the outside.
-- A collector runs in the monad `Scrape`, on the state of one call of /probe; `panic` is the panic
-- of `MustRegister`.
pub mod Frame
pub mod Sure
pub mod Steady
pub mod Tasks
use prometheus_obs_exporter.Prelude.{
  ℕ, String, Bytes, Bool, Option, none, some, List, [], ◌∷◌, ◌++◌, if◌then◌else◌,
}
use prometheus_obs_exporter.Prelude.Int.{ℤ}
use prometheus_obs_exporter.Obsclient.Net.{Net, Error}
use prometheus_obs_exporter.Obsclient.Client.{Session, Outcome, ok, err, M}
use prometheus_obs_exporter.Obsclient.FlexNumber.{Float64}
use prometheus_obs_exporter.Obsclient.Types.{LocalZone, Node, Decoders}
use prometheus_obs_exporter.Obsclient.Apis.{get_local_zone, get_nodes}
use prometheus_obs_exporter.Collector.Metrics.{Metric, Registries, new_const_collector}

-- `logger` says whether there is one.
pub record Settings : Type 0 where
  pub dt_stats_enabled : Bool
  pub metering_concurrency : ℤ
  pub perf_range : ℤ
  pub logger : Bool

pub data LogEntry : Type 0 where
  collector_failed : String → Error → LogEntry
  unknown_collector : String → LogEntry
  node_failed : String → Error → LogEntry
  quota_failed billing_failed : String → Error → LogEntry
  query_failed : Bytes → Error → LogEntry

-- `order n` is the order in which `n` goroutines of one fan-out run, and `elapsed i` what
-- `time.Since` gives for the collector at position `i` of a request.
pub record Env (W R : Type 0) : Type 0 where
  pub net : Net
  pub dec : Decoders W
  pub f : Float64 W
  pub parse_time : String → Option ℕ
  pub reg : Registries W R
  pub order : ℕ → List ℕ
  pub elapsed : ℕ → W

-- A value and an error of which one is nil.
pub data Fetched (A : Type 0) : Type 0 where
  fetched : A → Fetched A
  failed : Error → Fetched A

-- `local_zone` and `nodes` are the results that `sync.OnceValues` keeps, `none` before the first
-- call.
pub record Run (R : Type 0) : Type 0 where
  pub settings : Settings
  pub session : Session
  pub local_zone : Option (Fetched LocalZone)
  pub nodes : Option (Fetched (List Node))
  pub registry : R
  pub log : List LogEntry

pub data Act (R A : Type 0) : Type 0 where
  done : A → Run R → Act R A
  panic : Run R → Act R A

abbrev pub Scrape : Type 0 → Type 0 → Type 0
Scrape R A = Run R → Act R A

module _ {R : Type 0} where
  abbrev pub return : {A : Type 0} → A → Scrape R A
  return = done

  abbrev pub continue_with : {A B : Type 0} → Act R A → (A → Scrape R B) → Act R B
  continue_with (done a run) k = k a run
  continue_with (panic run) k = panic run

  infixl 5 ◌>>=◌ ◌>>◌
  abbrev pub ◌>>=◌ : {A B : Type 0} → Scrape R A → (A → Scrape R B) → Scrape R B
  m >>= k = λ run. continue_with (m run) k

  abbrev pub ◌>>◌ : {A B : Type 0} → Scrape R A → Scrape R B → Scrape R B
  m >> n = m >>= λ _. n

  abbrev pub kept : {A : Type 0} → Run R → Outcome A → Act R (Fetched A)
  kept run (ok a s) = done (fetched a) (record run { session = s })
  kept run (err e s) = done (failed e) (record run { session = s })

  -- A method of the client, with its error as a value.
  abbrev pub call : {A : Type 0} → M A → Scrape R (Fetched A)
  call m run = kept run (m run.session)

  -- A line of log, if there is a logger.
  abbrev pub log_entry : LogEntry → Scrape R (Unit {0})
  log_entry e run =
      done tt (record run { log = if run.settings.logger then run.log ++ e ∷ [] else run.log })

module _ {W R : Type 0} (env : Env W R) where
  unfoldable pub new_run : Session → Settings → Run R
  new_run s settings = record {
    settings = settings;
    session = s;
    local_zone = none;
    nodes = none;
    registry = env.reg.new_registry;
    log = [];
  }

  unfoldable pub local_zone : Scrape R (Fetched LocalZone)
  local_zone run = elim run.local_zone [
    | some r ↦ done r run
    | none ↦
        (do
          r ← call (get_local_zone env.net env.dec)
          λ run'. done r (record run' { local_zone = some r }))
          run
  ]

  unfoldable pub nodes : Scrape R (Fetched (List Node))
  nodes run = elim run.nodes [
    | some r ↦ done r run
    | none ↦
        (do r ← call (get_nodes env.net env.dec); λ run'. done r (record run' { nodes = some r }))
          run
  ]

  abbrev registered : Run R → Option R → Act R (Unit {0})
  registered run none = panic run
  registered run (some r) = done tt (record run { registry = r })

  -- `registry.MustRegister(newConstCollector(metrics))`
  unfoldable pub must_register : List (Metric W) → Scrape R (Unit {0})
  must_register metrics run =
      registered run (env.reg.register (new_const_collector metrics) run.registry)

-- A collector returns `none` for a nil error.
abbrev pub Func : Type 0 → Type 0
Func R = Scrape R (Option Error)

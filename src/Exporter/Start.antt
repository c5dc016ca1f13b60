-- ===== src/Exporter/Start.antt =====
-- The beginning of `main` (cmd/obs-exporter/main.go): from the arguments to the server. kingpin's
-- parsing and the landing page of exporter-toolkit are parameters.
use prometheus_obs_exporter.Prelude.{
  ℕ, String, Bool, true, false, Option, none, some, List, [], ◌∷◌,
}
use prometheus_obs_exporter.Config.{
  Config, Flags, ParseResult, parsed, required_flag, range_too_long,
}
use prometheus_obs_exporter.Config

-- The handlers, and the patterns that the mux has for them.
pub data Route : Type 0 where
  landing_page metrics_handler probe_handler : Route

abbrev pub routes : List (String × Route)
routes = ("/", landing_page) ∷ ("/metrics", metrics_handler) ∷ ("/probe", probe_handler) ∷ []

-- The process exits with a code, or serves the routes with its settings.
pub data StartUp : Type 0 where
  exits : (code : ℕ) → StartUp
  serves : Config → List (String × Route) → StartUp

abbrev with_landing_page : Bool → Config → StartUp
with_landing_page true cfg = serves cfg routes
with_landing_page false cfg = exits 1

abbrev with_settings : Bool → ParseResult → StartUp
with_settings made (parsed cfg) = with_landing_page made cfg
with_settings made (required_flag name) = exits 2
with_settings made (range_too_long range) = exits 2

-- `none` for the arguments that kingpin refuses; `made` says if `NewLandingPage` succeeds.
unfoldable pub start_up : Option Flags → (made : Bool) → StartUp
start_up none made = exits 2
start_up (some fl) made = with_settings made (Config.new fl)

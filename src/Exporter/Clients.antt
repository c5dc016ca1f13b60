-- ===== src/Exporter/Clients.antt =====
-- `getOrCreateClient` and `logoutAll` of cmd/obs-exporter/main.go. The `sync.Map` of the clients
-- gives for a target the position of its client in `objects`, the list of all the clients that were
-- ever made, which stands for the heap. `others` is what the other requests do to the clients while
-- this one logs in, between `Load` and `LoadOrStore`.
pub mod Cached
pub mod Released
pub mod Shutdown
use prometheus_obs_exporter.Prelude.{
  ℕ, String, Option, none, some, List, [], ◌∷◌, ◌++◌, length, get_elem?, set,
}
use prometheus_obs_exporter.Prelude.Dict.{Dict, find, put}
use prometheus_obs_exporter.Obsclient.Net.{Net, Error}
use prometheus_obs_exporter.Obsclient.Client.{
  Files, Client, Creation, created, failed, Session, Outcome, ok, err, after,
}
use prometheus_obs_exporter.Obsclient.Client
use prometheus_obs_exporter.Obsclient.Auth.{login, logout}
use prometheus_obs_exporter.Config.{Config}
use prometheus_obs_exporter.Prelude.Int.{pos}

pub record Clients : Type 0 where
  pub cached : Dict ℕ
  pub objects : List Session

-- A client, by its position, or the error that the handler answers with.
pub data Obtained : Type 0 where
  client_at : ℕ → Obtained
  refused : Error → Obtained

-- The settings of a client; `Timeout` is left out, so zero.
unfoldable pub client_config : Config → Client.Config
client_config cfg = record {
  username = cfg.username;
  password = cfg.password;
  mgmt_port = cfg.mgmt_port;
  obj_port = cfg.obj_port;
  tls_insecure_skip_verify = cfg.tls_insecure_skip_verify;
  tls_ca_file = cfg.tls_ca_file;
  timeout = pos 0;
}

abbrev pub with_object : Session → Clients → Clients
with_object s st = record st { objects = st.objects ++ s ∷ [] }

module _ (net : Net) where
  -- `LoadOrStore`, after which the client that lost the race is logged out.
  unfoldable pub load_or_store : String → Session → Clients → Obtained × Clients
  load_or_store target s st = elim (find target st.cached) [
    | some i ↦ (client_at i, with_object (after (logout net s)) st)
    | none ↦ (
      client_at (length st.objects),
      record { cached = put target (length st.objects) st.cached; objects = st.objects ++ s ∷ [] },
    )
  ]

  unfoldable pub store_logged_in :
      String → (Clients → Clients) → Clients → Outcome (Unit {0}) → Obtained × Clients
  store_logged_in target others st (err e s) = (refused e, with_object s (others st))
  store_logged_in target others st (ok _ s) = load_or_store target s (others st)

  unfoldable pub create_client :
      Files → String → Config → (Clients → Clients) → Clients → Obtained × Clients
  create_client files target cfg others st = elim (Client.new files target (client_config cfg)) [
    | failed e ↦ (refused e, st)
    | created c ↦ store_logged_in target others st (login net (record { client = c; sent = [] }))
  ]

  unfoldable pub get_or_create_client :
      Files → String → Config → (Clients → Clients) → Clients → Obtained × Clients
  get_or_create_client files target cfg others st = elim (find target st.cached) [
    | some i ↦ (client_at i, st)
    | none ↦ create_client files target cfg others st
  ]

  -- One call of the function that `Range` is given; an error of the logout is only logged.
  unfoldable pub log_out_at : ℕ → List Session → List Session
  log_out_at i objects = elim (get_elem? objects i) [
    | none ↦ objects
    | some s ↦ set objects i (after (logout net s))
  ]

  unfoldable pub log_out_each : Dict ℕ → List Session → List Session
  log_out_each [] objects = objects
  log_out_each ((target, i) ∷ rest) objects = log_out_each rest (log_out_at i objects)

  unfoldable pub logout_all : Clients → Clients
  logout_all st = record st { objects = log_out_each st.cached st.objects }

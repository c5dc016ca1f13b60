-- ===== src/Exporter/Program.antt =====
-- cmd/obs-exporter/main.go as a whole: requests of /probe that interleave, and the goroutine that
-- waits for a signal while `main` serves. `Handler` and `Clients` have the same code for one request.
pub mod Shared
pub mod Stopping
use prometheus_obs_exporter.Prelude.{
  ℕ, ◌<◌, ◌≡◌, ◌≢◌, ◌⊎◌, String, Bool, true, false, Option, none, some, List, [], ◌∷◌, ◌++◌, ◌==◌,
  length, get_elem?, set, if◌then◌else◌,
}
use prometheus_obs_exporter.Prelude.Dict.{find, put}
use prometheus_obs_exporter.Obsclient.Net.{Net}
use prometheus_obs_exporter.Obsclient.Client.{
  Files, Client, Creation, created, failed, Session, Outcome, ok, err, after,
}
use prometheus_obs_exporter.Obsclient.Client
use prometheus_obs_exporter.Obsclient.Auth.{login, logout}
use prometheus_obs_exporter.Config.{Config}
use prometheus_obs_exporter.Exporter.Clients.{Clients, client_config, with_object, logout_all}

-- Where a request stands: before `Load`, behind a `Load` that found nothing, before `LoadOrStore`
-- with its own client, before the logout of that client when another one was stored, at the probe of
-- the client at a position, or answered.
pub data Pc : Type 0 where
  idle : Pc
  arrived : Pc
  missed : Pc
  storing : Session → Pc
  losing : Session → ℕ → Pc
  probing : ℕ → Pc
  ended : Pc

abbrev pub loaded : Option ℕ → Pc
loaded (some j) = probing j
loaded none = missed

abbrev pub logged_in : Outcome (Unit {0}) → Clients → Clients × Pc
logged_in (err e s) st = (with_object s st, ended)
logged_in (ok _ s) st = (st, storing s)

abbrev pub made : Net → Creation Client → Clients → Clients × Pc
made net (failed e) st = (st, ended)
made net (created c) st = logged_in (login net (record { client = c; sent = [] })) st

abbrev pub stored : String → Session → Clients → Option ℕ → Clients × Pc
stored target s st (some j) = (st, losing s j)
stored target s st none = (
  record { cached = put target (length st.objects) st.cached; objects = st.objects ++ s ∷ [] },
  probing (length st.objects),
)

-- One step of a request of a target: `Load`; `New` with `Login`; `LoadOrStore`; the logout of the
-- loser; the probe, which changes its client in any way and any number of times; the answer.
module _ (net : Net) (files : Files) (cfg : Config) (target : String) (st : Clients) where
  pub data Move : Pc → Clients → Pc → Type 0 where
    load : Move arrived st (loaded (find target st.cached))
    make :
        Move missed
          (made net (Client.new files target (client_config cfg)) st).0
          (made net (Client.new files target (client_config cfg)) st).1
    store :
        (s : Session)
        → Move
            (storing s)
            (stored target s st (find target st.cached)).0
            (stored target s st (find target st.cached)).1
    release :
        (s : Session) (j : ℕ)
        → Move (losing s j) (with_object (after (logout net s)) st) (probing j)
    work :
        (j : ℕ) (s s' : Session)
        → get_elem? st.objects j ≡ some s
        → Move (probing j) (record st { objects = set st.objects j s' }) (probing j)
    answer : (j : ℕ) → Move (probing j) st ended

-- What the process does: `main` serves; `Shutdown` waits, for at most ten seconds, until the
-- requests are answered; then come `logoutAll` and the end of the goroutine. `drained` remembers
-- whether `Shutdown` saw every request answered.
pub data Phase : Type 0 where
  serving : Phase
  draining : Phase
  drained : (all : Bool) → Phase
  released : (all : Bool) → Phase
  exited : (code : ℕ) → Phase

abbrev pub IsRunning : Phase → Type 0
IsRunning (exited code) = ⊥
IsRunning _ = Unit {0}

abbrev pub update : (ℕ → Pc) → ℕ → Pc → ℕ → Pc
update f i p j = if i == j then p else f j

pub record Program : Type 0 where
  pub phase : Phase
  pub clients : Clients
  pub pc : ℕ → Pc

-- No request is under way.
abbrev pub IsQuiet : (ℕ → Pc) → Type 0
IsQuiet pc = (i : ℕ) → (pc i ≡ idle) ⊎ (pc i ≡ ended)

-- The requests are numbered; request `i` is for `target i`. A request arrives only while the server
-- listens. `closed` says in which phases `web.ListenAndServe` has returned `http.ErrServerClosed`,
-- which is for net/http to say; `main` then returns, which ends the process. `fail` is any other
-- error of it, with which `main` calls `os.Exit(1)`.
module _ (net : Net) (files : Files) (cfg : Config) (target : ℕ → String)
    (closed : Phase → Type 0) where
  pub data Step (p : Program) : Program → Type 0 where
    arrive :
        (i : ℕ)
        → p.phase ≡ serving
        → p.pc i ≡ idle
        → Step p (record p { pc = update p.pc i arrived })
    request :
        (i : ℕ) (st : Clients) (c : Pc)
        → IsRunning p.phase
        → Move net files cfg (target i) p.clients (p.pc i) st c
        → Step p (record p { clients = st; pc = update p.pc i c })
    signal : p.phase ≡ serving → Step p (record p { phase = draining })
    drain : p.phase ≡ draining → IsQuiet p.pc → Step p (record p { phase = drained true })
    time_out : p.phase ≡ draining → Step p (record p { phase = drained false })
    release_all :
        (all : Bool)
        → p.phase ≡ drained all
        → Step p (record p { phase = released all; clients = logout_all net p.clients })
    exit : closed p.phase → IsRunning p.phase → Step p (record p { phase = exited 0 })
    fail : p.phase ≡ serving → Step p (record p { phase = exited 1 })

  pub data Reach : Program → Type 0 where
    start :
        Reach (record {
          phase = serving;
          clients = record { cached = []; objects = [] };
          pc = λ _. idle;
        })
    next : {p q : Program} → Reach p → Step p q → Reach q

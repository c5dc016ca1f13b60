-- ===== src/Exporter/Handler/Kept.antt =====
-- The tokens of the clients behind a whole request of `probeHandler` of main.go.
use prometheus_obs_exporter.Prelude.{
  ℕ, ◌<◌, String, ◌≡◌, true, some, List, [], ◌∷◌, arith, length, get_elem?, set, Option-cases,
  Bool-cases, inl, inr, ◌==◌, get_elem?-set_ne, lt-length_of_get_elem?, ==_iff, str_eq,
}
use prometheus_obs_exporter.Prelude.Dict.{Dict, find}
use prometheus_obs_exporter.Obsclient.Client.{Files, Session}
use prometheus_obs_exporter.Config.{Config}
use prometheus_obs_exporter.Collector.Run.{Env, Act, done, panic}
use prometheus_obs_exporter.Collector.Probe.{probe}
use prometheus_obs_exporter.Exporter.Clients.{Clients, Obtained, client_at, refused}
use prometheus_obs_exporter.Exporter.Clients.Cached.{IsCached, obtained-IsCached}
use prometheus_obs_exporter.Exporter.Clients.Released.{
  Answers, is_cached, Resting, HasNoStrayTokens, get_or_create-HasNoStrayTokens,
}
use prometheus_obs_exporter.Exporter.Clients.Shutdown.{ne_of, eq_of, set_at}
use prometheus_obs_exporter.Exporter.Handler.{
  reply_of, probe_client, respond, requested, settings_of, probe_handler,
}

pub is_cached_of_find :
    (target : String) (i : ℕ) (d : Dict ℕ) → find target d ≡ some i → is_cached i d ≡ true
unfolding find
is_cached_of_find target i [] e = cc
is_cached_of_find target i ((k, j) ∷ d) e = elim (Bool-cases (str_eq k target)) [
  | inl same ↦ let p : some j ≡ some i = rw same at e in ground (arith, ==_iff j i)
  | inr differs ↦ rw (is_cached_of_find target i d (rw differs at e)) (ground arith)
]

-- A cached client may change.
pub set-Resting :
    (d : Dict ℕ) (objects : List Session) (i : ℕ) (s : Session)
    → is_cached i d ≡ true
    → i < length objects
    → ((j : ℕ) → Resting d j (get_elem? objects j))
    → (j : ℕ) → Resting d j (get_elem? (set objects i s) j)
set-Resting d objects i s c lt h j = elim (Bool-cases (i == j)) [
  | inl same ↦ rw (set_at objects i j s (eq_of i j same) lt) (inr (rw⁻¹ (eq_of i j same) c))
  | inr differs ↦ rw (get_elem?-set_ne objects i j s (ne_of i j differs)) (h j)
]

module _ {W R : Type 0} (env : Env W R) (target : String) where
  reply_of-HasNoStrayTokens :
      (i : ℕ) (st : Clients) (a : Act R (Unit {0}))
      → is_cached i st.cached ≡ true
      → i < length st.objects
      → HasNoStrayTokens st
      → HasNoStrayTokens (reply_of env i st a).1
  unfolding reply_of
  reply_of-HasNoStrayTokens i st (panic run) c lt h =
      set-Resting st.cached st.objects i run.session c lt h
  reply_of-HasNoStrayTokens i st (done u run) c lt h =
      set-Resting st.cached st.objects i run.session c lt h

  respond-HasNoStrayTokens :
      (cfg : Config) (names : List String) (r : Obtained × Clients)
      → IsCached env.net target r
      → HasNoStrayTokens r.1
      → HasNoStrayTokens (respond env cfg names r).1
  unfolding respond probe_client
  respond-HasNoStrayTokens cfg names (refused e, st) c h = h
  respond-HasNoStrayTokens cfg names (client_at i, st) c h =
      elim (Option-cases (get_elem? st.objects i)) [
        | inl past ↦ rw (past, respond, probe_client) h
        | inr (s, there) ↦
            rw (there, respond, probe_client)
              (reply_of-HasNoStrayTokens i st (probe env s (settings_of cfg) names)
                (is_cached_of_find target i st.cached c) (lt-length_of_get_elem? st.objects i there)
                h)
      ]

  -- When the target answers every request, with whatever status, and neither the clients before nor
  -- what the other requests make of them has a stray token, a whole request of /probe leaves none,
  -- whatever its parameters, its collectors and the errors: each client that was ever made holds no
  -- token or is in the map, where `logoutAll` finds it.
  pub probe_handler-HasNoStrayTokens :
      (files : Files) (cfg : Config) (others : Clients → Clients) (raw : String) (st : Clients)
      → Answers env.net
      → HasNoStrayTokens st
      → HasNoStrayTokens (others st)
      → HasNoStrayTokens (probe_handler env files cfg others target raw st).1
  unfolding probe_handler
  probe_handler-HasNoStrayTokens files cfg others raw st on h h' =
      elim (Bool-cases (str_eq target "")) [
        | inl empty ↦ rw (empty, probe_handler) h
        | inr given ↦
            rw (given, probe_handler)
              (respond-HasNoStrayTokens cfg (requested raw) _
                (obtained-IsCached env.net target files cfg others st)
                (get_or_create-HasNoStrayTokens env.net target on files cfg others st h h'))
      ]

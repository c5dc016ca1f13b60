-- ===== src/Exporter/Clients/Cached.antt =====
-- The client that `getOrCreateClient` of main.go hands out, and the map of the clients.
use prometheus_obs_exporter.Prelude.{
  ℕ, String, ◌≡◌, refl, some, List, [], arith, length, Option-cases, inl, inr, ◌⊎◌,
}
use prometheus_obs_exporter.Prelude.Dict.{find, put, find-put}
use text.Mathlib.TextEquality.{eq_iff}
use prometheus_obs_exporter.Obsclient.Net.{Net, Error}
use prometheus_obs_exporter.Obsclient.Client.{
  Files, Client, Creation, created, failed, Session, Outcome, ok, err,
}
use prometheus_obs_exporter.Obsclient.Client
use prometheus_obs_exporter.Obsclient.Auth.{login}
use prometheus_obs_exporter.Config.{Config}
use prometheus_obs_exporter.Exporter.Clients.{
  Clients, Obtained, client_at, refused, client_config, load_or_store, store_logged_in,
  create_client, get_or_create_client,
}

pub creation-cases :
    {A : Type 0} (c : Creation A) → ((a : A) × (c ≡ created a)) ⊎ ((e : Error) × (c ≡ failed e))
creation-cases (created a) = inl (a, refl)
creation-cases (failed e) = inr (e, refl)

module _ (net : Net) (target : String) where
  -- A client that is handed out is the cached one.
  abbrev pub IsCached : Obtained × Clients → Type 0
  IsCached r = elim r.0 [ client_at i ↦ find target r.1.cached ≡ some i | refused e ↦ Unit {0} ]

  find-put_self : (v : ℕ) (m : List (String × ℕ)) → find target (put target v m) ≡ some v
  find-put_self v m = ground (arith, find-put target target v m, eq_iff target target)

  load_or_store-IsCached : (s : Session) (st : Clients) → IsCached (load_or_store net target s st)
  unfolding load_or_store
  load_or_store-IsCached s st = elim (Option-cases (find target st.cached)) [
    | inl absent ↦ rw (absent, load_or_store) (find-put_self (length st.objects) st.cached)
    | inr (i, there) ↦ rw (there, load_or_store) there
  ]

  store-IsCached :
      (others : Clients → Clients) (st : Clients) (o : Outcome (Unit {0}))
      → IsCached (store_logged_in net target others st o)
  unfolding store_logged_in
  store-IsCached others st (err e s) = tt
  store-IsCached others st (ok _ s) = load_or_store-IsCached s (others st)

  module _ (files : Files) (cfg : Config) (others : Clients → Clients) (st : Clients) where
    create-IsCached : IsCached (create_client net files target cfg others st)
    unfolding create_client
    create-IsCached = elim (creation-cases (Client.new files target (client_config cfg))) [
      | inl (c, made) ↦
          rw (made, create_client)
            (store-IsCached others st (login net (record { client = c; sent = [] })))
      | inr (e, bad) ↦ rw (bad, create_client) tt
    ]

    pub obtained-IsCached : IsCached (get_or_create_client net files target cfg others st)
    unfolding get_or_create_client
    obtained-IsCached = elim (Option-cases (find target st.cached)) [
      | inl absent ↦ rw (absent, get_or_create_client) create-IsCached
      | inr (i, there) ↦ rw (there, get_or_create_client) there
    ]

    -- Whatever the other requests do to the clients while this one logs in, the client that a
    -- request obtains is the one that the map has for its target afterwards: requests for one
    -- target that race for its first client all end with the same client, the winner's, on the path
    -- of `Load`, of the store and of the lost race.
    obtained_is_cached :
        (i : ℕ) (st' : Clients)
        → get_or_create_client net files target cfg others st ≡ (client_at i, st')
        → find target st'.cached ≡ some i
    obtained_is_cached i st' obtained =
        let h : IsCached (client_at i, st') = rw obtained at obtained-IsCached in h

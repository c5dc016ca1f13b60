-- ===== src/Exporter/Program/Stopping.antt =====
-- The tokens that the process (main.go) leaves when it stops.
use prometheus_obs_exporter.Prelude.{
  ℕ, zero, suc, ◌≡◌, ◌⊎◌, refl, ◌∙◌, String, true, false, Option, none, some, List, [], ◌∷◌, arith,
  get_elem?, inl, All, lt-length_of_get_elem?,
}
use prometheus_obs_exporter.Prelude.Dict.{Dict, find}
use prometheus_obs_exporter.Obsclient.Net.{Net}
use prometheus_obs_exporter.Obsclient.Client.{
  Files, Client, Creation, created, failed, Session, Outcome, ok, err, after,
}
use prometheus_obs_exporter.Obsclient.Client
use prometheus_obs_exporter.Obsclient.Auth.{login, logout}
use prometheus_obs_exporter.Config.{Config}
use prometheus_obs_exporter.Exporter.Clients.{Clients, client_config}
use prometheus_obs_exporter.Exporter.Clients.Released.{
  Answers, logout_clears, login_err_keeps, new_has_no_token, HasNoStrayTokens, Resting,
  with_object-HasNoStrayTokens, put-HasNoStrayTokens,
}
use prometheus_obs_exporter.Exporter.Clients.Shutdown.{HasNoToken, logout_all-All}
use prometheus_obs_exporter.Exporter.Handler.Kept.{is_cached_of_find, set-Resting}
use prometheus_obs_exporter.Exporter.Program.Shared.{Points, AllPoint, Reach-AllPoint}
use prometheus_obs_exporter.Exporter.Program.{
  Pc, idle, ended, logged_in, made, stored, Move, load, make, store, release, work, answer, Phase,
  serving, draining, drained, released, exited, Program, Step, arrive, request, signal, drain,
  time_out, release_all, exit, fail, IsRunning, Reach, start, next, IsQuiet,
}

logged_in-HasNoStrayTokens :
    (net : Net) (s : Session) (st : Clients) (o : Outcome (Unit {0}))
    → login net s ≡ o
    → s.client.auth_token ≡ ""
    → HasNoStrayTokens st
    → HasNoStrayTokens (logged_in o st).0
logged_in-HasNoStrayTokens net s st (err e s') at fresh h =
    with_object-HasNoStrayTokens s' st (login_err_keeps net s s' e at ∙ fresh) h
logged_in-HasNoStrayTokens net s st (ok u s') at fresh h = h

made-HasNoStrayTokens :
    (net : Net) (files : Files) (target : String) (cfg : Client.Config) (st : Clients)
    (c : Creation Client)
    → Client.new files target cfg ≡ c
    → HasNoStrayTokens st
    → HasNoStrayTokens (made net c st).0
made-HasNoStrayTokens net files target cfg st (failed e) at h = h
made-HasNoStrayTokens net files target cfg st (created c) at h =
    let s : Session = record { client = c; sent = [] } in
    logged_in-HasNoStrayTokens net s st (login net s) refl (new_has_no_token files target cfg c at)
      h

stored-HasNoStrayTokens :
    (target : String) (s : Session) (st : Clients) (o : Option ℕ)
    → find target st.cached ≡ o
    → HasNoStrayTokens st
    → HasNoStrayTokens (stored target s st o).0
stored-HasNoStrayTokens target s st (some j) at h = h
stored-HasNoStrayTokens target s st none at h = put-HasNoStrayTokens target s st at h

module _ {net : Net} {files : Files} {cfg : Config} {target : String} {st : Clients} where
  Move-HasNoStrayTokens :
      {st' : Clients} {a b : Pc}
      → Move net files cfg target st a st' b
      → Answers net
      → Points st.cached target a
      → HasNoStrayTokens st
      → HasNoStrayTokens st'
  Move-HasNoStrayTokens load on at h = h
  Move-HasNoStrayTokens make on at h =
      made-HasNoStrayTokens net files target (client_config cfg) st _ refl h
  Move-HasNoStrayTokens (store s) on at h = stored-HasNoStrayTokens target s st _ refl h
  Move-HasNoStrayTokens (release s j) on at h =
      with_object-HasNoStrayTokens (after (logout net s)) st (logout_clears net on s) h
  Move-HasNoStrayTokens (work j s s' there) on at h =
      set-Resting st.cached st.objects j s' (is_cached_of_find target j st.cached at)
        (lt-length_of_get_elem? st.objects j there) h
  Move-HasNoStrayTokens (answer j) on at h = h

  Move-IsBusy :
      {st' : Clients} {a b : Pc}
      → Move net files cfg target st a st' b
      → (a ≡ idle) ⊎ (a ≡ ended)
      → ⊥
  Move-IsBusy load h = ground arith
  Move-IsBusy make h = ground arith
  Move-IsBusy (store s) h = ground arith
  Move-IsBusy (release s j) h = ground arith
  Move-IsBusy (work j s s' there) h = ground arith
  Move-IsBusy (answer j) h = ground arith

-- In which phases no request is under way and nothing is left to release.
abbrev Calm : Phase → Program → Type 0
Calm (drained true) p = IsQuiet p.pc
Calm (released true) p = IsQuiet p.pc × All HasNoToken p.clients.objects
Calm _ p = Unit {0}

Calm-quiet :
    (phase : Phase) (p : Program)
    → Calm phase p
    → IsRunning phase
    → (i : ℕ) → ((p.pc i ≡ idle) ⊎ (p.pc i ≡ ended) → ⊥)
    → (q : Program) → Calm phase q
Calm-quiet serving p h alive i busy q = tt
Calm-quiet draining p h alive i busy q = tt
Calm-quiet (drained true) p h alive i busy q = absurd (busy (h i))
Calm-quiet (drained false) p h alive i busy q = tt
Calm-quiet (released true) p h alive i busy q = absurd (busy (h.0 i))
Calm-quiet (released false) p h alive i busy q = tt
Calm-quiet (exited code) p h alive i busy q = tt

All-Resting :
    (d : Dict ℕ) (objects : List Session) (k i : ℕ)
    → All HasNoToken objects
    → Resting d k (get_elem? objects i)
All-Resting d [] k i h = tt
All-Resting d (s ∷ objects) k zero h = inl h.0
All-Resting d (s ∷ objects) k (suc i) h = All-Resting d objects k i h.1

module _ {net : Net} {files : Files} {cfg : Config} {target : ℕ → String}
    {closed : Phase → Type 0} where
  Step-Calm :
      {p q : Program}
      → Step net files cfg target closed p q
      → Answers net
      → HasNoStrayTokens p.clients
      → Calm p.phase p
      → Calm q.phase q
  Step-Calm {p} (arrive i on at) answers h c = rw on tt
  Step-Calm {p} (request i st d alive mv) answers h c =
      Calm-quiet p.phase p c alive i (Move-IsBusy mv) _
  Step-Calm (signal on) answers h c = tt
  Step-Calm (drain on quiet) answers h c = quiet
  Step-Calm (time_out on) answers h c = tt
  Step-Calm {p} (release_all true on) answers h c =
      let quiet : IsQuiet p.pc = simp on at c in (quiet, logout_all-All net answers p.clients h)
  Step-Calm (release_all false on) answers h c = tt
  Step-Calm (exit off alive) answers h c = tt
  Step-Calm (fail on) answers h c = tt

  Step-HasNoStrayTokens :
      {p q : Program}
      → Step net files cfg target closed p q
      → Answers net
      → AllPoint target p
      → HasNoStrayTokens p.clients
      → HasNoStrayTokens q.clients
  Step-HasNoStrayTokens (arrive i on at) answers points h = h
  Step-HasNoStrayTokens (request i st d alive mv) answers points h =
      Move-HasNoStrayTokens mv answers (points i) h
  Step-HasNoStrayTokens (signal on) answers points h = h
  Step-HasNoStrayTokens (drain on quiet) answers points h = h
  Step-HasNoStrayTokens (time_out on) answers points h = h
  Step-HasNoStrayTokens {p} (release_all all on) answers points h =
      λ i. All-Resting _ _ i i (logout_all-All net answers p.clients h)
  Step-HasNoStrayTokens (exit off alive) answers points h = h
  Step-HasNoStrayTokens (fail on) answers points h = h

  Reach-HasNoStrayTokens :
      {p : Program} → Reach net files cfg target closed p → Answers net → HasNoStrayTokens p.clients
  Reach-HasNoStrayTokens start answers = λ i. tt
  Reach-HasNoStrayTokens (next r st) answers =
      Step-HasNoStrayTokens st answers (Reach-AllPoint r) (Reach-HasNoStrayTokens r answers)

  Reach-Calm : {p : Program} → Reach net files cfg target closed p → Answers net → Calm p.phase p
  Reach-Calm start answers = tt
  Reach-Calm (next r st) answers =
      Step-Calm st answers (Reach-HasNoStrayTokens r answers) (Reach-Calm r answers)

module _ (net : Net) (files : Files) (cfg : Config) (target : ℕ → String)
    (closed : Phase → Type 0) where
  -- When the target answers every request, with whatever status, and `Shutdown` saw every request
  -- answered before its ten seconds were over, then after `logoutAll` no client that was ever made
  -- holds a token, however the requests have interleaved.
  pub released-All :
      (p : Program)
      → Reach net files cfg target closed p
      → Answers net
      → p.phase ≡ released true
      → All HasNoToken p.clients.objects
  released-All p r answers at =
      let c : Calm (released true) p = simp at at (Reach-Calm r answers) in c.1

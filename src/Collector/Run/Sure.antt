-- ===== src/Collector/Run/Sure.antt =====
-- Steps of a collector (probe.go) that do not panic.
use prometheus_obs_exporter.Prelude.{◌≡◌, inl, inr, Option-cases}
use prometheus_obs_exporter.Obsclient.Client.{Outcome, ok, err, M}
use prometheus_obs_exporter.Obsclient.Apis.{get_local_zone, get_nodes}
use prometheus_obs_exporter.Collector.Run.{
  Env, Run, Act, done, panic, Scrape, continue_with, kept, call, local_zone, nodes,
}

abbrev pub Whatever : {A : Type 0} → A → Type 0
Whatever a = Unit {0}

module _ {R : Type 0} where
  -- A step does not panic, and `Q` holds of its result and state.
  abbrev pub Must : {A : Type 0} → (A → Run R → Type 0) → Act R A → Type 0
  Must Q (done a run) = Q a run
  Must Q (panic run) = ⊥

  pub Must-bind :
      {A B : Type 0} (Q : A → Run R → Type 0) (S : B → Run R → Type 0) (m : Act R A)
      (k : A → Scrape R B)
      → Must Q m
      → ((a : A) (run : Run R) → Q a run → Must S (k a run))
      → Must S (continue_with m k)
  Must-bind Q S (done a run) k h next = next a run h
  Must-bind Q S (panic run) k h next = absurd h

  module _ (r : R) where
    -- The registry of the request stays `r`.
    abbrev pub Stays : {A : Type 0} → (A → Type 0) → A → Run R → Type 0
    Stays P a run = P a × (run.registry ≡ r)

    kept-Stays :
        {A : Type 0} (run : Run R) (o : Outcome A)
        → run.registry ≡ r
        → Must (Stays Whatever) (kept run o)
    kept-Stays run (ok a s) h = (tt, h)
    kept-Stays run (err e s) h = (tt, h)

    pub call-Stays :
        {A : Type 0} (m : M A) (run : Run R) → run.registry ≡ r → Must (Stays Whatever) (call m run)
    call-Stays m run h = kept-Stays run (m run.session) h

module _ {W R : Type 0} (env : Env W R) (r : R) where
  pub local_zone-Stays :
      (run : Run R) → run.registry ≡ r → Must (Stays r Whatever) (local_zone env run)
  unfolding local_zone
  local_zone-Stays run h = elim (Option-cases run.local_zone) [
    | inl absent ↦
        rw (absent, local_zone)
          (Must-bind (Stays r Whatever) (Stays r Whatever)
            (call (get_local_zone env.net env.dec) run) _
            (call-Stays r (get_local_zone env.net env.dec) run h) λ a run' s. s)
    | inr (z, there) ↦ rw (there, local_zone) (tt, h)
  ]

  pub nodes-Stays : (run : Run R) → run.registry ≡ r → Must (Stays r Whatever) (nodes env run)
  unfolding nodes
  nodes-Stays run h = elim (Option-cases run.nodes) [
    | inl absent ↦
        rw (absent, nodes)
          (Must-bind (Stays r Whatever) (Stays r Whatever) (call (get_nodes env.net env.dec) run) _
            (call-Stays r (get_nodes env.net env.dec) run h) λ a run' s. s)
    | inr (ns, there) ↦ rw (there, nodes) (tt, h)
  ]

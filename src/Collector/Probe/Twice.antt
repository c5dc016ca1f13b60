-- ===== src/Collector/Probe/Twice.antt =====
-- A request that names a collector twice.
use prometheus_obs_exporter.Prelude.{
  ◌≡◌, ◌≢◌, refl, true, Option, none, some, List, [], ◌∷◌, ◌++◌, Option-cases, inl, inr,
}
use prometheus_obs_exporter.Obsclient.Net.{Error}
use prometheus_obs_exporter.Obsclient.Client.{Outcome, ok, err}
use prometheus_obs_exporter.Obsclient.Types.{LocalZone, Node}
use prometheus_obs_exporter.Obsclient.Apis.{get_nodes, get_local_zone}
use prometheus_obs_exporter.Collector.Metrics.{
  Metric, ConstCollector, new_const_collector, describe, Registries,
}
use prometheus_obs_exporter.Collector.Run.{
  Env, Run, Act, done, panic, Fetched, fetched, failed, continue_with, call, local_zone, nodes,
  must_register, kept,
}
use prometheus_obs_exporter.Collector.Run.Frame.{Post, Post-bind}
use prometheus_obs_exporter.Collector.Cluster.{
  collect_cluster, with_zone, zone_metrics, info_metric, version_of,
}
use prometheus_obs_exporter.Collector.Probe.{run_collector, registry, judged}

-- `Register` refuses a collector with a descriptor that is registered.
pub record RefusesTwice {W R : Type 0} (reg : Registries W R) : Type 0 where
  pub refuses :
      (c : ConstCollector W) (r r' : R)
      → reg.register c r ≡ some r'
      → describe c ≢ []
      → reg.register c r' ≡ none

always : {R A : Type 0} (a : Act R A) → Post (λ _ _. Unit {0}) a
always (done x run) = tt
always (panic run) = tt

described :
    {W : Type 0} (ms : List (Metric W)) (m : Metric W)
    → describe (new_const_collector (ms ++ m ∷ [])) ≢ []
unfolding describe new_const_collector
described [] m e = cc
described (m' ∷ ms) m e = cc

module _ {W R : Type 0} (env : Env W R) where
  abbrev cluster_metrics : LocalZone → Fetched (List Node) → List (Metric W)
  cluster_metrics lz ns = zone_metrics env.f lz ++ info_metric env.f lz (version_of ns) ∷ []

  -- What a collector that succeeded has left.
  abbrev Left : Option Error → Run R → Type 0
  Left (some e) run = Unit {0}
  Left none run =
      (lz : LocalZone) × (ns : Fetched (List Node)) × (r : R) × (run.local_zone ≡ some (fetched lz))
      × (run.nodes ≡ some ns)
      × (env.reg.register (new_const_collector (cluster_metrics lz ns)) r ≡ some run.registry)

  abbrev pub KeptZone : Fetched LocalZone → Run R → Type 0
  KeptZone z run = run.local_zone ≡ some z

  pub local_zone-KeptZone : (run : Run R) → Post KeptZone (local_zone env run)
  unfolding local_zone
  local_zone-KeptZone run = elim (Option-cases run.local_zone) [
    | inl absent ↦
        rw (absent, local_zone)
          (Post-bind (λ _ _. Unit {0}) KeptZone (call (get_local_zone env.net env.dec) run) _
            (always (call (get_local_zone env.net env.dec) run)) λ r run' _. refl)
    | inr (z, there) ↦ simp (there, local_zone) refl
  ]

  kept-KeptZone :
      {A : Type 0} (z : Fetched LocalZone) (run : Run R) (o : Outcome A)
      → KeptZone z run
      → Post (λ _. KeptZone z) (kept run o)
  kept-KeptZone z run (ok a s) h = h
  kept-KeptZone z run (err e s) h = h

  pub nodes-KeptZone :
      (z : Fetched LocalZone) (run : Run R)
      → KeptZone z run
      → Post (λ ns run'. KeptZone z run' × (run'.nodes ≡ some ns)) (nodes env run)
  unfolding nodes
  nodes-KeptZone z run h = elim (Option-cases run.nodes) [
    | inl absent ↦
        rw (absent, nodes)
          (Post-bind (λ _. KeptZone z) Both (call (get_nodes env.net env.dec) run) _
            (kept-KeptZone z run (get_nodes env.net env.dec run.session) h) λ r run' k. (k, refl))
    | inr (ns, there) ↦ simp (there, nodes) (h, refl)
  ]
    where
      Both : Fetched (List Node) → Run R → Type 0
      Both ns run' = KeptZone z run' × (run'.nodes ≡ some ns)

  with_zone-Left :
      (z : Fetched LocalZone) (run : Run R) → KeptZone z run → Post Left (with_zone env z run)
  unfolding with_zone must_register
  with_zone-Left (failed e) run h = tt
  with_zone-Left (fetched lz) run h =
      Post-bind (λ ns run'. KeptZone (fetched lz) run' × (run'.nodes ≡ some ns)) Left
        (nodes env run) _ (nodes-KeptZone (fetched lz) run h)
        λ ns run' k.
          elim (Option-cases
            (env.reg.register (new_const_collector (cluster_metrics lz ns)) run'.registry)) [
              | inl refused ↦ rw (refused, must_register) tt
              | inr (r, taken) ↦ rw (taken, must_register) (lz, ns, run'.registry, k.0, k.1, taken)
            ]

  cluster-Left : (run : Run R) → Post Left (collect_cluster env run)
  unfolding collect_cluster
  cluster-Left run =
      Post-bind KeptZone Left (local_zone env run) _ (local_zone-KeptZone run) with_zone-Left

  cluster-again :
      (refuses : RefusesTwice env.reg) (run : Run R)
      → Left none run
      → collect_cluster env run ≡ panic run
  unfolding collect_cluster with_zone must_register local_zone nodes
  cluster-again refuses run (lz, ns, r, zone, listed, taken) =
      let refused = refuses.refuses _ r run.registry taken (described (zone_metrics env.f lz) _) in
      simp (zone, listed, refused, local_zone, nodes, must_register) refl

  of_success :
      (a : Act R (Option Error)) (run : Run R)
      → Post Left a
      → continue_with a (judged env "cluster") ≡ done true run
      → Left none run
  unfolding judged
  of_success (done none run') run h e = let p : run' ≡ run = cc in rw p at h
  of_success (done (some bad) run') run h e = absurd cc
  of_success (panic run') run h e = absurd cc

  -- The bug: the names of a request are not made distinct. When the collector `cluster` has succeeded
  -- and the registry refuses a descriptor that is registered, `cluster` named once more panics in
  -- `MustRegister`.
  pub cluster_twice_panics :
      RefusesTwice env.reg
      → (start run : Run R) → run_collector env "cluster" start ≡ done true run
      → run_collector env "cluster" run ≡ panic run
  unfolding run_collector registry
  cluster_twice_panics refuses start run e =
      rw
        (cluster-again refuses run
          (of_success (collect_cluster env start) run (cluster-Left start) e))
        refl

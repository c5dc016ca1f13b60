-- ===== src/Collector/Probe/Distinct.antt =====
-- A request that names each collector once.
pub mod Requests
use prometheus_obs_exporter.Prelude.{
  ℕ, suc, ◌≡◌, ◌≢◌, refl, sym, ap, ◌∙◌, ◌⊎◌, inl, inr, String, Bool, true, false, Option, none,
  some, List, [], ◌∷◌, ◌++◌, map, All, All-append, Option-cases, Bool-cases, str_eq, if◌then◌else◌,
}
use text.Mathlib.TextEquality.{eq_iff}
use prometheus_obs_exporter.Obsclient.Client.{Session}
use prometheus_obs_exporter.Obsclient.Net.{Error}
use prometheus_obs_exporter.Collector.Metrics.{
  Desc, Metric, ConstCollector, new_const_collector, describe, Registries,
}
use prometheus_obs_exporter.Collector.Run.{
  Env, Run, Settings, Act, done, panic, Func, return, continue_with, log_entry, new_run,
  must_register, collector_failed, unknown_collector,
}
use prometheus_obs_exporter.Collector.Run.Sure.{Must, Must-bind}
use prometheus_obs_exporter.Collector.Series.{HasDistinctNames}
use prometheus_obs_exporter.Collector.Cluster.{collect_cluster}
use prometheus_obs_exporter.Collector.Replication.{collect_replication}
use prometheus_obs_exporter.Collector.Node.{collect_node}
use prometheus_obs_exporter.Collector.Metering.{collect_metering}
use prometheus_obs_exporter.Collector.Perf.{collect_perf}
use prometheus_obs_exporter.Collector.Probe.{
  registry, judged, run_collector, run_collectors, probe, success_metric, duration_metric,
}
use prometheus_obs_exporter.Collector.Probe.Tables.{
  Source, cluster, replication, node, metering, perf, scrape, table, owner, owner-table,
  valid_table, table-valid, Among,
}
use prometheus_obs_exporter.Collector.Probe.Described.{AreOf, nil-AreOf, append-AreOf, cons-AreOf}
use prometheus_obs_exporter.Collector.Probe.Safe.{
  Takes, Ended, register-Ended, cluster-Ended, replication-Ended, node-Ended,
}
use prometheus_obs_exporter.Collector.Probe.Safe.Fans.{metering-Ended, perf-Ended}

-- `Register` takes a collector whose descriptors are of a table of valid descriptors that differ
-- in their names, none of which is the name of a descriptor that is registered.
pub record TakesNew {W R : Type 0} (reg : Registries W R) : Type 0 where
  pub names : R → List String
  pub none_at_first : names reg.new_registry ≡ []
  pub takes :
      (c : ConstCollector W) (r : R) (ds : List Desc)
      → valid_table ds ≡ true
      → All (Among ds) (describe c)
      → All (λ d. All (λ n. d.name ≢ n) (names r)) ds
      → (r' : R) × (reg.register c r ≡ some r')
        × (names r' ≡ names r ++ map (λ d. d.name) (describe c))

abbrev pub label : Source → String
label cluster = "cluster"
label replication = "replication"
label node = "node"
label metering = "metering"
label perf = "perf"
label scrape = ""

abbrev pub Within : String → List String → Type 0
Within x [] = ⊥
Within x (y ∷ ys) = (x ≡ y) ⊎ Within x ys

-- The source is a collector that has been run.
abbrev pub Collected : List String → Source → Type 0
Collected ran w = (w ≢ scrape) × Within (label w) ran

All-map :
    {A : Type 0} {P Q : A → Type 0} (h : (a : A) → P a → Q a) (xs : List A) → All P xs → All Q xs
All-map h [] p = tt
All-map h (x ∷ xs) p = (h x p.0, All-map h xs p.1)

All-of :
    {A B : Type 0} (f : A → B) (P : B → Type 0) (xs : List A)
    → All (λ a. P (f a)) xs
    → All P (map f xs)
All-of f P [] h = tt
All-of f P (x ∷ xs) h = (h.0, All-of f P xs h.1)

pub Among-All : (P : Desc → Type 0) (ds : List Desc) (d : Desc) → All P ds → Among ds d → P d
Among-All P [] d h a = absurd a
Among-All P (e ∷ ds) d h (inl same) = rw same h.0
Among-All P (e ∷ ds) d h (inr later) = Among-All P ds d h.1 later

not-Within : (x : String) (ran : List String) → All (λ y. x ≢ y) ran → Within x ran → ⊥
not-Within x [] h w = w
not-Within x (y ∷ ran) h (inl same) = h.0 same
not-Within x (y ∷ ran) h (inr later) = not-Within x ran h.1 later

-- The descriptors of a source that has not been run are new.
fresh :
    (w : Source) (ran names : List String)
    → (Collected ran w → ⊥)
    → All (λ n. Collected ran (owner n)) names
    → All (λ d. All (λ n. d.name ≢ n) names) (table w)
fresh w ran names unseen h =
    All-map
      (λ d own.
        All-map
          (λ n seen same. let e : owner n ≡ w = ap owner (sym same) ∙ own in unseen (rw e at seen))
          names h)
      (table w) (owner-table w)

module _ {W R : Type 0} (env : Env W R) (law : TakesNew env.reg) where
  -- Every descriptor that is registered is of a collector that has been run.
  abbrev pub Tidy : List String → R → Type 0
  Tidy ran r = All (λ n. Collected ran (owner n)) (law.names r)

  pub later : (ran : List String) (name : String) (r : R) → Tidy ran r → Tidy (name ∷ ran) r
  later ran name r h = All-map (λ n seen. (seen.0, inr seen.1)) (law.names r) h

  described :
      (w : Source) (ms : List (Metric W))
      → AreOf w ms
      → All (Among (table w)) (describe (new_const_collector ms))
  unfolding describe new_const_collector AreOf
  described w ms h = All-of (λ m. m.desc) (Among (table w)) ms h

  owned :
      (w : Source) (ds : List Desc)
      → All (Among (table w)) ds
      → All (λ n. owner n ≡ w) (map (λ d. d.name) ds)
  owned w ds h =
      All-of (λ d. d.name) (λ n. owner n ≡ w) ds
        (All-map (λ d a. Among-All (λ e. owner e.name ≡ w) (table w) d (owner-table w) a) ds h)

  -- The registry takes what a collector registers that has not been run.
  pub Takes-Tidy :
      (w : Source) (ran : List String) (r : R)
      → w ≢ scrape
      → All (λ y. label w ≢ y) ran
      → Tidy ran r
      → Takes env r (Tidy (label w ∷ ran)) w
  Takes-Tidy w ran r proper unseen tidy ms h =
      let ds = describe (new_const_collector ms) in
      let (r', taken, names) =
        law.takes (new_const_collector ms) r (table w) (table-valid w) (described w ms h)
          (fresh w ran (law.names r) (λ c. not-Within (label w) ran unseen c.1) tidy) in
      let own : All (λ n. Collected (label w ∷ ran) (owner n)) (map (λ d. d.name) ds) =
        All-map (λ n e. (λ s. proper (sym e ∙ s), inl (ap label e))) (map (λ d. d.name) ds)
          (owned w ds (described w ms h)) in
      (
        r',
        taken,
        rw names (
            All-append (λ n. Collected (label w ∷ ran) (owner n)) (law.names r)
              (map (λ d. d.name) ds) (later ran (label w) r tidy) own),
      )

  pub Takes-last : (ran : List String) (r : R) → Tidy ran r → Takes env r (λ _. Unit {0}) scrape
  Takes-last ran r tidy ms h =
      let (r', taken, names) =
        law.takes (new_const_collector ms) r (table scrape) (table-valid scrape)
          (described scrape ms h) (fresh scrape ran (law.names r) (λ c. c.0 refl) tidy) in
      (r', taken, tt)

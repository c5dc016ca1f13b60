-- ===== src/Collector/Probe/Distinct/Requests.antt =====
-- `Probe` (probe.go) with names that differ.
use prometheus_obs_exporter.Prelude.{
  ℕ, suc, ◌≡◌, ◌≢◌, refl, sym, ap, ◌⊎◌, ◌↔◌, inl, inr, String, true, Option, none, some, List, [],
  ◌∷◌, ◌++◌, All, Bool-cases, str_eq, if◌then◌else◌,
}
use text.Mathlib.TextEquality.{eq_iff}
use prometheus_obs_exporter.Obsclient.Client.{Session}
use prometheus_obs_exporter.Obsclient.Net.{Error}
use prometheus_obs_exporter.Collector.Metrics.{Metric}
use prometheus_obs_exporter.Collector.Run.{
  Env, Run, Settings, Act, done, panic, Func, return, new_run,
}
use prometheus_obs_exporter.Collector.Run.Sure.{Must, Must-bind}
use prometheus_obs_exporter.Collector.Series.{HasDistinctNames}
use prometheus_obs_exporter.Collector.Cluster.{collect_cluster}
use prometheus_obs_exporter.Collector.Replication.{collect_replication}
use prometheus_obs_exporter.Collector.Node.{collect_node}
use prometheus_obs_exporter.Collector.Metering.{collect_metering}
use prometheus_obs_exporter.Collector.Perf.{collect_perf}
use prometheus_obs_exporter.Collector.Probe.{
  registry, judged, run_collector, run_collectors, probe, success_metric, duration_metric,
  scrape_success_desc, scrape_duration_desc,
}
use prometheus_obs_exporter.Collector.Probe.Verdicts.{made, run_collectors-Verdicts}
use prometheus_obs_exporter.Collector.Probe.Tables.{
  Source, cluster, replication, node, metering, perf, scrape,
}
use prometheus_obs_exporter.Collector.Probe.Described.{AreOf, nil-AreOf, append-AreOf, cons-AreOf}
use prometheus_obs_exporter.Collector.Probe.Safe.{
  Takes, Ended, register-Ended, cluster-Ended, replication-Ended, node-Ended,
}
use prometheus_obs_exporter.Collector.Probe.Safe.Fans.{metering-Ended, perf-Ended}
use prometheus_obs_exporter.Collector.Probe.Distinct.{
  TakesNew, label, Tidy, later, Takes-Tidy, Takes-last,
}

-- The collector of a source.
abbrev collector : {W R : Type 0} → Env W R → Source → Func R
collector env cluster = collect_cluster env
collector env replication = collect_replication env
collector env node = collect_node env
collector env metering = collect_metering env
collector env perf = collect_perf env
collector env scrape = return none

not_scrape : (w : Source) → label w ≢ "" → w ≢ scrape
not_scrape w h e = h (ap label e)

named : (name known : String) → str_eq name known ≡ true → name ≡ known
named name known h = (eq_iff name known).0 h

module _ {W R : Type 0} (env : Env W R) where
  -- The collector that a name chooses, if there is one.
  Chosen : String → Option (Func R) → Type 0
  Chosen name o =
      (o ≡ none) ⊎ ((w : Source) × (w ≢ scrape) × (name ≡ label w) × (o ≡ some (collector env w)))

  if-Chosen :
      (name : String) (w : Source) (o : Option (Func R))
      → w ≢ scrape
      → Chosen name o
      → Chosen name (if str_eq name (label w) then some (collector env w) else o)
  unfolding Chosen
  if-Chosen name w o proper h = elim (Bool-cases (str_eq name (label w))) [
    | inl is ↦ rw is (inr (w, proper, named name (label w) is, refl))
    | inr is_not ↦ rw is_not h
  ]

  no_collector : (name : String) → Chosen name none
  unfolding Chosen
  no_collector name = inl refl

  registry-Chosen : (name : String) → Chosen name (registry env name)
  unfolding registry
  registry-Chosen name = if-Chosen name cluster _ (not_scrape cluster λ e. cc) (
      if-Chosen name replication _ (not_scrape replication λ e. cc) (
        if-Chosen name node _ (not_scrape node λ e. cc) (
          if-Chosen name metering _ (not_scrape metering λ e. cc)
            (if-Chosen name perf none (not_scrape perf λ e. cc) (no_collector name)))))

  collector-Ended :
      (w : Source) (T : R → Type 0) (run : Run R)
      → w ≢ scrape
      → T run.registry
      → Takes env run.registry T w
      → Must (Ended env run.registry T) (collector env w run)
  collector-Ended cluster T run proper same takes =
      cluster-Ended env run.registry T same run takes refl
  collector-Ended replication T run proper same takes =
      replication-Ended env run.registry T same run takes refl
  collector-Ended node T run proper same takes = node-Ended env run.registry T same run takes refl
  collector-Ended metering T run proper same takes =
      metering-Ended env run.registry T same run takes refl
  collector-Ended perf T run proper same takes = perf-Ended env run.registry T same run takes refl
  collector-Ended scrape T run proper same takes = absurd (proper refl)

  judged-Must :
      (T : R → Type 0) (name : String) (e : Option Error) (run : Run R)
      → T run.registry
      → Must (λ b run'. T run'.registry) (judged env name e run)
  unfolding judged
  judged-Must T name none run h = h
  judged-Must T name (some e) run h = h

  module _ (law : TakesNew env.reg) where
    run_collector-Must :
        (name : String) (ran : List String) (run : Run R)
        → Tidy env law ran run.registry
        → All (λ y. name ≢ y) ran
        → Must (λ b run'. Tidy env law (name ∷ ran) run'.registry) (run_collector env name run)
    unfolding run_collector Chosen
    run_collector-Must name ran run tidy unseen = elim (registry-Chosen name) [
      | inl unknown ↦ rw (unknown, run_collector) (later env law ran name run.registry tidy)
      | inr (w, proper, is, known) ↦
          let T : R → Type 0 = Tidy env law (name ∷ ran) in
          let unseen' : All (λ y. label w ≢ y) ran = rw is at unseen in
          let takes : Takes env run.registry T w =
            rw is (Takes-Tidy env law w ran run.registry proper unseen' tidy) in
          rw (known, run_collector)
            (Must-bind (Ended env run.registry T) (λ b run'. T run'.registry) (collector env w run)
              (judged env name)
              (collector-Ended w T run proper (later env law ran name run.registry tidy) takes)
              λ e run' h. judged-Must T name e run' h)
    ]

    -- None of the names has been run, nor stands in the list twice.
    abbrev Unseen : List String → List String → Type 0
    Unseen ran [] = Unit {0}
    Unseen ran (name ∷ names) = All (λ y. name ≢ y) ran × Unseen (name ∷ ran) names

    abbrev AllValid : List String → Type 0
    AllValid names = All (λ n. env.reg.valid_label n ≡ true) names

    run_collectors-Must :
        (i : ℕ) (names ran : List String) (ss ds : List (Metric W)) (run : Run R)
        → Unseen ran names
        → AllValid names
        → Tidy env law ran run.registry
        → AreOf scrape ss
        → AreOf scrape ds
        → Must (λ _ _. Unit {0}) (run_collectors env i names ss ds run)
    unfolding run_collectors
    run_collectors-Must i [] ran ss ds run unseen valid tidy s d =
        register-Ended env run.registry (λ _. Unit {0}) scrape (ss ++ ds) run
          (Takes-last env law ran run.registry tidy) (append-AreOf scrape ss ds s d) refl
    run_collectors-Must i (name ∷ names) ran ss ds run unseen valid tidy s d =
        Must-bind (λ b run'. Tidy env law (name ∷ ran) run'.registry) (λ _ _. Unit {0})
          (run_collector env name run) _ (run_collector-Must name ran run tidy unseen.0)
          λ b run' tidy'.
            rw
              (
                made env scrape_success_desc (if b then env.f.of_nat 1 else env.f.of_nat 0) name
                    run' valid.0,
                made env scrape_duration_desc (env.elapsed i) name run' valid.0,
              )
              (run_collectors-Must (suc i) names (name ∷ ran) (ss ++ success_metric env name b ∷ [])
                (ds ++ duration_metric env name i ∷ []) run' unseen.1 valid.1 tidy'
                (append-AreOf scrape ss _ s (
                  cons-AreOf scrape (success_metric env name b) [] (inl refl)
                    (nil-AreOf scrape [] refl)))
                (append-AreOf scrape ds _ d (
                  cons-AreOf scrape (duration_metric env name i) [] (inr (inl refl))
                    (nil-AreOf scrape [] refl))))

    Unseen-from :
        (ran names : List String)
        → HasDistinctNames (λ n. n) names
        → All (λ name. All (λ y. name ≢ y) ran) names
        → Unseen ran names
    Unseen-from ran [] h k = tt
    Unseen-from ran (name ∷ names) h k =
        (k.0, Unseen-from (name ∷ ran) names h.1 (both names h.0 k.1))
      where
        both :
            (rest : List String)
            → All (λ y. name ≢ y) rest
            → All (λ n. All (λ y. n ≢ y) ran) rest
            → All (λ n. All (λ y. n ≢ y) (name ∷ ran)) rest
        both [] h k = tt
        both (n ∷ rest) h k = ((λ e. h.0 (sym e), k.0), both rest h.1 k.1)

    nothing_run : (names : List String) → All (λ name. All (λ y. name ≢ y) []) names
    nothing_run [] = tt
    nothing_run (name ∷ names) = (tt, nothing_run names)

    ends : (a : Act R (Unit {0})) → Must (λ _ _. Unit {0}) a → (end : Run R) × (a ≡ done tt end)
    ends (done tt run) h = (run, refl)
    ends (panic run) h = absurd h

    -- A request whose names differ ends without a panic exactly when all of them are valid UTF-8,
    -- whatever the target answers, whichever collectors fail and whether the names are known: with a
    -- registry that takes descriptors of new and valid names, no `MustRegister` of the request panics,
    -- and `MustNewConstMetric` panics for a name that cannot be the value of a label.
    pub distinct_end_exactly :
        (s : Session) (settings : Settings) (names : List String)
        → HasDistinctNames (λ n. n) names
        → ((end : Run R) × (probe env s settings names ≡ done tt end))
          ↔ All (λ n. env.reg.valid_label n ≡ true) names
    unfolding probe new_run
    distinct_end_exactly s settings names distinct =
        let nothing : Tidy env law [] env.reg.new_registry = rw law.none_at_first tt in
        (
          λ ended.
              (run_collectors-Verdicts env 0 names [] [] (new_run env s settings) ended.0
                ended.1).labelled,
          λ valid. ends (probe env s settings names) (
              run_collectors-Must 0 names [] [] [] (new_run env s settings)
                (Unseen-from [] names distinct (nothing_run names)) valid nothing
                (nil-AreOf scrape [] refl) (nil-AreOf scrape [] refl)),
        )

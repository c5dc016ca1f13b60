-- ===== src/Examples/Strict.antt =====
-- A registry that refuses a descriptor which it has, and requests that name collectors once and
-- twice.
use prometheus_obs_exporter.Prelude.{
  ℕ, String, ◌≡◌, ◌≢◌, ◌↔◌, refl, Bool, true, false, ◌||◌, Option, none, some, List, [], ◌∷◌, ◌++◌,
  str_eq, if◌then◌else◌, Bool-cases, inl, inr, arith, ap, map, sym, All,
}
use text.Mathlib.TextPositions.{eq_refl}
use prometheus_obs_exporter.Collector.Metrics.{
  Desc, Metric, ConstCollector, describe, new_const_collector, Registries,
}
use prometheus_obs_exporter.Obsclient.Apis.{get_local_zone, get_nodes}
use prometheus_obs_exporter.Obsclient.Auth.{
  call_authenticated_json, ensure_logged_in, get_authenticated_json, read_answer,
  request_with_token, settle,
}
use prometheus_obs_exporter.Collector.Run.{
  Env, Run, Act, done, panic, new_run, local_zone, nodes, must_register,
}
use prometheus_obs_exporter.Collector.Cluster.{collect_cluster, with_zone, zone_metrics}
use prometheus_obs_exporter.Obsclient.FlexNumber.{float64}
use prometheus_obs_exporter.Obsclient.Types.{first_space, first_count}
use prometheus_obs_exporter.Collector.Probe.{run_collector, registry, judged, probe}
use prometheus_obs_exporter.Collector.Probe.Tables.{Among}
use prometheus_obs_exporter.Collector.Probe.Distinct.{TakesNew, Among-All}
use prometheus_obs_exporter.Collector.Probe.Distinct.Requests.{distinct_end_exactly}
use prometheus_obs_exporter.Collector.Series.{HasDistinctNames, not_same}
use text.Mathlib.TextEquality.{eq_iff}
use prometheus_obs_exporter.Collector.Probe.Twice.{RefusesTwice, cluster_twice_panics}
use prometheus_obs_exporter.Exporter.Handler.{settings_of}
use prometheus_obs_exporter.Examples.Target.{session_with}
use prometheus_obs_exporter.Examples.World.{env, is_plain, exporter_config}

abbrev Held : Type 0
Held = List (Metric ℕ)

abbrev has_desc : String → Held → Bool
has_desc name [] = false
has_desc name (m ∷ ms) = str_eq m.desc.name name || has_desc name ms

abbrev known : Held → Held → Bool
known [] held = false
known (m ∷ ms) held = has_desc m.desc.name held || known ms held

abbrev register_new : ConstCollector ℕ → Held → Option Held
register_new c held = if known c.metrics held then none else some (held ++ c.metrics)

abbrev strict : Registries ℕ Held
strict = record {
  new_registry = [];
  register = register_new;
  gather = λ held. some held;
  valid_label = is_plain;
}

has_desc-append : (m : Metric ℕ) (held ms : Held) → has_desc m.desc.name (held ++ m ∷ ms) ≡ true
has_desc-append m [] ms = rw (eq_refl m.desc.name) refl
has_desc-append m (h ∷ held) ms = ground (arith, has_desc-append m held ms)

known-append : (ms held : Held) → ms ≢ [] → known ms (held ++ ms) ≡ true
known-append [] held n = absurd (n refl)
known-append (m ∷ ms) held n = rw (has_desc-append m held ms) refl

strict-RefusesTwice : RefusesTwice strict
unfolding describe
strict-RefusesTwice = record {
  refuses = λ c held held' e n. elim (Bool-cases (known c.metrics held)) [
    | inl refused ↦ absurd (let p : none ≡ some held' = rw refused at e in cc)
    | inr fresh ↦
        let p : some (held ++ c.metrics) ≡ some held' = rw fresh at e in
        let q : held ++ c.metrics ≡ held' = cc in
        let some_metrics : c.metrics ≢ [] = λ none_left. n (ap (map (λ m. m.desc)) none_left) in
        let full : known c.metrics held' ≡ true =
          rw (← q) (known-append c.metrics held some_metrics) in
        rw full refl
  ];
}

abbrev held_names : Held → List String
held_names held = map (λ m. m.desc.name) held

not_has :
    (name : String) (held : Held)
    → All (λ n. name ≢ n) (held_names held)
    → has_desc name held ≡ false
not_has name [] h = refl
not_has name (m ∷ held) h = elim (Bool-cases (str_eq m.desc.name name)) [
  | inl is ↦ absurd (h.0 (sym ((eq_iff m.desc.name name).0 is)))
  | inr other ↦ rw other (not_has name held h.1)
]

not_known :
    (ds : List Desc) (ms held : Held)
    → All (Among ds) (map (λ m. m.desc) ms)
    → All (λ d. All (λ n. d.name ≢ n) (held_names held)) ds
    → known ms held ≡ false
not_known ds [] held h new = refl
not_known ds (m ∷ ms) held h new =
    let own : All (λ n. m.desc.name ≢ n) (held_names held) =
      Among-All (λ d. All (λ n. d.name ≢ n) (held_names held)) ds m.desc new h.0 in
    rw (not_has m.desc.name held own) (not_known ds ms held h.1 new)

held_names-append :
    (held ms : Held)
    → held_names (held ++ ms) ≡ held_names held ++ map (λ d. d.name) (map (λ m. m.desc) ms)
held_names-append [] [] = refl
held_names-append [] (m ∷ ms) = ap (λ l. m.desc.name ∷ l) (held_names-append [] ms)
held_names-append (h ∷ held) ms = ap (λ l. h.desc.name ∷ l) (held_names-append held ms)

strict-TakesNew : TakesNew strict
unfolding describe
strict-TakesNew = record {
  names = held_names;
  none_at_first = refl;
  takes = λ c held ds good among new. (
    held ++ c.metrics,
    rw (not_known ds c.metrics held among new) refl,
    held_names-append held c.metrics,
  );
}

abbrev strict_env : Env ℕ Held
strict_env = record env { reg = strict }

abbrev start : Run Held
start = new_run strict_env (session_with "") (settings_of exporter_config)

abbrev state_of : {A : Type 0} → Act Held A → Run Held
state_of (done a run) = run
state_of (panic run) = run

abbrev cluster_run : Run Held
cluster_run = state_of (run_collector strict_env "cluster" start)

cluster_ends : run_collector strict_env "cluster" start ≡ done true cluster_run
unfolding run_collector registry collect_cluster local_zone new_run get_local_zone
    get_authenticated_json call_authenticated_json ensure_logged_in request_with_token settle
    read_answer with_zone nodes get_nodes must_register judged new_const_collector zone_metrics
    float64 first_space first_count
cluster_ends = refl

cluster_twice_panics_example : run_collector strict_env "cluster" cluster_run ≡ panic cluster_run
cluster_twice_panics_example =
    cluster_twice_panics strict_env strict-RefusesTwice start cluster_run cluster_ends

abbrev asked_names : List String
asked_names = "cluster" ∷ "perf" ∷ "nothing" ∷ []

asked_distinct : HasDistinctNames (λ n. n) asked_names
asked_distinct = (
  (not_same "cluster" "perf" refl, (not_same "cluster" "nothing" refl, tt)),
  ((not_same "perf" "nothing" refl, tt), (tt, tt)),
)

-- The last name is not valid UTF-8.
abbrev broken_names : List String
broken_names = "cluster" ∷ "ÿ" ∷ []

broken_distinct : HasDistinctNames (λ n. n) broken_names
broken_distinct = ((not_same "cluster" "ÿ" refl, tt), (tt, tt))

distinct_end_exactly_example :
    ((end : Run Held) × (probe strict_env
          (session_with "")
          (settings_of exporter_config)
          asked_names
        ≡ done tt end))
    ↔ All (λ n. is_plain n ≡ true) asked_names
distinct_end_exactly_example =
    distinct_end_exactly strict_env strict-TakesNew (session_with "") (settings_of exporter_config)
      asked_names asked_distinct

-- A request with a name that is not valid UTF-8 panics.
broken_name_panics :
    (end : Run Held)
    → probe strict_env (session_with "") (settings_of exporter_config) broken_names ≡ done tt end
    → ⊥
broken_name_panics end e =
    let valid =
      (distinct_end_exactly strict_env strict-TakesNew (session_with "")
          (settings_of exporter_config) broken_names broken_distinct).0
        (end, e) in
    cc

-- ===== src/Collector/Metering/Orders.antt =====
-- The orders in which the goroutines of metering.go run, and their interleavings.
use prometheus_obs_exporter.Prelude.{
  ℕ, suc, map, refl, ap, ◌∙◌, ◌≡◌, sym, Option, none, some, List, [], ◌∷◌, ◌++◌, get_elem?,
  concat_map, Perm, Perm-concat_map, Option-cases, inl, inr,
}
use mathlib.Core.List.Perm
use mathlib.Core.List.{append-nil, append_assoc}
use prometheus_obs_exporter.Obsclient.Client.{Client}
use prometheus_obs_exporter.Obsclient.Auth.Steady.{Steady, HasToken}
use prometheus_obs_exporter.Obsclient.Types.{NamespaceRef}
use prometheus_obs_exporter.Collector.Metrics.{Metric}
use prometheus_obs_exporter.Collector.Run.{Env, Run, done}
use prometheus_obs_exporter.Goroutines.{System, launched, Steps, AllOver}
use prometheus_obs_exporter.Goroutines.Settled.{AllSettled, arrived-Perm}
use prometheus_obs_exporter.Collector.Run.Steady.{Yields, return-Yields, bind-Yields}
use prometheus_obs_exporter.Collector.Run.Tasks.Settling.{KeepsClient}
use prometheus_obs_exporter.Collector.Metering.{metering_namespace_metrics, fan_out}
use prometheus_obs_exporter.Collector.Metering.Tasks.{
  metering_tasks, namespace_task-IsSteady, namespace-Yields,
}

module _ {W R : Type 0} (env : Env W R) (steady : Steady env.net) (c : Client)
    (held : HasToken c) where
  -- What the goroutine at a position gives.
  given_at : Option NamespaceRef → List (Metric W)
  given_at none = []
  given_at (some ns) = (namespace_task-IsSteady env steady c held ns.name).0

  abbrev given : List NamespaceRef → ℕ → List (Metric W)
  given namespaces i = given_at (get_elem? namespaces i)

  fan_out-Yields :
      (namespaces : List NamespaceRef) (order : List ℕ) (metrics : List (Metric W))
      → Yields {R = R} c
          (fan_out env namespaces order metrics)
          (metrics ++ concat_map (given namespaces) order)
  unfolding fan_out given_at
  fan_out-Yields namespaces [] metrics = rw (append-nil metrics) (return-Yields c metrics)
  fan_out-Yields namespaces (i ∷ order) metrics = elim (Option-cases (get_elem? namespaces i)) [
    | inl out ↦ rw (out, fan_out, given_at) (fan_out-Yields namespaces order metrics)
    | inr (ns, there) ↦
        let own = namespace_task-IsSteady env steady c held ns.name in
        rw
          (
            there,
            fan_out,
            given_at,
            sym (append_assoc metrics own.0 (concat_map (given namespaces) order)),
          )
          (bind-Yields c (metering_namespace_metrics env ns.name)
            (λ ms. fan_out env namespaces order (metrics ++ ms)) own.0 _
            (namespace-Yields env steady c held ns.name)
            (fan_out-Yields namespaces order (metrics ++ own.0)))
  ]

  -- The positions of a list.
  abbrev pub positions : List NamespaceRef → List ℕ
  positions [] = []
  positions (ns ∷ namespaces) = 0 ∷ map suc (positions namespaces)

  abbrev own_of : List NamespaceRef → List (List (Metric W))
  own_of [] = []
  own_of (ns ∷ namespaces) =
      (namespace_task-IsSteady env steady c held ns.name).0 ∷ own_of namespaces

  tasks_settle :
      (namespaces : List NamespaceRef)
      → AllSettled (KeepsClient R c) (own_of namespaces) (metering_tasks env namespaces)
  tasks_settle [] = tt
  tasks_settle (ns ∷ namespaces) =
      ((namespace_task-IsSteady env steady c held ns.name).1, tasks_settle namespaces)

  shifted :
      (ns : NamespaceRef) (namespaces : List NamespaceRef) (ps : List ℕ)
      → concat_map (given (ns ∷ namespaces)) (map suc ps) ≡ concat_map (given namespaces) ps
  shifted ns namespaces [] = refl
  shifted ns namespaces (i ∷ ps) = ap (λ ms. given namespaces i ++ ms) (shifted ns namespaces ps)

  own-given :
      (namespaces : List NamespaceRef)
      → concat_map (λ ms. ms) (own_of namespaces)
        ≡ concat_map (given namespaces) (positions namespaces)
  unfolding given_at
  own-given [] = refl
  own-given (ns ∷ namespaces) =
      ap (λ ms. given_at (some ns) ++ ms)
        (own-given namespaces ∙ sym (shifted ns namespaces (positions namespaces)))

  -- When the target answers a request in the same way whatever was sent before, and never with a
  -- 401, and the client holds a token, so that no call logs in, the goroutines of the namespaces may
  -- interleave in any way, between the requests of a goroutine as well, under a semaphore of any
  -- capacity: once all have ended, what they have appended are, in some order, the metrics of
  -- `fan_out`, which runs each in one piece, in any order of the namespaces, and which ends without
  -- a panic.
  pub interleaved-Perm :
      (size : ℕ) (namespaces : List NamespaceRef) (order : List ℕ) (run : Run R)
      (q : System (Run R) (List (Metric W)))
      → run.session.client ≡ c
      → Perm order (positions namespaces)
      → Steps size (launched (metering_tasks env namespaces) run) q
      → AllOver q
      → (ms : List (Metric W)) × (end : Run R) × (fan_out env namespaces order [] run ≡ done ms end)
        × Perm (concat_map (λ own. own) q.arrived) ms
  interleaved-Perm size namespaces order run q h p r all =
      let (end, same, _) = fan_out-Yields namespaces order [] run h in
      let arrived : Perm q.arrived (own_of namespaces) =
        arrived-Perm (KeepsClient R c) size (own_of namespaces) (metering_tasks env namespaces) run
          q (tasks_settle namespaces) h r all in
      let own : Perm (concat_map (λ ms. ms) q.arrived)
          (concat_map (given namespaces) (positions namespaces)) =
        rw (sym (own-given namespaces)) (Perm-concat_map (λ ms. ms) arrived) in
      (
        concat_map (given namespaces) order,
        end,
        same,
        Perm.trans own (Perm.symm (Perm-concat_map (given namespaces) p)),
      )

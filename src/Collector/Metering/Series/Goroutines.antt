-- ===== src/Collector/Metering/Series/Goroutines.antt =====
-- The series that the goroutines of metering.go gather.
use prometheus_obs_exporter.Prelude.{
  ℕ, zero, suc, ◌≡◌, ◌≢◌, refl, sym, ap, ◌∙◌, some, List, [], ◌∷◌, ◌++◌, get_elem?, All, concat_map,
  Option-cases, inl, inr,
}
use mathlib.Core.List.{append-nil, append_assoc}
use prometheus_obs_exporter.Obsclient.Types.{NamespaceRef}
use prometheus_obs_exporter.Collector.Metrics.{Metric}
use prometheus_obs_exporter.Collector.Run.{Env, Run, Act, done}
use prometheus_obs_exporter.Collector.Series.{
  HasDistinctSeries, HasLabel, HasDistinctNames, items-HasDistinctSeries,
}
use prometheus_obs_exporter.Collector.Metering.{fan_out}
use prometheus_obs_exporter.Collector.Metering.Series.{Gives, namespace-Gives}

All-get_elem? :
    {A : Type 0} (P : A → Type 0) (xs : List A) (i : ℕ) (x : A)
    → All P xs
    → get_elem? xs i ≡ some x
    → P x
All-get_elem? P [] i x h e = cc
All-get_elem? P (y ∷ xs) zero x h e = let same : y ≡ x = cc in rw (sym same) h.0
All-get_elem? P (y ∷ xs) (suc i) x h e = All-get_elem? P xs i x h.1 e

names_at :
    (xs : List NamespaceRef) (i j : ℕ) (x y : NamespaceRef)
    → HasDistinctNames (λ n. n.name) xs
    → i ≢ j
    → get_elem? xs i ≡ some x
    → get_elem? xs j ≡ some y
    → x.name ≢ y.name
names_at [] i j x y h ne at_i at_j = cc
names_at (n ∷ xs) zero zero x y h ne at_i at_j = absurd (ne refl)
names_at (n ∷ xs) zero (suc j) x y h ne at_i at_j =
    let same : n ≡ x = cc in rw (sym same) (All-get_elem? (λ m. n.name ≢ m.name) xs j y h.0 at_j)
names_at (n ∷ xs) (suc i) zero x y h ne at_i at_j =
    let same : n ≡ y = cc in
    let other : n.name ≢ x.name = All-get_elem? (λ m. n.name ≢ m.name) xs i x h.0 at_i in
    λ e. other (ap (λ m. m.name) same ∙ sym e)
names_at (n ∷ xs) (suc i) (suc j) x y h ne at_i at_j =
    names_at xs i j x y h.1 (λ e. ne (ap suc e)) at_i at_j

-- What the goroutine at a position has appended.
record Piece (W : Type 0) (namespaces : List NamespaceRef) : Type 0 where
  position : ℕ
  namespace : NamespaceRef
  stands : get_elem? namespaces position ≡ some namespace
  metrics : List (Metric W)
  label : HasLabel namespace.name metrics
  distinct : HasDistinctSeries metrics

module _ {W R : Type 0} (env : Env W R) (namespaces : List NamespaceRef) where
  -- The pieces of goroutines that ran in an order.
  record Ran (order : List ℕ) (acc : List (Metric W)) (m : Act R (List (Metric W))) : Type 0 where
    pieces : List (Piece W namespaces)
    end : Run R
    result : m ≡ done (acc ++ concat_map (λ p. p.metrics) pieces) end
    apart : (i : ℕ) → All (λ j. i ≢ j) order → All (λ p. i ≢ p.position) pieces
    once : HasDistinctNames (λ i. i) order → HasDistinctNames (λ p. p.position) pieces

  fan_out-Ran :
      (order : List ℕ) (acc : List (Metric W)) (run : Run R)
      → Ran order acc (fan_out env namespaces order acc run)
  unfolding fan_out Gives
  fan_out-Ran [] acc run = record {
    pieces = [];
    end = run;
    result = ap (λ ms. done ms run) (sym (append-nil acc));
    apart = λ i h. tt;
    once = λ h. tt;
  }
  fan_out-Ran (i ∷ order) acc run = elim (Option-cases (get_elem? namespaces i)) [
    | inl out ↦
        let rest = fan_out-Ran order acc run in
        record {
          pieces = rest.pieces;
          end = rest.end;
          result = rw (out, fan_out) rest.result;
          apart = λ j h. rest.apart j h.1;
          once = λ h. rest.once h.1;
        }
    | inr (ns, there) ↦
        let (own, mid, same, own_series) = namespace-Gives env ns.name run in
        let rest = fan_out-Ran order (acc ++ own) mid in
        record {
          pieces =
              record {
                position = i;
                namespace = ns;
                stands = there;
                metrics = own;
                label = own_series.0;
                distinct = own_series.1;
              }
              ∷ rest.pieces;
          end = rest.end;
          result =
              rw
                (
                  there,
                  fan_out,
                  same,
                  sym (append_assoc acc own (concat_map (λ p. p.metrics) rest.pieces)),
                )
                rest.result;
          apart = λ j h. (h.0, rest.apart j h.1);
          once = λ h. (rest.apart i h.0, rest.once h.1);
        }
  ]

  names_apart :
      HasDistinctNames (λ n. n.name) namespaces
      → (p : Piece W namespaces) (ps : List (Piece W namespaces))
      → All (λ q. p.position ≢ q.position) ps
      → All (λ q. p.namespace.name ≢ q.namespace.name) ps
  names_apart h p [] a = tt
  names_apart h p (q ∷ ps) a = (
    names_at namespaces p.position q.position p.namespace q.namespace h a.0 p.stands q.stands,
    names_apart h p ps a.1,
  )

  names_of_positions :
      HasDistinctNames (λ n. n.name) namespaces
      → (ps : List (Piece W namespaces)) → HasDistinctNames (λ p. p.position) ps
      → HasDistinctNames (λ p. p.namespace.name) ps
  names_of_positions h [] a = tt
  names_of_positions h (p ∷ ps) a = (names_apart h p ps a.0, names_of_positions h ps a.1)

  -- When no two namespaces have one name and no goroutine runs twice, the goroutines of metering end
  -- without a panic, and the metrics that they have gathered belong to different series, whatever the
  -- target answers and in whatever order they run.
  pub fan_out-HasDistinctSeries :
      (order : List ℕ) (run : Run R)
      → HasDistinctNames (λ n. n.name) namespaces
      → HasDistinctNames (λ i. i) order
      → (ms : List (Metric W)) × (end : Run R) × (fan_out env namespaces order [] run ≡ done ms end)
        × HasDistinctSeries ms
  fan_out-HasDistinctSeries order run names once =
      let ran = fan_out-Ran order [] run in
      (
        concat_map (λ p. p.metrics) ran.pieces,
        ran.end,
        ran.result,
        items-HasDistinctSeries (λ p. p.namespace.name) (λ p. p.metrics) ran.pieces (λ p. p.label)
            (λ p. p.distinct) (names_of_positions names ran.pieces (ran.once once)),
      )

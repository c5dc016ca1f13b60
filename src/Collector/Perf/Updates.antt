-- ===== src/Collector/Perf/Updates.antt =====
-- The updates of the variables that the goroutines of perf.go share.
use prometheus_obs_exporter.Prelude.{
  ◌≡◌, refl, sym, ◌∙◌, ap, Bool, Option, none, some, List, [], ◌∷◌, ◌++◌, map, concat_map, Perm,
  Perm-concat_map, is_some, true, false, ◌||◌, arith,
}
use mathlib.Core.List.{append-nil, append_assoc}
use mathlib.Core.List.Perm
use prometheus_obs_exporter.Obsclient.Net.{Error}
use prometheus_obs_exporter.Collector.Metrics.{Metric}
use prometheus_obs_exporter.Collector.Perf.{Gathered}

-- One critical section of a goroutine, on `metrics` or on `firstErr`.
pub data Update (W : Type 0) : Type 0 where
  added : Metric W → Update W
  broken : Error → Update W

-- The variables behind the updates: the first error is kept.
abbrev pub update : {W : Type 0} → Update W → Gathered W → Gathered W
update (added m) g = record g { metrics = g.metrics ++ m ∷ [] }
update (broken e) g = record g { first_err = elim g.first_err [ none ↦ some e | some d ↦ some d ] }

unfoldable pub gather : {W : Type 0} → List (Update W) → Gathered W → Gathered W
gather [] g = g
gather (u ∷ us) g = gather us (update u g)

abbrev is_cons : {A : Type 0} → List A → Bool
is_cons [] = false
is_cons (x ∷ xs) = true

is_cons-append : {A : Type 0} (xs ys : List A) → is_cons (xs ++ ys) ≡ (is_cons xs || is_cons ys)
is_cons-append [] ys = refl
is_cons-append (x ∷ xs) ys = refl

is_cons-Perm : {A : Type 0} (xs ys : List A) → Perm xs ys → is_cons xs ≡ is_cons ys
is_cons-Perm [] [] p = refl
is_cons-Perm [] (y ∷ ys) p = absurd (let e : [] ≡ y ∷ ys = Perm.nil-eq p in cc)
is_cons-Perm (x ∷ xs) [] p = absurd (let e : x ∷ xs ≡ [] = Perm.eq-nil p in cc)
is_cons-Perm (x ∷ xs) (y ∷ ys) p = refl

or-false : (b : Bool) → (b || false) ≡ b
or-false b = ground arith

or-true : (b : Bool) → (b || true) ≡ true
or-true b = ground arith

or_assoc : (a b c : Bool) → ((a || b) || c) ≡ (a || (b || c))
or_assoc a b c = ground arith

kept_error :
    (o : Option Error) (e : Error) → is_some (elim o [ none ↦ some e | some d ↦ some d ]) ≡ true
kept_error none e = refl
kept_error (some d) e = refl

module _ {W : Type 0} where
  pub gather-append :
      (us vs : List (Update W)) (g : Gathered W) → gather (us ++ vs) g ≡ gather vs (gather us g)
  unfolding gather
  gather-append [] vs g = refl
  gather-append (u ∷ us) vs g = gather-append us vs (update u g)

  pub gather-added :
      (ms : List (Metric W)) (g : Gathered W)
      → gather (map (λ m. added m) ms) g ≡ record g { metrics = g.metrics ++ ms }
  unfolding gather
  gather-added [] g = ap (λ l. record g { metrics = l }) (sym (append-nil g.metrics))
  gather-added (m ∷ ms) g =
      gather-added ms (update (added m) g)
      ∙ ap (λ l. record g { metrics = l }) (append_assoc g.metrics (m ∷ []) ms)

  metrics_of : Update W → List (Metric W)
  metrics_of (added m) = m ∷ []
  metrics_of (broken e) = []

  errors_of : Update W → List Error
  errors_of (added m) = []
  errors_of (broken e) = e ∷ []

  update-metrics :
      (u : Update W) (g : Gathered W) → (update u g).metrics ≡ g.metrics ++ metrics_of u
  unfolding metrics_of
  update-metrics (added m) g = refl
  update-metrics (broken e) g = sym (append-nil g.metrics)

  update-failed :
      (u : Update W) (g : Gathered W)
      → is_some (update u g).first_err ≡ (is_some g.first_err || is_cons (errors_of u))
  unfolding errors_of
  update-failed (added m) g = sym (or-false (is_some g.first_err))
  update-failed (broken e) g = kept_error g.first_err e ∙ sym (or-true (is_some g.first_err))

  gather-metrics :
      (us : List (Update W)) (g : Gathered W)
      → (gather us g).metrics ≡ g.metrics ++ concat_map metrics_of us
  unfolding gather
  gather-metrics [] g = sym (append-nil g.metrics)
  gather-metrics (u ∷ us) g =
      rw (gather-metrics us (update u g), update-metrics u g)
        (append_assoc g.metrics (metrics_of u) _)

  gather-failed :
      (us : List (Update W)) (g : Gathered W)
      → is_some (gather us g).first_err ≡ (is_some g.first_err || is_cons (concat_map errors_of us))
  unfolding gather
  gather-failed [] g = sym (or-false (is_some g.first_err))
  gather-failed (u ∷ us) g =
      rw
        (
          gather-failed us (update u g),
          update-failed u g,
          is_cons-append (errors_of u) (concat_map errors_of us),
        )
        (or_assoc (is_some g.first_err) (is_cons (errors_of u)) _)

  -- The same updates in two orders.
  pub gather-metrics_Perm :
      (us vs : List (Update W)) (g : Gathered W)
      → Perm us vs
      → Perm (gather us g).metrics (gather vs g).metrics
  gather-metrics_Perm us vs g p =
      rw (gather-metrics us g, gather-metrics vs g)
        (Perm.append_left g.metrics (Perm-concat_map metrics_of p))

  pub gather-failed_Perm :
      (us vs : List (Update W)) (g : Gathered W)
      → Perm us vs
      → is_some (gather us g).first_err ≡ is_some (gather vs g).first_err
  gather-failed_Perm us vs g p =
      rw (gather-failed us g, gather-failed vs g)
        (ap (λ b. is_some g.first_err || b) (is_cons-Perm _ _ (Perm-concat_map errors_of p)))

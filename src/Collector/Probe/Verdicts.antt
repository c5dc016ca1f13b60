-- ===== src/Collector/Probe/Verdicts.antt =====
-- The metrics obs_scrape_success and obs_scrape_duration_seconds of a request.
use prometheus_obs_exporter.Prelude.{
  ℕ, suc, String, ◌≡◌, refl, Bool, true, false, Bool-cases, All, if◌then◌else◌, List, [], ◌∷◌, ◌++◌,
  ◌⊎◌, inl, inr,
}
use mathlib.Core.List.{append_assoc, append-nil}
use prometheus_obs_exporter.Obsclient.Client.{Session}
use prometheus_obs_exporter.Collector.Metrics.{Desc, Metric, gauge}
use prometheus_obs_exporter.Collector.Run.{
  Env, Run, Act, done, panic, Settings, new_run, must_register,
}
use prometheus_obs_exporter.Collector.Probe.{
  run_collector, run_collectors, probe, success_metric, duration_metric, must_new_const_metric,
  scrape_success_desc, scrape_duration_desc,
}

act-cases :
    {R A : Type 0} (m : Act R A)
    → ((a : A) × (run : Run R) × (m ≡ done a run)) ⊎ ((run : Run R) × (m ≡ panic run))
act-cases (done a run) = inl (a, run, refl)
act-cases (panic run) = inr (run, refl)

module _ {W R : Type 0} (env : Env W R) where
  -- The collectors of the names run one after another, each from the state that the one before left,
  -- and the list has the verdict on each.
  pub data Trail : List String → Run R → List Bool → Run R → Type 0 where
    ended : {run : Run R} → Trail [] run [] run
    ran :
        {name : String} {names : List String} {run next last : Run R} {b : Bool} {bs : List Bool}
        → run_collector env name run ≡ done b next
        → Trail names next bs last
        → Trail (name ∷ names) run (b ∷ bs) last

  abbrev pub success_metrics : List String → List Bool → List (Metric W)
  success_metrics (name ∷ names) (b ∷ bs) = success_metric env name b ∷ success_metrics names bs
  success_metrics names bs = []

  abbrev pub duration_metrics : ℕ → List String → List (Metric W)
  duration_metrics i [] = []
  duration_metrics i (name ∷ names) = duration_metric env name i ∷ duration_metrics (suc i) names

  -- The verdicts of a whole request, and what is registered last.
  pub record Verdicts (names : List String) (start : Run R) (ss ds : List (Metric W)) (i : ℕ)
      (end : Run R) : Type 0 where
    verdicts : List Bool
    last : Run R
    trail : Trail names start verdicts last
    pub labelled : All (λ n. env.reg.valid_label n ≡ true) names
    registered_last :
        must_register env
          ((ss ++ success_metrics names verdicts) ++ (ds ++ duration_metrics i names))
          last
        ≡ done tt end

  pub made :
      (d : Desc) (v : W) (name : String) (run : Run R)
      → env.reg.valid_label name ≡ true
      → must_new_const_metric env (gauge d v (name ∷ [])) run ≡ done (gauge d v (name ∷ [])) run
  unfolding must_new_const_metric
  made d v name run valid = simp valid refl

  refused_label :
      (d : Desc) (v : W) (name : String) (run : Run R)
      → env.reg.valid_label name ≡ false
      → must_new_const_metric env (gauge d v (name ∷ [])) run ≡ panic run
  unfolding must_new_const_metric
  refused_label d v name run invalid = simp invalid refl

  pub run_collectors-Verdicts :
      (i : ℕ) (names : List String) (ss ds : List (Metric W)) (start end : Run R)
      → run_collectors env i names ss ds start ≡ done tt end
      → Verdicts names start ss ds i end
  unfolding run_collectors
  run_collectors-Verdicts i [] ss ds start end e = record {
    verdicts = [];
    last = start;
    trail = ended;
    labelled = tt;
    registered_last = simp (append-nil ss, append-nil ds) e;
  }
  run_collectors-Verdicts i (name ∷ names) ss ds start end e =
      elim (act-cases (run_collector env name start)) [
        | inl (b, next, first) ↦ elim (Bool-cases (env.reg.valid_label name)) [
          | inr invalid ↦
              let refused =
                refused_label scrape_success_desc (if b then env.f.of_nat 1 else env.f.of_nat 0)
                  name next invalid in
              absurd (let p : panic next ≡ done tt end = rw (first, refused) at e in cc)
          | inl valid ↦
              let success =
                made scrape_success_desc (if b then env.f.of_nat 1 else env.f.of_nat 0) name next
                  valid in
              let duration = made scrape_duration_desc (env.elapsed i) name next valid in
              let v =
                run_collectors-Verdicts (suc i) names (ss ++ success_metric env name b ∷ [])
                  (ds ++ duration_metric env name i ∷ []) next end
                  (rw (first, success, duration) at e) in
              record {
                verdicts = b ∷ v.verdicts;
                last = v.last;
                trail = ran first v.trail;
                labelled = (valid, v.labelled);
                registered_last =
                    rw⁻¹
                      (
                        append_assoc ss (success_metric env name b ∷ [])
                            (success_metrics names v.verdicts),
                        append_assoc ds (duration_metric env name i ∷ [])
                            (duration_metrics (suc i) names),
                      )
                      v.registered_last;
              }
        ]
        | inr (run, panicked) ↦ absurd (let p : panic run ≡ done tt end = rw panicked at e in cc)
      ]

  -- A request that does not panic runs the collectors of the names in order, each from the state
  -- that the one before left, and registers last one metric of success for each name, in the order
  -- of the names and with the verdict on its own collector, and behind them one metric of duration
  -- for each name, whatever the collectors did.
  pub probe_verdicts :
      (s : Session) (settings : Settings) (names : List String) (end : Run R)
      → probe env s settings names ≡ done tt end
      → (bs : List Bool) × (last : Run R) × Trail names (new_run env s settings) bs last
        × (must_register env (success_metrics names bs ++ duration_metrics 0 names) last
            ≡ done tt end)
  unfolding probe
  probe_verdicts s settings names end e =
      let v = run_collectors-Verdicts 0 names [] [] (new_run env s settings) end e in
      (v.verdicts, v.last, v.trail, v.registered_last)

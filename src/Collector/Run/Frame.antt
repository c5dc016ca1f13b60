-- ===== src/Collector/Run/Frame.antt =====
-- The state of a request (probe.go) across the steps of a collector: what has been memoised, and the
-- registry.
use prometheus_obs_exporter.Prelude.{
  ◌≡◌, refl, Option, none, some, List, inl, inr, Option-cases, ◌∙◌, sym,
}
use prometheus_obs_exporter.Obsclient.Net.{Error}
use prometheus_obs_exporter.Obsclient.Client.{Session, M, Outcome, ok, err}
use prometheus_obs_exporter.Obsclient.Types.{LocalZone, Node}
use prometheus_obs_exporter.Obsclient.Apis.{get_local_zone, get_nodes}
use prometheus_obs_exporter.Collector.Metrics.{Metric, new_const_collector}
use prometheus_obs_exporter.Collector.Run.{
  Env, LogEntry, Run, Fetched, Act, done, panic, Scrape, return, continue_with, kept, call,
  log_entry, local_zone, nodes, must_register,
}

module _ {R : Type 0} where
  -- `Q` holds of the result and the state of a step that does not panic.
  abbrev pub Post : {A : Type 0} → (A → Run R → Type 0) → Act R A → Type 0
  Post Q (done a run) = Q a run
  Post Q (panic run) = Unit {0}

  pub Post-bind :
      {A B : Type 0} (Q : A → Run R → Type 0) (S : B → Run R → Type 0) (m : Act R A)
      (k : A → Scrape R B)
      → Post Q m
      → ((a : A) (run : Run R) → Q a run → Post S (k a run))
      → Post S (continue_with m k)
  Post-bind Q S (done a run) k h next = next a run h
  Post-bind Q S (panic run) k h next = tt

  -- From `start` on, an answer that was memoised is still there.
  pub record Memoised (start run : Run R) : Type 0 where
    pub zone : (r : Fetched LocalZone) → start.local_zone ≡ some r → run.local_zone ≡ some r
    pub listed : (r : Fetched (List Node)) → start.nodes ≡ some r → run.nodes ≡ some r

  -- And nothing has been registered.
  pub record Untouched (start run : Run R) : Type 0 where
    pub memo : Memoised start run
    pub same_registry : run.registry ≡ start.registry

  pub Untouched-refl : (run : Run R) → Untouched run run
  Untouched-refl run = record {
    memo = record { zone = λ r e. e; listed = λ r e. e };
    same_registry = refl;
  }

  module _ (start : Run R) where
    -- A step before `MustRegister`.
    abbrev pub Quiet : {A : Type 0} → Act R A → Type 0
    Quiet = Post (λ _. Untouched start)

    pub kept-Quiet :
        {A : Type 0} (run : Run R) (o : Outcome A) → Untouched start run → Quiet (kept run o)
    kept-Quiet run (ok a s) u = record {
      memo = record { zone = u.memo.zone; listed = u.memo.listed };
      same_registry = u.same_registry;
    }
    kept-Quiet run (err e s) u = record {
      memo = record { zone = u.memo.zone; listed = u.memo.listed };
      same_registry = u.same_registry;
    }

    pub call-Quiet : {A : Type 0} (m : M A) (run : Run R) → Untouched start run → Quiet (call m run)
    call-Quiet m run u = kept-Quiet run (m run.session) u

    pub log_entry-Quiet :
        (e : LogEntry) (run : Run R) → Untouched start run → Quiet (log_entry e run)
    log_entry-Quiet e run u = record {
      memo = record { zone = u.memo.zone; listed = u.memo.listed };
      same_registry = u.same_registry;
    }

    pub session-Untouched :
        (s : Session) (run : Run R)
        → Untouched start run
        → Untouched start (record run { session = s })
    session-Untouched s run u = record {
      memo = record { zone = u.memo.zone; listed = u.memo.listed };
      same_registry = u.same_registry;
    }

module _ {W R : Type 0} (env : Env W R) (start : Run R) where
  abbrev Still : {A : Type 0} → A → Run R → Type 0
  Still _ = Untouched start

  pub local_zone-Quiet : (run : Run R) → Untouched start run → Quiet start (local_zone env run)
  unfolding local_zone
  local_zone-Quiet run u = elim (Option-cases run.local_zone) [
    | inl absent ↦
        rw (absent, local_zone)
          (Post-bind Still Still (call (get_local_zone env.net env.dec) run) _
            (call-Quiet start (get_local_zone env.net env.dec) run u)
            λ r run' u'. record {
              memo = record {
                zone =
                    λ r' e. absurd (let p : none ≡ some r' = sym absent ∙ u.memo.zone r' e in cc);
                listed = u'.memo.listed;
              };
              same_registry = u'.same_registry;
            })
    | inr (r, present) ↦ rw (present, local_zone) u
  ]

  pub nodes-Quiet : (run : Run R) → Untouched start run → Quiet start (nodes env run)
  unfolding nodes
  nodes-Quiet run u = elim (Option-cases run.nodes) [
    | inl absent ↦
        rw (absent, nodes)
          (Post-bind Still Still (call (get_nodes env.net env.dec) run) _
            (call-Quiet start (get_nodes env.net env.dec) run u)
            λ r run' u'. record {
              memo = record {
                zone = u'.memo.zone;
                listed =
                    λ r' e. absurd (let p : none ≡ some r' = sym absent ∙ u.memo.listed r' e in cc);
              };
              same_registry = u'.same_registry;
            })
    | inr (r, present) ↦ rw (present, nodes) u
  ]

  -- A collector that ends with an error has registered nothing.
  abbrev pub Concluded : Option Error → Run R → Type 0
  Concluded none = Memoised start
  Concluded (some e) = Untouched start

  -- The end of every collector.
  pub register-Concluded :
      (metrics : List (Metric W)) (run : Run R)
      → Untouched start run
      → Post Concluded (continue_with (must_register env metrics run) (λ _. return none))
  unfolding must_register
  register-Concluded metrics run u =
      elim (Option-cases (env.reg.register (new_const_collector metrics) run.registry)) [
        | inl refused ↦ rw (refused, must_register) tt
        | inr (r, taken) ↦
            rw (taken, must_register) (record { zone = u.memo.zone; listed = u.memo.listed })
      ]

-- ===== src/Collector/Run/Tasks/Matches.antt =====
-- A goroutine that no other interrupts, as a step of a collector (probe.go).
use prometheus_obs_exporter.Prelude.{◌≡◌, refl, sym, ap, ◌∙◌}
use prometheus_obs_exporter.Goroutines.{Task, ret, alone, bind}
use prometheus_obs_exporter.Goroutines.Settled.{alone-Settled}
use prometheus_obs_exporter.Obsclient.Client.{Client, M}
use prometheus_obs_exporter.Collector.Run.{
  LogEntry, Run, done, Scrape, return, continue_with, call, log_entry, ◌>>=◌,
}
use prometheus_obs_exporter.Collector.Run.Steady.{Yields}
use prometheus_obs_exporter.Collector.Run.Tasks.{Asking, log_task}
use prometheus_obs_exporter.Collector.Run.Tasks.Runs.{alone-bind, Runs, Runs-call}
use prometheus_obs_exporter.Collector.Run.Tasks.Settling.{KeepsClient, IsSteady}

module _ {R : Type 0} where
  -- In one piece the goroutine is the step of the collector, on every state.
  abbrev pub Matches : {A : Type 0} → Task (Run R) A → Scrape R A → Type 0
  Matches t m = (run : Run R) → m run ≡ done (alone t run).0 (alone t run).1

  pub ret-Matches : {A : Type 0} (a : A) → Matches (ret a) (return a)
  unfolding alone
  ret-Matches a run = refl

  pub log-Matches : (e : LogEntry) → Matches (log_task e) (log_entry e)
  unfolding log_task alone
  log-Matches e run = refl

  pub call-Matches : {A : Type 0} (t : Asking R A) (m : M A) → Runs t m → Matches t (call m)
  call-Matches t m h = Runs-call t m h

  pub bind-Matches :
      {A B : Type 0} (t : Task (Run R) A) (m : Scrape R A) (k : A → Task (Run R) B)
      (k' : A → Scrape R B)
      → Matches t m
      → ((a : A) → Matches (k a) (k' a))
      → Matches (bind t k) (m >>= k')
  bind-Matches t m k k' h next run =
      ap (λ r. continue_with r k') (h run)
      ∙ next (alone t run).0 (alone t run).1
      ∙ ap (λ (p : _ × Run R). done p.0 p.1) (sym (alone-bind t k run))

  pub Matches-Yields :
      {A : Type 0} (c : Client) (t : Task (Run R) A) (m : Scrape R A)
      → Matches t m
      → (x : IsSteady R c t) → Yields c m x.0
  Matches-Yields c t m h (a, settled) run held =
      let (same, held') = alone-Settled (KeepsClient R c) a t run settled held in
      ((alone t run).1, h run ∙ ap (λ b. done b (alone t run).1) same, held')

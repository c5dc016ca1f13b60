-- ===== src/Collector/Run/Steady.antt =====
-- Steps of a collector (probe.go) that give the same result whatever the other goroutines of the
-- request have sent before.
use prometheus_obs_exporter.Prelude.{◌≡◌, refl, ap, ◌∙◌}
use prometheus_obs_exporter.Obsclient.Client.{Client}
use prometheus_obs_exporter.Collector.Run.{
  LogEntry, Run, done, Scrape, return, continue_with, log_entry, ◌>>=◌,
}

module _ {R : Type 0} (c : Client) where
  -- On every state whose client is `c`, a step gives the value `a` and keeps the client.
  abbrev pub Yields : {A : Type 0} → Scrape R A → A → Type 0
  Yields m a =
      (run : Run R)
      → run.session.client ≡ c
      → (next : Run R) × (m run ≡ done a next) × (next.session.client ≡ c)

  pub return-Yields : {A : Type 0} (a : A) → Yields (return a) a
  return-Yields a run h = (run, refl, h)

  pub log_entry-Yields : (e : LogEntry) → Yields (log_entry e) tt
  log_entry-Yields e run h = (_, refl, h)

  pub bind-Yields :
      {A B : Type 0} (m : Scrape R A) (k : A → Scrape R B) (a : A) (b : B)
      → Yields m a
      → Yields (k a) b
      → Yields (m >>= k) b
  bind-Yields m k a b p q run h =
      let (mid, same, held) = p run h in
      let (next, same', held') = q mid held in
      (next, ap (λ r. continue_with r k) same ∙ same', held')

-- ===== src/Goroutines/Semaphore.antt =====
-- The channel that bounds the goroutines under way.
use prometheus_obs_exporter.Prelude.{ℕ, ◌≤◌, ◌≡◌, refl, List, [], ◌∷◌, map, arith}
use prometheus_obs_exporter.Goroutines.{
  Task, waiting, running, leaving, over, System, place, total, Step, acquire, advance, append,
  leave, launched, Steps, stay, more, total-set,
}

module _ {S A : Type 0} {capacity : ℕ} where
  Step-Bounded :
      {p q : System S A}
      → Step capacity p q
      → total place p.slots ≤ capacity
      → total place q.slots ≤ capacity
  Step-Bounded {p} (acquire i t at room) h =
      omega (arith, total-set place p.slots i (waiting t) (running t) at)
  Step-Bounded {p} (advance i f k at) h =
      omega (arith, total-set place p.slots i (running _) (running (k p.state)) at)
  Step-Bounded {p} (append i a at) h =
      omega (arith, total-set place p.slots i (running _) leaving at)
  Step-Bounded {p} (leave i at) h = omega (arith, total-set place p.slots i leaving over at)

launched_free :
    {S A : Type 0} (tasks : List (Task S A)) → total place (map (λ t. waiting t) tasks) ≡ 0
launched_free [] = refl
launched_free (t ∷ tasks) = omega (arith, launched_free tasks)

module _ {S A : Type 0} {capacity : ℕ} where
  bounded :
      {p q : System S A}
      → Steps capacity p q
      → total place p.slots ≤ capacity
      → total place q.slots ≤ capacity
  bounded stay h = h
  bounded (more r st) h = Step-Bounded st (bounded r h)

  pub places-le :
      (tasks : List (Task S A)) (s : S) (q : System S A)
      → Steps capacity (launched tasks s) q
      → total place q.slots ≤ capacity
  places-le tasks s q r = bounded r (omega (arith, launched_free tasks))

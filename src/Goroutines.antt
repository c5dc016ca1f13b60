-- ===== src/Goroutines.antt =====
-- The goroutines of one fan-out (internal/collector/metering.go, perf.go): each is a sequence of
-- indivisible steps on a shared state, and the steps of different goroutines interleave. A channel
-- of a fixed capacity bounds how many are under way, a mutex guards what they append to, and
-- `sync.WaitGroup` waits until all have ended.
pub mod Semaphore
pub mod Settled
pub mod Progress
pub mod Output
pub mod Cells
use prometheus_obs_exporter.Prelude.{
  ℕ, zero, suc, ◌+◌, ◌<◌, ◌≡◌, ap, arith, Option, some, List, [], ◌∷◌, ◌++◌, map, All, get_elem?,
  set,
}

-- What is left of a goroutine: its result, or one indivisible step and the rest, which depends on
-- the state before the step.
pub data Task (S A : Type 0) : Type 0 where
  ret : A → Task S A
  act : (S → S) → (S → Task S A) → Task S A

module _ {S A : Type 0} where
  abbrev pub atom : (S → A × S) → Task S A
  atom f = act (λ s. (f s).1) (λ s. ret (f s).0)

  -- The goroutine in one piece.
  unfoldable pub alone : Task S A → S → A × S
  alone (ret a) s = (a, s)
  alone (act f k) s = alone (k s) (f s)

  unfoldable pub bind : {B : Type 0} → Task S A → (A → Task S B) → Task S B
  bind (ret a) k = k a
  bind (act f t) k = act f (λ s. bind (t s) k)

-- A goroutine before it has a place in the channel, with one, behind its append, and behind `Done`.
pub data Slot (S A : Type 0) : Type 0 where
  waiting : Task S A → Slot S A
  running : Task S A → Slot S A
  leaving : Slot S A
  over : Slot S A

-- The results stand in the order in which they were appended.
pub record System (S A : Type 0) : Type 0 where
  pub state : S
  pub slots : List (Slot S A)
  pub arrived : List A

module _ {S A : Type 0} where
  -- The places of the channel that a goroutine takes.
  abbrev pub place : Slot S A → ℕ
  place (waiting t) = 0
  place (running t) = 1
  place leaving = 1
  place over = 0

  abbrev pub total : (Slot S A → ℕ) → List (Slot S A) → ℕ
  total w [] = 0
  total w (x ∷ xs) = w x + total w xs

  -- One step of one goroutine: `sem <- struct{}{}`, a step of its body, the append under the mutex,
  -- and `<-sem` with `wg.Done()`.
  pub data Step (capacity : ℕ) (p : System S A) : System S A → Type 0 where
    acquire :
        (i : ℕ) (t : Task S A)
        → get_elem? p.slots i ≡ some (waiting t)
        → total place p.slots < capacity
        → Step capacity p (record p { slots = set p.slots i (running t) })
    advance :
        (i : ℕ) (f : S → S) (k : S → Task S A)
        → get_elem? p.slots i ≡ some (running (act f k))
        → Step capacity p
            (record p { state = f p.state; slots = set p.slots i (running (k p.state)) })
    append :
        (i : ℕ) (a : A)
        → get_elem? p.slots i ≡ some (running (ret a))
        → Step capacity p
            (record p { slots = set p.slots i leaving; arrived = p.arrived ++ a ∷ [] })
    leave :
        (i : ℕ)
        → get_elem? p.slots i ≡ some leaving
        → Step capacity p (record p { slots = set p.slots i over })

  abbrev pub launched : List (Task S A) → S → System S A
  launched tasks s = record { state = s; slots = map (λ t. waiting t) tasks; arrived = [] }

  pub data Steps (capacity : ℕ) (p : System S A) : System S A → Type 0 where
    stay : Steps capacity p p
    more : {q r : System S A} → Steps capacity p q → Step capacity q r → Steps capacity p r

  -- `wg.Wait()` returns.
  abbrev pub IsOver : Slot S A → Type 0
  IsOver x = x ≡ over

  abbrev pub AllOver : System S A → Type 0
  AllOver p = All IsOver p.slots

  -- A weight of the goroutines, when one of them moves.
  pub total-set :
      (w : Slot S A → ℕ) (xs : List (Slot S A)) (i : ℕ) (x y : Slot S A)
      → get_elem? xs i ≡ some x
      → total w (set xs i y) + w x ≡ total w xs + w y
  total-set w [] i x y e = cc
  total-set w (z ∷ xs) zero x y e = let same : z ≡ x = cc in omega (arith, ap w same)
  total-set w (z ∷ xs) (suc i) x y e = omega (arith, total-set w xs i x y e)

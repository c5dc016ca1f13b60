-- ===== src/Goroutines/Progress.antt =====
-- How the goroutines of a fan-out can end.
use prometheus_obs_exporter.Prelude.{
  ℕ, zero, suc, ◌<◌, ◌≡◌, refl, ◌⊎◌, inl, inr, some, List, [], ◌∷◌, ◌++◌, arith, All, get_elem?,
  set, get_elem?-set_self, lt-length_of_get_elem?,
}
use prometheus_obs_exporter.Goroutines.{
  Task, ret, act, Slot, waiting, running, leaving, over, System, place, total, acquire, advance,
  append, leave, Steps, stay, more, IsOver, AllOver, total-set,
}

module _ {S A : Type 0} where
  -- The goroutines that have not ended.
  abbrev pending : Slot S A → ℕ
  pending (waiting t) = 1
  pending (running t) = 1
  pending leaving = 1
  pending over = 0

  abbrev unfinished : System S A → ℕ
  unfinished p = total pending p.slots

  pub Steps-trans :
      {capacity : ℕ} {p q r : System S A}
      → Steps capacity p q
      → Steps capacity q r
      → Steps capacity p r
  Steps-trans x stay = x
  Steps-trans x (more y st) = more (Steps-trans x y) st

  module _ (capacity : ℕ) where
    -- A step leads on to a state in which one goroutine fewer is left.
    Fewer : System S A → Type 0
    Fewer p = (q : System S A) × Steps capacity p q × (unfinished q < unfinished p)

    leave-Fewer : (p : System S A) (i : ℕ) → get_elem? p.slots i ≡ some leaving → Fewer p
    unfolding Fewer
    leave-Fewer p i at =
        (_, more stay (leave i at), omega (arith, total-set pending p.slots i leaving over at))

    run-Fewer :
        (t : Task S A) (p : System S A) (i : ℕ) → get_elem? p.slots i ≡ some (running t) → Fewer p
    unfolding Fewer
    run-Fewer (ret a) p i at =
        let here = get_elem?-set_self p.slots i leaving (lt-length_of_get_elem? p.slots i at) in
        let (q, r, less) =
          leave-Fewer (record p { slots = set p.slots i leaving; arrived = p.arrived ++ a ∷ [] }) i
            here in
        (
          q,
          Steps-trans (more stay (append i a at)) r,
          omega (arith, total-set pending p.slots i (running (ret a)) leaving at),
        )
    run-Fewer (act f k) p i at =
        let here =
          get_elem?-set_self p.slots i (running (k p.state))
            (lt-length_of_get_elem? p.slots i at) in
        let (q, r, less) =
          run-Fewer (k p.state)
            (record p { state = f p.state; slots = set p.slots i (running (k p.state)) }) i here in
        (
          q,
          Steps-trans (more stay (advance i f k at)) r,
          omega (arith, total-set pending p.slots i (running (act f k)) (running (k p.state)) at),
        )

  -- What the goroutines of a list have left to do, by the position of one.
  data Left (xs : List (Slot S A)) : Type 0 where
    runs : (i : ℕ) (t : Task S A) → get_elem? xs i ≡ some (running t) → Left xs
    leaves : (i : ℕ) → get_elem? xs i ≡ some leaving → Left xs
    waits :
        (i : ℕ) (t : Task S A) → get_elem? xs i ≡ some (waiting t) → total place xs ≡ 0 → Left xs
    ended : All IsOver xs → total place xs ≡ 0 → Left xs

  Left-cons : (x : Slot S A) (xs : List (Slot S A)) → Left xs → Left (x ∷ xs)
  Left-cons x xs (runs i t at) = runs (suc i) t at
  Left-cons x xs (leaves i at) = leaves (suc i) at
  Left-cons (running t) xs (waits i t' at none_in) = runs 0 t refl
  Left-cons leaving xs (waits i t' at none_in) = leaves 0 refl
  Left-cons (waiting t) xs (waits i t' at none_in) = waits (suc i) t' at (omega arith)
  Left-cons over xs (waits i t' at none_in) = waits (suc i) t' at (omega arith)
  Left-cons (running t) xs (ended all none_in) = runs 0 t refl
  Left-cons leaving xs (ended all none_in) = leaves 0 refl
  Left-cons (waiting t) xs (ended all none_in) = waits 0 t refl (omega arith)
  Left-cons over xs (ended all none_in) = ended (refl, all) (omega arith)

  left : (xs : List (Slot S A)) → Left xs
  left [] = ended tt refl
  left (x ∷ xs) = Left-cons x xs (left xs)

  module _ (capacity : ℕ) (room : 0 < capacity) where
    acquire-Fewer :
        (p : System S A) (i : ℕ) (t : Task S A)
        → get_elem? p.slots i ≡ some (waiting t)
        → total place p.slots ≡ 0
        → Fewer capacity p
    unfolding Fewer
    acquire-Fewer p i t at none_in =
        let here = get_elem?-set_self p.slots i (running t) (lt-length_of_get_elem? p.slots i at) in
        let (q, r, less) =
          run-Fewer capacity t (record p { slots = set p.slots i (running t) }) i here in
        (
          q,
          Steps-trans (more stay (acquire i t at (omega arith))) r,
          omega (arith, total-set pending p.slots i (waiting t) (running t) at),
        )

    go_on : (p : System S A) → Left p.slots → Fewer capacity p ⊎ AllOver p
    go_on p (runs i t at) = inl (run-Fewer capacity t p i at)
    go_on p (leaves i at) = inl (leave-Fewer capacity p i at)
    go_on p (waits i t at none_in) = inl (acquire-Fewer p i t at none_in)
    go_on p (ended all none_in) = inr all

    finishes :
        (n : ℕ) (p : System S A)
        → unfinished p < n
        → (q : System S A) × Steps capacity p q × AllOver q
    unfolding Fewer
    finishes zero p h = absurd (omega arith)
    finishes (suc n) p h = elim (go_on p (left p.slots)) [
      | inr all ↦ (p, stay, all)
      | inl (q, r, less) ↦
          let (end, r', all) = finishes n q (omega arith) in (end, Steps-trans r r', all)
    ]

    -- From every state of the goroutines all of them can end.
    pub Steps-finish : (p : System S A) → (q : System S A) × Steps capacity p q × AllOver q
    Steps-finish p = finishes (suc (unfinished p)) p (omega arith)

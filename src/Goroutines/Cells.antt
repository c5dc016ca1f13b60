-- ===== src/Goroutines/Cells.antt =====
-- Goroutines that share a slice, each of which writes the cell at its own position.
use prometheus_obs_exporter.Prelude.{
  ℕ, zero, suc, ◌<◌, ◌≡◌, ◌≢◌, refl, sym, ap, ◌∙◌, ◌⊎◌, inl, inr, some, List, [], ◌∷◌, map, All,
  get_elem?, set, length, length-map, length-set, get_elem?-set_self, get_elem?-set_ne,
  lt-length_of_get_elem?, Bool-cases, ◌==◌, arith,
}
use prometheus_obs_exporter.Goroutines.{
  Task, ret, act, Slot, waiting, running, leaving, over, System, Step, acquire, advance, append,
  leave, launched, Steps, stay, more, IsOver, AllOver,
}

-- What a step at a position may do to the cells.
abbrev Change : {B : Type 0} → ℕ → List B → List B → Type 0
Change {B} i cells cells' = (cells' ≡ cells) ⊎ ((b : B) × (cells' ≡ set cells i b))

kept_length :
    {B : Type 0} (i : ℕ) (cells cells' : List B)
    → Change i cells cells'
    → length cells' ≡ length cells
kept_length i cells cells' (inl same) = ap length same
kept_length i cells cells' (inr (b, e)) = rw e (length-set cells i b)

-- `P` holds of what may stand in the cell at a position.
module _ {B : Type 0} (P : ℕ → B → Type 0) where
  abbrev pub Has : ℕ → List B → Type 0
  Has i cells = (b : B) × (get_elem? cells i ≡ some b) × P i b

  -- The cells of the others stay as they are.
  Has-other :
      (i j : ℕ) (cells cells' : List B) → i ≢ j → Change i cells cells' → Has j cells → Has j cells'
  Has-other i j cells cells' other (inl same) h = rw same h
  Has-other i j cells cells' other (inr (b, e)) (c, at, p) =
      (c, rw e (get_elem?-set_ne cells i j b other ∙ at), p)

  same_cells : (i : ℕ) (cells cells' : List B) → cells' ≡ cells → Has i cells → Has i cells'
  same_cells i cells cells' same (b, at, p) = (b, rw same at, p)

module _ {S B A : Type 0} (P : ℕ → B → Type 0) where
  -- Behind its write a goroutine leaves the slice as it is.
  abbrev pub Wrote : Task (S × List B) A → Type 0
  Wrote (ret a) = Unit {0}
  Wrote (act f k) = (s : S × List B) → ((f s).1 ≡ s.1) × Wrote (k s)

  -- A goroutine that is still to write its cell, whatever the state it finds.
  abbrev pub Writes : ℕ → Task (S × List B) A → Type 0
  Writes i (ret a) = ⊥
  Writes i (act f k) =
      (s : S × List B)
      → (((f s).1 ≡ s.1) × Writes i (k s))
        ⊎ ((b : B) × ((f s).1 ≡ set s.1 i b) × P i b × Wrote (k s))

  abbrev Before : ℕ → Slot (S × List B) A → Type 0
  Before i (waiting t) = Writes i t
  Before i (running t) = Writes i t
  Before i leaving = ⊥
  Before i over = ⊥

  abbrev Behind : Slot (S × List B) A → Type 0
  Behind (waiting t) = Wrote t
  Behind (running t) = Wrote t
  Behind leaving = Unit {0}
  Behind over = Unit {0}

  abbrev Status : ℕ → List B → Slot (S × List B) A → Type 0
  Status i cells x = Before i x ⊎ (Behind x × Has P i cells)

  record Inv (n : ℕ) (xs : List (Slot (S × List B) A)) (cells : List B) : Type 0 where
    slots : length xs ≡ n
    whole : length cells ≡ n
    status : (i : ℕ) (x : Slot (S × List B) A) → get_elem? xs i ≡ some x → Status i cells x

  move :
      (n : ℕ) (xs : List (Slot (S × List B) A)) (cells cells' : List B) (i : ℕ)
      (x y : Slot (S × List B) A)
      → Inv n xs cells
      → get_elem? xs i ≡ some x
      → Change i cells cells'
      → Status i cells' y
      → Inv n (set xs i y) cells'
  move n xs cells cells' i x y h at change own = record {
    slots = length-set xs i y ∙ h.slots;
    whole = kept_length i cells cells' change ∙ h.whole;
    status = λ j z there. elim (Bool-cases (i == j)) [
      | inl same ↦
          let p : i ≡ j = ground arith in
          let here : get_elem? (set xs i y) i ≡ some y =
            get_elem?-set_self xs i y (lt-length_of_get_elem? xs i at) in
          let there' : get_elem? (set xs i y) i ≡ some z =
            ap (λ k. get_elem? (set xs i y) k) p ∙ there in
          let e : y ≡ z = cc in rw (← p, ← e) own
      | inr different ↦
          let other : i ≢ j = ground arith in
          let there' : get_elem? xs j ≡ some z = sym (get_elem?-set_ne xs i j y other) ∙ there in
          elim (h.status j z there') [
            | inl before ↦ inl before
            | inr (behind, has) ↦ inr (behind, Has-other P i j cells cells' other change has)
          ]
    ];
  }

  room :
      (n : ℕ) (xs : List (Slot (S × List B) A)) (cells : List B) (i : ℕ) (x : Slot (S × List B) A)
      → Inv n xs cells
      → get_elem? xs i ≡ some x
      → i < length cells
  room n xs cells i x h at =
      let e : length xs ≡ length cells = h.slots ∙ sym h.whole in
      omega (arith, lt-length_of_get_elem? xs i at)

  abbrev Holds : ℕ → System (S × List B) A → Type 0
  Holds n p = Inv n p.slots p.state.1

  advanced :
      (n : ℕ) (p : System (S × List B) A) (i : ℕ) (f : S × List B → S × List B)
      (k : S × List B → Task (S × List B) A)
      → Holds n p
      → get_elem? p.slots i ≡ some (running (act f k))
      → Holds n (record p { state = f p.state; slots = set p.slots i (running (k p.state)) })
  advanced n p i f k h at = elim (h.status i (running (act f k)) at) [
    | inl writes ↦ elim (writes p.state) [
      | inl (same, later) ↦
          move n p.slots p.state.1 (f p.state).1 i (running (act f k)) (running (k p.state)) h at
            (inl same) (inl later)
      | inr (b, e, own, wrote) ↦
          move n p.slots p.state.1 (f p.state).1 i (running (act f k)) (running (k p.state)) h at
            (inr (b, e))
            (inr (
              wrote,
              (
                b,
                ap (λ cells. get_elem? cells i) e
                    ∙ get_elem?-set_self p.state.1 i b
                        (room n p.slots p.state.1 i (running (act f k)) h at),
                own,
              ),
            ))
    ]
    | inr (wrote, has) ↦
        let (same, later) = wrote p.state in
        move n p.slots p.state.1 (f p.state).1 i (running (act f k)) (running (k p.state)) h at
          (inl same) (inr (later, same_cells P i p.state.1 (f p.state).1 same has))
  ]

  Has-behind :
      (i : ℕ) (cells : List B) (x : Slot (S × List B) A)
      → (Before i x → ⊥)
      → Status i cells x
      → Has P i cells
  Has-behind i cells x none_before (inl before) = absurd (none_before before)
  Has-behind i cells x none_before (inr (behind, has)) = has

  Step-Holds :
      {capacity : ℕ} {p q : System (S × List B) A} (n : ℕ)
      → Step capacity p q
      → Holds n p
      → Holds n q
  Step-Holds {p = p} n (acquire i t at free) h =
      move n p.slots p.state.1 p.state.1 i (waiting t) (running t) h at (inl refl)
        (h.status i (waiting t) at)
  Step-Holds {p = p} n (advance i f k at) h = advanced n p i f k h at
  Step-Holds {p = p} n (append i a at) h =
      move n p.slots p.state.1 p.state.1 i (running (ret a)) leaving h at (inl refl) (
        inr
          (tt, Has-behind i p.state.1 (running (ret a)) (λ b. b) (h.status i (running (ret a)) at)))
  Step-Holds {p = p} n (leave i at) h =
      move n p.slots p.state.1 p.state.1 i leaving over h at (inl refl)
        (inr (tt, Has-behind i p.state.1 leaving (λ b. b) (h.status i leaving at)))

  Steps-Holds :
      {capacity : ℕ} {p q : System (S × List B) A} (n : ℕ)
      → Steps capacity p q
      → Holds n p
      → Holds n q
  Steps-Holds n stay h = h
  Steps-Holds n (more r st) h = Step-Holds n st (Steps-Holds n r h)

  over_at :
      (xs : List (Slot (S × List B) A)) (i : ℕ)
      → All IsOver xs
      → i < length xs
      → get_elem? xs i ≡ some over
  over_at [] i all lt = absurd (omega arith)
  over_at (x ∷ xs) zero all lt = ap (λ y. some y) all.0
  over_at (x ∷ xs) (suc i) all lt = over_at xs i all.1 (omega arith)

  -- Every task writes the cell at its position in the list.
  abbrev pub EachWrites : List (Task (S × List B) A) → Type 0
  EachWrites tasks = (i : ℕ) (t : Task (S × List B) A) → get_elem? tasks i ≡ some t → Writes i t

  launched_at :
      (tasks : List (Task (S × List B) A)) (i : ℕ) (x : Slot (S × List B) A)
      → get_elem? (map (λ t. waiting t) tasks) i ≡ some x
      → (t : Task (S × List B) A) × (get_elem? tasks i ≡ some t) × (waiting t ≡ x)
  launched_at [] i x at = absurd cc
  launched_at (t ∷ tasks) zero x at = (t, refl, cc)
  launched_at (t ∷ tasks) (suc i) x at = launched_at tasks i x at

  pub AllOver-Has :
      (capacity : ℕ) (tasks : List (Task (S × List B) A)) (s : S) (cells : List B)
      (q : System (S × List B) A)
      → length cells ≡ length tasks
      → EachWrites tasks
      → Steps capacity (launched tasks (s, cells)) q
      → AllOver q
      → (i : ℕ) → i < length tasks
      → Has P i q.state.1
  AllOver-Has capacity tasks s cells q e each r all i lt =
      let start : Holds (length tasks) (launched tasks (s, cells)) = record {
        slots = length-map (λ t. waiting t) tasks;
        whole = e;
        status = λ j x at.
            let (t, there, same) = launched_at tasks j x at in rw (← same) (inl (each j t there));
      } in
      let end : Holds (length tasks) q = Steps-Holds (length tasks) r start in
      Has-behind i q.state.1 over (λ b. b)
        (end.status i over (over_at q.slots i all (omega (arith, end.slots))))

-- ===== src/Goroutines/Output.antt =====
-- Goroutines that append to one list, each in several steps, between the steps of the others.
pub mod Appended
use prometheus_obs_exporter.Prelude.{
  ℕ, zero, suc, ◌≡◌, refl, sym, some, List, [], ◌∷◌, ◌++◌, map, All, get_elem?, set, concat_map,
  Perm, swap_blocks,
}
use mathlib.Core.Path.{subst}
use mathlib.Core.List.{append-nil, append_assoc}
use mathlib.Core.List.Perm
use prometheus_obs_exporter.Goroutines.{
  Task, ret, act, bind, Slot, waiting, running, leaving, over, System, Step, acquire, advance,
  append, leave, launched, Steps, stay, more, IsOver, AllOver,
}
use prometheus_obs_exporter.Goroutines.Settled.{Settled}

module _ {S B : Type 0} where
  -- The steps of a goroutine that do not append.
  unfoldable pub beside : {A : Type 0} → Task S A → Task (S × List B) A
  beside (ret a) = ret a
  beside (act f k) = act (λ s. (f s.0, s.1)) (λ s. beside (k s.0))

  -- One append under the mutex for each of the values.
  unfoldable pub emit_all : List B → Task (S × List B) (Unit {0})
  emit_all [] = ret tt
  emit_all (b ∷ bs) = act (λ s. (s.0, s.1 ++ b ∷ [])) (λ _. emit_all bs)

-- `I` holds of the rest of the shared state at all times.
module _ {S B : Type 0} (I : S → Type 0) where
  -- From every state the goroutine appends the values of the list, in their order.
  abbrev pub Emits : {A : Type 0} → List B → Task (S × List B) A → Type 0
  Emits own (ret a) = own ≡ []
  Emits own (act f k) =
      (s : S × List B)
      → I s.0
      → (now later : List B) × (own ≡ now ++ later)
        × I (f s).0
        × ((f s).1 ≡ s.1 ++ now)
        × Emits later (k s)

  pub emit_all-Emits : (bs : List B) → Emits bs (emit_all bs)
  unfolding emit_all
  emit_all-Emits [] = refl
  emit_all-Emits (b ∷ bs) = λ s i. (b ∷ [], bs, refl, i, refl, emit_all-Emits bs)

  pub beside-Emits :
      {A A' : Type 0} (a : A) (own : List B) (t : Task S A) (k : A → Task (S × List B) A')
      → Settled I a t
      → Emits own (k a)
      → Emits own (bind (beside t) k)
  unfolding beside bind
  beside-Emits a own (ret a') k h e = rw h e
  beside-Emits a own (act f t) k h e = λ s i.
      let (i', rest) = h s.0 i in
      ([], own, refl, i', sym (append-nil s.1), beside-Emits a own (t s.0) k rest e)

  quiet-Emits :
      {A : Type 0} (own : List B) (a : A) (u : Task S A)
      → own ≡ []
      → Settled I a u
      → Emits own (beside u)
  unfolding beside
  quiet-Emits own a (ret a') e h = e
  quiet-Emits own a (act f k) e h = λ s i.
      let (i', rest) = h s.0 i in
      ([], own, refl, i', sym (append-nil s.1), quiet-Emits own a (k s.0) e rest)

  pub then_beside-Emits :
      {A A' : Type 0} (own : List B) (t : Task (S × List B) A) (a : A') (u : Task S A')
      → Settled I a u
      → Emits own t
      → Emits own (bind t (λ _. beside u))
  unfolding bind
  then_beside-Emits own (ret b) a u h e = quiet-Emits own a u e h
  then_beside-Emits own (act f k) a u h e = λ s i.
      let (now, later, split, i', more_of, rest) = e s i in
      (now, later, split, i', more_of, then_beside-Emits later (k s) a u h rest)

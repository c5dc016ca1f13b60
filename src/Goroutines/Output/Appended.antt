-- ===== src/Goroutines/Output/Appended.antt =====
-- The list to which interleaved goroutines append.
use prometheus_obs_exporter.Prelude.{
  ℕ, zero, suc, ◌≡◌, refl, sym, some, List, [], ◌∷◌, ◌++◌, map, All, get_elem?, set, concat_map,
  Perm, swap_blocks,
}
use mathlib.Core.Path.{subst}
use mathlib.Core.List.{append-nil, append_assoc}
use mathlib.Core.List.Perm
use prometheus_obs_exporter.Goroutines.{
  Task, ret, act, Slot, waiting, running, leaving, over, System, Step, acquire, advance, append,
  leave, launched, Steps, stay, more, IsOver, AllOver,
}
use prometheus_obs_exporter.Goroutines.Output.{Emits}

abbrev joined : {B : Type 0} → List (List B) → List B
joined rests = concat_map (λ rest. rest) rests

-- `I` holds of the rest of the shared state at all times.
module _ {S B : Type 0} (I : S → Type 0) where
  module _ {A : Type 0} where
    -- What a goroutine has still to append.
    abbrev Owes : List B → Slot (S × List B) A → Type 0
    Owes rest (waiting t) = Emits I rest t
    Owes rest (running t) = Emits I rest t
    Owes rest leaving = rest ≡ []
    Owes rest over = rest ≡ []

    abbrev AllOwe : List (List B) → List (Slot (S × List B) A) → Type 0
    AllOwe [] [] = Unit {0}
    AllOwe (rest ∷ rests) (x ∷ xs) = Owes rest x × AllOwe rests xs
    AllOwe [] (x ∷ xs) = ⊥
    AllOwe (rest ∷ rests) [] = ⊥

    -- The goroutine at a position appends the first part of what it owes.
    Pays : List (List B) → List (Slot (S × List B) A) → ℕ → List B → Type 0
    Pays rests xs i rest =
        (now later : List B) (y : Slot (S × List B) A)
        → rest ≡ now ++ later
        → Owes later y
        → (rests' : List (List B)) × AllOwe rests' (set xs i y)
          × Perm (now ++ joined rests') (joined rests)

    record IsAt (rests : List (List B)) (xs : List (Slot (S × List B) A)) (i : ℕ)
        (x : Slot (S × List B) A) : Type 0 where
      rest : List B
      owes : Owes rest x
      pays : Pays rests xs i rest

    IsAt-here :
        (rest : List B) (rests : List (List B)) (x : Slot (S × List B) A)
        (xs : List (Slot (S × List B) A))
        → AllOwe (rest ∷ rests) (x ∷ xs)
        → IsAt (rest ∷ rests) (x ∷ xs) zero x
    unfolding Pays
    IsAt-here rest rests x xs h = record {
      rest = rest;
      owes = h.0;
      pays = λ now later y split owed. (
        later ∷ rests,
        (owed, h.1),
        rw (split, append_assoc now later (joined rests))
            (Perm.refl (now ++ (later ++ joined rests))),
      );
    }

    IsAt-there :
        (own : List B) (rests : List (List B)) (z : Slot (S × List B) A)
        (xs : List (Slot (S × List B) A)) (i : ℕ) (x : Slot (S × List B) A)
        → Owes own z
        → IsAt rests xs i x
        → IsAt (own ∷ rests) (z ∷ xs) (suc i) x
    unfolding Pays
    IsAt-there own rests z xs i x owed h = record {
      rest = h.rest;
      owes = h.owes;
      pays = λ now later y split owed'.
          let (rests', all, p) = h.pays now later y split owed' in
          (
            own ∷ rests',
            (owed, all),
            Perm.trans (swap_blocks now own (joined rests')) (Perm.append_left own p),
          );
    }

    at :
        (rests : List (List B)) (xs : List (Slot (S × List B) A)) (i : ℕ) (x : Slot (S × List B) A)
        → AllOwe rests xs
        → get_elem? xs i ≡ some x
        → IsAt rests xs i x
    at rests [] i x h e = absurd cc
    at [] (z ∷ xs) i x h e = absurd h
    at (own ∷ rests) (z ∷ xs) zero x h e =
        let same : z ≡ x = cc in
        subst (λ w. IsAt (own ∷ rests) (z ∷ xs) zero w) same (IsAt-here own rests z xs h)
    at (own ∷ rests) (z ∷ xs) (suc i) x h e =
        IsAt-there own rests z xs i x h.0 (at rests xs i x h.1 e)

    record Inv (own : List (List B)) (p : System (S × List B) A) : Type 0 where
      rests : List (List B)
      holds : I p.state.0
      owed : AllOwe rests p.slots
      balance : Perm (p.state.1 ++ joined rests) (joined own)

    -- A step of the goroutine at a position, which appends `now`.
    move :
        (own : List (List B)) (p : System (S × List B) A) (i : ℕ) (x y : Slot (S × List B) A)
        (now later : List B) (s : S × List B) (arrived : List A) (h : Inv own p)
        (k : IsAt h.rests p.slots i x)
        → k.rest ≡ now ++ later
        → Owes later y
        → I s.0
        → s.1 ≡ p.state.1 ++ now
        → Inv own (record { state = s; slots = set p.slots i y; arrived = arrived })
    unfolding Pays
    move own p i x y now later s arrived h k split owed holds grown =
        let (rests', all, paid) = k.pays now later y split owed in
        record {
          rests = rests';
          holds = holds;
          owed = all;
          balance =
              rw (grown, append_assoc p.state.1 now (joined rests'))
                (Perm.trans (Perm.append_left p.state.1 paid) h.balance);
        }

    Step-Inv :
        {capacity : ℕ} {own : List (List B)} {p q : System (S × List B) A}
        → Step capacity p q
        → Inv own p
        → Inv own q
    Step-Inv {own = own} {p} (acquire i t e room) h =
        let k = at h.rests p.slots i (waiting t) h.owed e in
        move own p i (waiting t) (running t) [] k.rest p.state p.arrived h k refl k.owes h.holds
          (sym (append-nil p.state.1))
    Step-Inv {own = own} {p} (advance i f t e) h =
        let k = at h.rests p.slots i (running (act f t)) h.owed e in
        let (now, later, split, holds, grown, rest) = k.owes p.state h.holds in
        move own p i (running (act f t)) (running (t p.state)) now later (f p.state) p.arrived h k
          split rest holds grown
    Step-Inv {own = own} {p} (append i a e) h =
        let k = at h.rests p.slots i (running (ret a)) h.owed e in
        move own p i (running (ret a)) leaving [] [] p.state _ h k k.owes refl h.holds
          (sym (append-nil p.state.1))
    Step-Inv {own = own} {p} (leave i e) h =
        let k = at h.rests p.slots i leaving h.owed e in
        move own p i leaving over [] [] p.state p.arrived h k k.owes refl h.holds
          (sym (append-nil p.state.1))

    Steps-Inv :
        {capacity : ℕ} {own : List (List B)} {p q : System (S × List B) A}
        → Steps capacity p q
        → Inv own p
        → Inv own q
    Steps-Inv stay h = h
    Steps-Inv (more r st) h = Step-Inv st (Steps-Inv r h)

    nothing_owed :
        (rests : List (List B)) (xs : List (Slot (S × List B) A))
        → AllOwe rests xs
        → All IsOver xs
        → joined rests ≡ []
    nothing_owed [] xs h o = refl
    nothing_owed (rest ∷ rests) [] h o = absurd h
    nothing_owed (rest ∷ rests) (x ∷ xs) h o =
        let own : Owes rest over = subst (λ y. Owes rest y) o.0 h.0 in
        rw own (nothing_owed rests xs h.1 o.1)

    -- What tasks append.
    abbrev pub AllEmit : List (List B) → List (Task (S × List B) A) → Type 0
    AllEmit [] [] = Unit {0}
    AllEmit (own ∷ owns) (t ∷ ts) = Emits I own t × AllEmit owns ts
    AllEmit [] (t ∷ ts) = ⊥
    AllEmit (own ∷ owns) [] = ⊥

    launched-AllOwe :
        (owns : List (List B)) (tasks : List (Task (S × List B) A))
        → AllEmit owns tasks
        → AllOwe owns (map (λ t. waiting t) tasks)
    launched-AllOwe [] [] h = tt
    launched-AllOwe [] (t ∷ ts) h = absurd h
    launched-AllOwe (own ∷ owns) [] h = absurd h
    launched-AllOwe (own ∷ owns) (t ∷ ts) h = (h.0, launched-AllOwe owns ts h.1)

    pub appended-Perm :
        (capacity : ℕ) (owns : List (List B)) (tasks : List (Task (S × List B) A)) (s : S)
        (q : System (S × List B) A)
        → AllEmit owns tasks
        → I s
        → Steps capacity (launched tasks (s, [])) q
        → AllOver q
        → Perm q.state.1 (concat_map (λ own. own) owns)
    appended-Perm capacity owns tasks s q emit i r all =
        let start : Inv owns (launched tasks (s, [])) = record {
          rests = owns;
          holds = i;
          owed = launched-AllOwe owns tasks emit;
          balance = Perm.refl (joined owns);
        } in
        let end : Inv owns q = Steps-Inv r start in
        let done : joined end.rests ≡ [] = nothing_owed end.rests q.slots end.owed all in
        let b : Perm (q.state.1 ++ []) (joined owns) = rw done at end.balance in
        rw (append-nil q.state.1) at b

-- ===== src/Goroutines/Settled.antt =====
-- Goroutines whose results do not depend on the steps of the others.
use prometheus_obs_exporter.Prelude.{
  ap, ℕ, zero, suc, ◌≡◌, refl, sym, some, List, [], ◌∷◌, ◌++◌, map, All, get_elem?, set, Perm,
}
use mathlib.Core.Path.{subst}
use mathlib.Core.List.{append-nil, append_assoc, perm_middle}
use mathlib.Core.List.Perm
use prometheus_obs_exporter.Goroutines.{
  Task, ret, act, alone, bind, Slot, waiting, running, leaving, over, System, Step, acquire,
  advance, append, leave, launched, Steps, stay, more, IsOver, AllOver,
}

-- `I` holds of the shared state at all times.
module _ {S : Type 0} (I : S → Type 0) where
  -- From every state, each step keeps `I`, and the goroutine ends with `a`.
  abbrev pub Settled : {A : Type 0} → A → Task S A → Type 0
  Settled a (ret b) = b ≡ a
  Settled a (act f k) = (s : S) → I s → I (f s) × Settled a (k s)

  pub alone-Settled :
      {A : Type 0} (a : A) (t : Task S A) (s : S)
      → Settled a t
      → I s
      → ((alone t s).0 ≡ a) × I (alone t s).1
  unfolding alone
  alone-Settled a (ret b) s h i = (h, i)
  alone-Settled a (act f k) s h i = let (i', h') = h s i in alone-Settled a (k s) (f s) h' i'

  pub bind-Settled :
      {A B : Type 0} (a : A) (b : B) (t : Task S A) (k : A → Task S B)
      → Settled a t
      → Settled b (k a)
      → Settled b (bind t k)
  unfolding bind
  bind-Settled a b (ret a') k h h' = rw h h'
  bind-Settled a b (act f t) k h h' =
      λ s i. let (i', rest) = h s i in (i', bind-Settled a b (t s) k rest h')

  module _ {A : Type 0} where
    -- A goroutine that has not appended its result will append the one at its position.
    abbrev Fits : A → Slot S A → Type 0
    Fits a (waiting t) = Settled a t
    Fits a (running t) = Settled a t
    Fits a leaving = Unit {0}
    Fits a over = Unit {0}

    abbrev AllFit : List A → List (Slot S A) → Type 0
    AllFit [] [] = Unit {0}
    AllFit (a ∷ own) (x ∷ xs) = Fits a x × AllFit own xs
    AllFit [] (x ∷ xs) = ⊥
    AllFit (a ∷ own) [] = ⊥

    -- The results that are still to be appended.
    abbrev to_come : A → Slot S A → List A
    to_come a (waiting t) = a ∷ []
    to_come a (running t) = a ∷ []
    to_come a leaving = []
    to_come a over = []

    abbrev remaining : List A → List (Slot S A) → List A
    remaining [] xs = []
    remaining (a ∷ own) [] = []
    remaining (a ∷ own) (x ∷ xs) = to_come a x ++ remaining own xs

    record IsAt (own : List A) (xs : List (Slot S A)) (i : ℕ) (x : Slot S A) : Type 0 where
      result : A
      fits : Fits result x
      moved : (y : Slot S A) → Fits result y → AllFit own (set xs i y)
      same :
          (y : Slot S A)
          → to_come result y ≡ to_come result x
          → remaining own (set xs i y) ≡ remaining own xs
      less :
          (y : Slot S A)
          → to_come result x ≡ result ∷ []
          → to_come result y ≡ []
          → Perm (result ∷ remaining own (set xs i y)) (remaining own xs)

    IsAt-here :
        (a : A) (own : List A) (x : Slot S A) (xs : List (Slot S A))
        → AllFit (a ∷ own) (x ∷ xs)
        → IsAt (a ∷ own) (x ∷ xs) zero x
    IsAt-here a own x xs h = record {
      result = a;
      fits = h.0;
      moved = λ y fit. (fit, h.1);
      same = λ y e. ap (λ l. l ++ remaining own xs) e;
      less = λ y e e'. rw (e, e') (Perm.refl (a ∷ remaining own xs));
    }

    IsAt-there :
        (a : A) (own : List A) (z : Slot S A) (xs : List (Slot S A)) (i : ℕ) (x : Slot S A)
        → Fits a z
        → IsAt own xs i x
        → IsAt (a ∷ own) (z ∷ xs) (suc i) x
    IsAt-there a own z xs i x fit h = record {
      result = h.result;
      fits = h.fits;
      moved = λ y fits. (fit, h.moved y fits);
      same = λ y e. ap (λ l. to_come a z ++ l) (h.same y e);
      less = λ y e e'.
          Perm.trans (Perm.symm (perm_middle (to_come a z) (remaining own (set xs i y))))
            (Perm.append_left (to_come a z) (h.less y e e'));
    }

    at :
        (own : List A) (xs : List (Slot S A)) (i : ℕ) (x : Slot S A)
        → AllFit own xs
        → get_elem? xs i ≡ some x
        → IsAt own xs i x
    at own [] i x h e = absurd cc
    at [] (z ∷ xs) i x h e = absurd h
    at (a ∷ own) (z ∷ xs) zero x h e =
        let same : z ≡ x = cc in
        subst (λ w. IsAt (a ∷ own) (z ∷ xs) zero w) same (IsAt-here a own z xs h)
    at (a ∷ own) (z ∷ xs) (suc i) x h e = IsAt-there a own z xs i x h.0 (at own xs i x h.1 e)

    record Inv (own : List A) (p : System S A) : Type 0 where
      holds : I p.state
      fit : AllFit own p.slots
      balance : Perm (p.arrived ++ remaining own p.slots) own

    Step-Inv :
        {capacity : ℕ} {own : List A} {p q : System S A} → Step capacity p q → Inv own p → Inv own q
    Step-Inv {own = own} {p} (acquire i t e room) h =
        let x = at own p.slots i (waiting t) h.fit e in
        record {
          holds = h.holds;
          fit = x.moved (running t) x.fits;
          balance = rw (x.same (running t) refl) h.balance;
        }
    Step-Inv {own = own} {p} (advance i f k e) h =
        let x = at own p.slots i (running (act f k)) h.fit e in
        let (holds, rest) = x.fits p.state h.holds in
        record {
          holds = holds;
          fit = x.moved (running (k p.state)) rest;
          balance = rw (x.same (running (k p.state)) refl) h.balance;
        }
    Step-Inv {own = own} {p} (append i a e) h =
        let x = at own p.slots i (running (ret a)) h.fit e in
        record {
          holds = h.holds;
          fit = x.moved leaving tt;
          balance =
              let own_next : Perm (a ∷ remaining own (set p.slots i leaving))
                  (remaining own p.slots) =
                subst
                  (λ b. Perm (b ∷ remaining own (set p.slots i leaving)) (remaining own p.slots))
                  (sym x.fits) (x.less leaving refl refl) in
              rw (append_assoc p.arrived (a ∷ []) (remaining own (set p.slots i leaving)))
                (Perm.trans (Perm.append_left p.arrived own_next) h.balance);
        }
    Step-Inv {own = own} {p} (leave i e) h =
        let x = at own p.slots i leaving h.fit e in
        record { holds = h.holds; fit = x.moved over tt; balance = rw (x.same over refl) h.balance }

    over_none : (own : List A) (xs : List (Slot S A)) → All IsOver xs → remaining own xs ≡ []
    over_none [] xs h = refl
    over_none (a ∷ own) [] h = refl
    over_none (a ∷ own) (x ∷ xs) h = rw h.0 (over_none own xs h.1)

    -- The results that tasks settle on.
    abbrev pub AllSettled : List A → List (Task S A) → Type 0
    AllSettled [] [] = Unit {0}
    AllSettled (a ∷ own) (t ∷ ts) = Settled a t × AllSettled own ts
    AllSettled [] (t ∷ ts) = ⊥
    AllSettled (a ∷ own) [] = ⊥

    launched-AllFit :
        (own : List A) (tasks : List (Task S A))
        → AllSettled own tasks
        → AllFit own (map (λ t. waiting t) tasks)
    launched-AllFit [] [] h = tt
    launched-AllFit [] (t ∷ ts) h = absurd h
    launched-AllFit (a ∷ own) [] h = absurd h
    launched-AllFit (a ∷ own) (t ∷ ts) h = (h.0, launched-AllFit own ts h.1)

    all_to_come :
        (own : List A) (tasks : List (Task S A))
        → AllSettled own tasks
        → remaining own (map (λ t. waiting t) tasks) ≡ own
    all_to_come [] tasks h = refl
    all_to_come (a ∷ own) [] h = absurd h
    all_to_come (a ∷ own) (t ∷ ts) h = ap (λ l. a ∷ l) (all_to_come own ts h.1)

    Steps-Inv :
        {capacity : ℕ} {own : List A} {p q : System S A}
        → Steps capacity p q
        → Inv own p
        → Inv own q
    Steps-Inv stay h = h
    Steps-Inv (more r st) h = Step-Inv st (Steps-Inv r h)

    pub arrived-Perm :
        (capacity : ℕ) (own : List A) (tasks : List (Task S A)) (s : S) (q : System S A)
        → AllSettled own tasks
        → I s
        → Steps capacity (launched tasks s) q
        → AllOver q
        → Perm q.arrived own
    arrived-Perm capacity own tasks s q settled i r over_all =
        let start : Inv own (launched tasks s) = record {
          holds = i;
          fit = launched-AllFit own tasks settled;
          balance = rw (all_to_come own tasks settled) (Perm.refl own);
        } in
        let end : Inv own q = Steps-Inv r start in
        let none_left : remaining own q.slots ≡ [] = over_none own q.slots over_all in
        let b : Perm (q.arrived ++ []) own = rw none_left at end.balance in
        rw (append-nil q.arrived) at b

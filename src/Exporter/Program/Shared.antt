-- ===== src/Exporter/Program/Shared.antt =====
-- Requests for one target and the client that they share (main.go).
use prometheus_obs_exporter.Prelude.{
  ℕ, ◌≡◌, refl, sym, ◌∙◌, ap, String, Option, none, some, [], ◌==◌, ==_iff, arith, length,
  Bool-cases, inl, inr, str_eq,
}
use text.Mathlib.TextEquality.{eq_iff}
use prometheus_obs_exporter.Prelude.Dict.{Dict, find, put, find-put}
use prometheus_obs_exporter.Obsclient.Net.{Net}
use prometheus_obs_exporter.Obsclient.Client.{
  Files, Client, Creation, created, failed, Session, Outcome, ok, err, after,
}
use prometheus_obs_exporter.Obsclient.Client
use prometheus_obs_exporter.Obsclient.Auth.{login}
use prometheus_obs_exporter.Config.{Config}
use prometheus_obs_exporter.Exporter.Clients.{Clients, client_config, logout_all}
use prometheus_obs_exporter.Exporter.Program.{
  Pc, idle, arrived, missed, storing, losing, probing, ended, loaded, logged_in, made, stored, Move,
  load, make, store, release, work, answer, Phase, Program, Step, arrive, request, signal, drain,
  time_out, release_all, exit, fail, Reach, start, next, update,
}

find-put_other :
    (target other : String) (n k : ℕ) (m : Dict ℕ)
    → find target m ≡ none
    → find other m ≡ some k
    → find other (put target n m) ≡ some k
find-put_other target other n k m absent there = elim (Bool-cases (str_eq target other)) [
  | inl same ↦
      let e : target ≡ other = (eq_iff target other).0 same in
      absurd (let q : none ≡ some k = sym absent ∙ ap (λ t. find t m) e ∙ there in cc)
  | inr differs ↦ find-put target other n m ∙ rw differs there
]

find-put_own : (target : String) (n : ℕ) (m : Dict ℕ) → find target (put target n m) ≡ some n
find-put_own target n m = ground (arith, find-put target target n m, eq_iff target target)

-- The client that a request has got is the one in the map.
abbrev pub Points : Dict ℕ → String → Pc → Type 0
Points m target (probing j) = find target m ≡ some j
Points m target (losing s j) = find target m ≡ some j
Points m target _ = Unit {0}

logged_in-cached : (o : Outcome (Unit {0})) (st : Clients) → (logged_in o st).0.cached ≡ st.cached
logged_in-cached (err e s) st = refl
logged_in-cached (ok u s) st = refl

made-cached :
    (net : Net) (c : Creation Client) (st : Clients) → (made net c st).0.cached ≡ st.cached
made-cached net (failed e) st = refl
made-cached net (created c) st = logged_in-cached (login net (record { client = c; sent = [] })) st

logged_in-Points :
    (m : Dict ℕ) (target : String) (o : Outcome (Unit {0})) (st : Clients)
    → Points m target (logged_in o st).1
logged_in-Points m target (err e s) st = tt
logged_in-Points m target (ok u s) st = tt

made-Points :
    (m : Dict ℕ) (target : String) (net : Net) (c : Creation Client) (st : Clients)
    → Points m target (made net c st).1
made-Points m target net (failed e) st = tt
made-Points m target net (created c) st =
    logged_in-Points m target (login net (record { client = c; sent = [] })) st

stored-keeps :
    (target other : String) (s : Session) (st : Clients) (o : Option ℕ) (k : ℕ)
    → find target st.cached ≡ o
    → find other st.cached ≡ some k
    → find other (stored target s st o).0.cached ≡ some k
stored-keeps target other s st (some j) k e there = there
stored-keeps target other s st none k e there =
    find-put_other target other (length st.objects) k st.cached e there

stored-Points :
    (target : String) (s : Session) (st : Clients) (o : Option ℕ)
    → find target st.cached ≡ o
    → Points (stored target s st o).0.cached target (stored target s st o).1
stored-Points target s st (some j) e = e
stored-Points target s st none e = find-put_own target (length st.objects) st.cached

loaded-Points :
    (target : String) (m : Dict ℕ) (o : Option ℕ) → find target m ≡ o → Points m target (loaded o)
loaded-Points target m none e = tt
loaded-Points target m (some j) e = e

module _ {net : Net} {files : Files} {cfg : Config} {target : String} {st : Clients} where
  -- No step of a request takes an entry of the map away or changes it.
  pub Move-keeps :
      {st' : Clients} {a b : Pc}
      → Move net files cfg target st a st' b
      → (other : String) (k : ℕ) → find other st.cached ≡ some k
      → find other st'.cached ≡ some k
  Move-keeps load other k there = there
  Move-keeps make other k there =
      ap (find other) (made-cached net (Client.new files target (client_config cfg)) st) ∙ there
  Move-keeps (store s) other k there =
      stored-keeps target other s st (find target st.cached) k refl there
  Move-keeps (release s j) other k there = there
  Move-keeps (work j s s' at) other k there = there
  Move-keeps (answer j) other k there = there

  Move-Points :
      {st' : Clients} {a b : Pc}
      → Move net files cfg target st a st' b
      → Points st.cached target a
      → Points st'.cached target b
  Move-Points load h = loaded-Points target st.cached (find target st.cached) refl
  Move-Points make h = made-Points _ target net (Client.new files target (client_config cfg)) st
  Move-Points (store s) h = stored-Points target s st (find target st.cached) refl
  Move-Points (release s j) h = h
  Move-Points (work j s s' at) h = h
  Move-Points (answer j) h = tt

Points-keeps :
    (m m' : Dict ℕ) (target : String) (p : Pc)
    → ((other : String) (k : ℕ) → find other m ≡ some k → find other m' ≡ some k)
    → Points m target p
    → Points m' target p
Points-keeps m m' target (probing j) keeps h = keeps target j h
Points-keeps m m' target (losing s j) keeps h = keeps target j h
Points-keeps m m' target idle keeps h = tt
Points-keeps m m' target arrived keeps h = tt
Points-keeps m m' target missed keeps h = tt
Points-keeps m m' target (storing s) keeps h = tt
Points-keeps m m' target ended keeps h = tt

module _ (target : ℕ → String) where
  abbrev pub AllPoint : Program → Type 0
  AllPoint p = (i : ℕ) → Points p.clients.cached (target i) (p.pc i)

  update-Points :
      (m : Dict ℕ) (pc : ℕ → Pc) (i : ℕ) (c : Pc)
      → Points m (target i) c
      → ((j : ℕ) → Points m (target j) (pc j))
      → (j : ℕ) → Points m (target j) (update pc i c j)
  update-Points m pc i c here h j = elim (Bool-cases (i == j)) [
    | inl same ↦ let e : i ≡ j = ground (arith, ==_iff i j) in rw (same, update) (rw e at here)
    | inr differs ↦ rw (differs, update) (h j)
  ]

module _ {net : Net} {files : Files} {cfg : Config} {target : ℕ → String}
    {closed : Phase → Type 0} where
  Step-AllPoint :
      {p q : Program} → Step net files cfg target closed p q → AllPoint target p → AllPoint target q
  unfolding logout_all
  Step-AllPoint {p} (arrive i on at) h = update-Points target p.clients.cached p.pc i arrived tt h
  Step-AllPoint {p} (request i st c alive mv) h =
      update-Points target st.cached p.pc i c (Move-Points mv (h i))
        (λ j. Points-keeps p.clients.cached st.cached (target j) (p.pc j) (Move-keeps mv) (h j))
  Step-AllPoint (signal on) h = h
  Step-AllPoint (drain on quiet) h = h
  Step-AllPoint (time_out on) h = h
  Step-AllPoint (release_all all on) h = h
  Step-AllPoint (exit off alive) h = h
  Step-AllPoint (fail on) h = h

  pub Reach-AllPoint : {p : Program} → Reach net files cfg target closed p → AllPoint target p
  Reach-AllPoint start = λ i. tt
  Reach-AllPoint (next r st) = Step-AllPoint st (Reach-AllPoint r)

module _ (net : Net) (files : Files) (cfg : Config) (target : ℕ → String)
    (closed : Phase → Type 0) where
  -- Two requests for one target that are at their probes, in any state that the process reaches and
  -- however its requests have interleaved, probe with one and the same client, which is the one in
  -- the map.
  pub one_client :
      (p : Program) (i k a b : ℕ)
      → Reach net files cfg target closed p
      → p.pc i ≡ probing a
      → p.pc k ≡ probing b
      → target i ≡ target k
      → (a ≡ b) × (find (target i) p.clients.cached ≡ some a)
  one_client p i k a b r at_i at_k same =
      let all : AllPoint target p = Reach-AllPoint r in
      let x : find (target i) p.clients.cached ≡ some a = rw at_i at (all i) in
      let y : find (target k) p.clients.cached ≡ some b = rw at_k at (all k) in
      (let z : some a ≡ some b = sym x ∙ ap (λ t. find t p.clients.cached) same ∙ y in cc, x)

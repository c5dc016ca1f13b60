-- ===== src/Obsclient/Auth/Threads.antt =====
-- Scrapes that share one client (auth.go:100-178). Each holds `authMu` for one step at a time, so
-- their authenticated calls interleave between `ensureLoggedIn`, the request, `invalidateToken`,
-- the second `ensureLoggedIn` and the second request.
use prometheus_obs_exporter.Prelude.{
  ap, ℕ, zero, suc, ◌+◌, ◌≤◌, ◌<◌, String, Bytes, ◌≡◌, refl, Bool, true, false, Option, List, [],
  ◌∷◌, arith, if◌then◌else◌, ◌==◌, str_eq, is_some,
}
use text.Mathlib.TextEquality.{eq_iff}
use prometheus_obs_exporter.Obsclient.Net.{Method, Request, Net}
use prometheus_obs_exporter.Obsclient.Client.{Outcome, ok, err, Session, after, RawResponse}
use prometheus_obs_exporter.Obsclient.Auth.{ensure_logged_in, invalidate_token, request_with_token}
use prometheus_obs_exporter.Obsclient.Auth.Tokens.{issued_by}

-- Where a call stands, with the token that it has at hand; an ended call remembers if its first
-- request was answered by a 401.
pub data Pc : Type 0 where
  idle : Pc
  holding : String → Pc
  refused : String → Pc
  cleared : Pc
  retrying : String → Pc
  finished : (unauthorized : Bool) → Pc

abbrev pub update : (ℕ → Pc) → ℕ → Pc → ℕ → Pc
update f i p j = if i == j then p else f j

pub record System : Type 0 where
  pub session : Session
  pub pc : ℕ → Pc

abbrev moved : System → ℕ → Session → Pc → System
moved s i t p = record { session = t; pc = update s.pc i p }

-- Where a call goes on after `ensureLoggedIn`, and after its first request.
abbrev pub entered : Outcome String → Pc
entered (ok token _) = holding token
entered (err _ _) = finished false

abbrev asked : String → Outcome RawResponse → Pc
asked token (ok raw _) = if raw.status == 401 then refused token else finished false
asked token (err _ _) = finished false

abbrev reentered : Outcome String → Pc
reentered (ok token _) = retrying token
reentered (err _ _) = finished true

-- One step of the call of thread `i`, out of `n`; the calls differ in method, URL and body.
module _ (net : Net) where
  abbrev pub ensured : System → ℕ → (Outcome String → Pc) → System
  ensured s i then_at = moved s i (after o) (then_at o)
    where
      o : Outcome String
      o = ensure_logged_in net s.session

  abbrev pub requested :
      System → ℕ → Method → Bytes → Option Bytes → String → (Outcome RawResponse → Pc) → System
  requested s i method url body token then_at = moved s i (after o) (then_at o)
    where
      o : Outcome RawResponse
      o = request_with_token net method url body token s.session

  pub data Step (n : ℕ) (s : System) : System → Type 0 where
    enter : (i : ℕ) → i < n → s.pc i ≡ idle → Step n s (ensured s i entered)
    ask :
        (i : ℕ) (token : String) (method : Method) (url : Bytes) (body : Option Bytes)
        → i < n
        → s.pc i ≡ holding token
        → Step n s (requested s i method url body token (asked token))
    drop :
        (i : ℕ) (token : String)
        → i < n
        → s.pc i ≡ refused token
        → Step n s (moved s i (after (invalidate_token net token s.session)) cleared)
    reenter : (i : ℕ) → i < n → s.pc i ≡ cleared → Step n s (ensured s i reentered)
    ask_again :
        (i : ℕ) (token : String) (method : Method) (url : Bytes) (body : Option Bytes)
        → i < n
        → s.pc i ≡ retrying token
        → Step n s (requested s i method url body token (λ _. finished true))

pub data Reach (net : Net) (n : ℕ) (start : Session) : System → Type 0 where
  begin : Reach net n start (record { session = start; pc = λ _. idle })
  next : {s t : System} → Reach net n start s → Step net n s t → Reach net n start t

-- The number of tokens that the target has issued to the client.
abbrev pub issues : Net → List Request → ℕ
issues net [] = 0
issues net (r ∷ rs) = if is_some (issued_by net rs r) then suc (issues net rs) else issues net rs

-- Whether the client holds a token, as a number.
abbrev pub held : Session → ℕ
held s = if str_eq s.client.auth_token "" then 0 else 1

-- A call past `invalidateToken`: its first request was answered by a 401.
abbrev pub spent : Pc → ℕ
spent idle = 0
spent (holding _) = 0
spent (refused _) = 0
spent cleared = 1
spent (retrying _) = 1
spent (finished unauthorized) = if unauthorized then 1 else 0

abbrev pub total : (Pc → ℕ) → ℕ → (ℕ → Pc) → ℕ
total w zero f = 0
total w (suc n) f = w (f n) + total w n f

total-update_above :
    (w : Pc → ℕ) (n : ℕ) (f : ℕ → Pc) (i : ℕ) (p : Pc)
    → n ≤ i
    → total w n (update f i p) ≡ total w n f
total-update_above w zero f i p h = refl
total-update_above w (suc n) f i p h = ground (arith, total-update_above w n f i p)

pub total-update :
    (w : Pc → ℕ) (n : ℕ) (f : ℕ → Pc) (i : ℕ) (p : Pc)
    → i < n
    → total w n (update f i p) + w (f i) ≡ total w n f + w p
total-update w zero f i p h = elim h [ ]
total-update w (suc n) f i p h =
    ground (arith, total-update w n f i p, total-update_above w n f i p)

spent-le : (p : Pc) → spent p ≤ 1
spent-le p = ground arith

total-le : (n : ℕ) (f : ℕ → Pc) → total spent n f ≤ n
total-le zero f = omega arith
total-le (suc n) f = omega (arith, spent-le (f n), total-le n f)

reentered-spent : (o : Outcome String) → spent (reentered o) ≡ 1
reentered-spent (ok _ _) = refl
reentered-spent (err _ _) = refl

held-le : (s : Session) → held s ≤ 1
held-le s = ground arith

module _ (net : Net) where
  ensure-held :
      (s : Session)
      → let t = after (ensure_logged_in net s) in
        issues net t.sent + held s ≡ issues net s.sent + held t
  unfolding ensure_logged_in
  ensure-held s = ground (arith, eq_iff s.client.auth_token "")

  request-held :
      (method : Method) (url : Bytes) (body : Option Bytes) (token : String) (s : Session)
      → let t = after (request_with_token net method url body token s) in
        (issues net t.sent ≡ issues net s.sent) × (held t ≡ held s)
  unfolding request_with_token
  request-held method url body token s = ground arith

  invalidate-held :
      (token : String) (s : Session)
      → let t = after (invalidate_token net token s) in (t.sent ≡ s.sent) × (held s ≤ held t + 1)
  unfolding invalidate_token
  invalidate-held token s = ground arith

  -- Tokens issued, tokens held, and calls that may have cleared one.
  Balanced : ℕ → System → Type 0
  Balanced n s = issues net s.session.sent ≤ held s.session + total spent n s.pc

  Step-Balanced : {n : ℕ} {s t : System} → Step net n s t → Balanced n s → Balanced n t
  unfolding Balanced
  Step-Balanced {n} {s} (enter i lt at) b = omega (
    arith,
    ensure-held s.session,
    total-update spent n s.pc i (entered (ensure_logged_in net s.session)) lt,
    ap spent at,
  )
  Step-Balanced {n} {s} (ask i token method url body lt at) b =
      let o = request_with_token net method url body token s.session in
      omega (
        arith,
        request-held method url body token s.session,
        total-update spent n s.pc i (asked token o) lt,
        ap spent at,
      )
  Step-Balanced {n} {s} (drop i token lt at) b = omega (
    arith,
    ap (issues net) (invalidate-held token s.session).0,
    invalidate-held token s.session,
    total-update spent n s.pc i cleared lt,
    ap spent at,
  )
  Step-Balanced {n} {s} (reenter i lt at) b = omega (
    arith,
    ensure-held s.session,
    total-update spent n s.pc i (reentered (ensure_logged_in net s.session)) lt,
    ap spent at,
    reentered-spent (ensure_logged_in net s.session),
  )
  Step-Balanced {n} {s} (ask_again i token method url body lt at) b = omega (
    arith,
    request-held method url body token s.session,
    total-update spent n s.pc i (finished true) lt,
    ap spent at,
  )

  Reach-Balanced :
      {n : ℕ} {start : Session} {s : System} → start.sent ≡ [] → Reach net n start s → Balanced n s
  unfolding Balanced
  Reach-Balanced e begin = omega (arith, ap (issues net) e)
  Reach-Balanced e (next r st) = Step-Balanced st (Reach-Balanced e r)

  -- However `n` calls interleave on a client that starts with no requests sent, the target issues
  -- it at most one token more than there are calls whose first request was answered by a 401 and
  -- that went on to `invalidateToken`: calls without a 401 share one login, and no `n` calls get
  -- more than `n + 1` tokens.
  pub Reach-issues :
      (n : ℕ) (start : Session) (s : System)
      → start.sent ≡ []
      → Reach net n start s
      → (issues net s.session.sent ≤ 1 + total spent n s.pc) × (issues net s.session.sent ≤ n + 1)
  unfolding Balanced
  Reach-issues n start s e r = omega (arith, Reach-Balanced e r, total-le n s.pc, held-le s.session)

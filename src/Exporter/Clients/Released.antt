-- ===== src/Exporter/Clients/Released.antt =====
-- The tokens of the clients that `getOrCreateClient` makes and `logoutAll` releases.
use prometheus_obs_exporter.Prelude.{
  ℕ, zero, suc, String, Bytes, utf8, ◌∙◌, ◌≡◌, refl, Bool, true, false, Option, none, some, List,
  [], ◌∷◌, ◌++◌, arith, length, get_elem?, Option-cases, Bool-cases, inl, inr, ◌⊎◌, str_eq, ◌==◌,
  ◌||◌, is_some,
}
use prometheus_obs_exporter.Prelude.Dict.{Dict, find, put}
use text.Mathlib.TextEquality.{eq_iff}
use prometheus_obs_exporter.Obsclient.Net.{Net, Request, Error}
use prometheus_obs_exporter.Obsclient.Client.{
  created, Files, Session, Outcome, ok, err, after, new_request, http_do,
}
use prometheus_obs_exporter.Obsclient.Client
use prometheus_obs_exporter.Obsclient.Auth.{login, logout}
use prometheus_obs_exporter.Obsclient.Auth.Retry.{logout_request}
use prometheus_obs_exporter.Config.{Config}
use prometheus_obs_exporter.Exporter.Clients.{
  with_object, Clients, client_config, load_or_store, store_logged_in, create_client,
  get_or_create_client,
}
use prometheus_obs_exporter.Exporter.Clients.Cached.{creation-cases}

-- The target answers every request, with whatever status.
pub record Answers (net : Net) : Type 0 where
  pub built : (url : Bytes) → net.builds url ≡ true
  pub answered : (sent : List Request) (req : Request) → is_some (net.answer sent req) ≡ true

pub logout_clears :
    (net : Net) → Answers net → (s : Session) → (after (logout net s)).client.auth_token ≡ ""
unfolding logout new_request http_do
logout_clears net on s = ground (
  arith,
  eq_iff s.client.auth_token "",
  on.built (Client.mgmt_url s.client (utf8 "/logout")),
  on.answered s.sent (logout_request s),
)

pub login_err_keeps :
    (net : Net) (s s' : Session) (e : Error)
    → login net s ≡ err e s'
    → s'.client.auth_token ≡ s.client.auth_token
unfolding login new_request http_do
login_err_keeps net s s' e failed = ground arith

pub new_has_no_token :
    (files : Files) (target : String) (c : Client.Config) (made : Client.Client)
    → Client.new files target c ≡ created made
    → made.auth_token ≡ ""
unfolding Client.new
new_has_no_token files target c made e = ground arith

outcome-cases :
    {A : Type 0} (o : Outcome A)
    → ((a : A) × (s : Session) × (o ≡ ok a s)) ⊎ ((e : Error) × (s : Session) × (o ≡ err e s))
outcome-cases (ok a s) = inl (a, s, refl)
outcome-cases (err e s) = inr (e, s, refl)

-- The clients that hold a token are cached: `is_cached` asks if the map has a position.
abbrev pub is_cached : ℕ → Dict ℕ → Bool
is_cached i [] = false
is_cached i ((target, j) ∷ entries) = (j == i) || is_cached i entries

abbrev pub Resting : Dict ℕ → ℕ → Option Session → Type 0
Resting cached i none = Unit {0}
Resting cached i (some s) = (s.client.auth_token ≡ "") ⊎ (is_cached i cached ≡ true)

abbrev pub HasNoStrayTokens : Clients → Type 0
HasNoStrayTokens st = (i : ℕ) → Resting st.cached i (get_elem? st.objects i)

pub Resting-mono :
    (d d' : Dict ℕ) (i : ℕ) (o : Option Session)
    → (is_cached i d ≡ true → is_cached i d' ≡ true)
    → Resting d i o
    → Resting d' i o
Resting-mono d d' i none f h = h
Resting-mono d d' i (some s) f (inl e) = inl e
Resting-mono d d' i (some s) f (inr c) = inr (f c)

-- A property of the elements and their positions, with one element more.
at-snoc :
    {A : Type 0} (P : ℕ → Option A → Type 0)
    → ((i : ℕ) → P i none)
    → (xs : List A) (x : A) → ((i : ℕ) → P i (get_elem? xs i))
    → P (length xs) (some x)
    → (i : ℕ) → P i (get_elem? (xs ++ x ∷ []) i)
at-snoc P past [] x h hx zero = hx
at-snoc P past [] x h hx (suc i) = past (suc i)
at-snoc P past (y ∷ xs) x h hx zero = h zero
at-snoc P past (y ∷ xs) x h hx (suc i) =
    at-snoc (λ j. P (suc j)) (λ j. past (suc j)) xs x (λ j. h (suc j)) hx i

is_cached-put :
    (target : String) (j i : ℕ) (d : Dict ℕ)
    → find target d ≡ none
    → is_cached i (put target j d) ≡ ((j == i) || is_cached i d)
unfolding find put
is_cached-put target j i [] absent = refl
is_cached-put target j i ((k, v) ∷ d) absent = elim (Bool-cases (str_eq k target)) [
  | inl same ↦ absurd (let p : some v ≡ none = rw same at absent in cc)
  | inr differs ↦
      let rest = is_cached-put target j i d (rw differs at absent) in
      rw (differs, rest) (ground arith)
]

-- A client without a token that is made and not cached.
pub with_object-HasNoStrayTokens :
    (s : Session) (st : Clients)
    → s.client.auth_token ≡ ""
    → HasNoStrayTokens st
    → HasNoStrayTokens (with_object s st)
with_object-HasNoStrayTokens s st e h = at-snoc (Resting st.cached) (λ i. tt) st.objects s h (inl e)

-- A client that is stored for a target that has none.
pub put-HasNoStrayTokens :
    (target : String) (s : Session) (st : Clients)
    → find target st.cached ≡ none
    → HasNoStrayTokens st
    → HasNoStrayTokens (record {
      cached = put target (length st.objects) st.cached;
      objects = st.objects ++ s ∷ [];
    })
put-HasNoStrayTokens target s st absent h =
    let n = length st.objects in
    let d = put target n st.cached in
    at-snoc (Resting d) (λ i. tt) st.objects s
      (λ i.
        Resting-mono st.cached d i (get_elem? st.objects i)
          (λ c. rw (is_cached-put target n i st.cached absent, c) (ground arith)) (h i))
      (inr (rw (is_cached-put target n n st.cached absent) (ground arith)))

module _ (net : Net) (target : String) (on : Answers net) where
  load_or_store-HasNoStrayTokens :
      (s : Session) (st : Clients)
      → HasNoStrayTokens st
      → HasNoStrayTokens (load_or_store net target s st).1
  unfolding load_or_store
  load_or_store-HasNoStrayTokens s st h = elim (Option-cases (find target st.cached)) [
    | inr (i, there) ↦
        rw (there, load_or_store)
          (with_object-HasNoStrayTokens (after (logout net s)) st (logout_clears net on s) h)
    | inl absent ↦ rw (absent, load_or_store) (put-HasNoStrayTokens target s st absent h)
  ]

  store-HasNoStrayTokens :
      (others : Clients → Clients) (st : Clients) (s : Session)
      → s.client.auth_token ≡ ""
      → HasNoStrayTokens st
      → HasNoStrayTokens (others st)
      → HasNoStrayTokens (store_logged_in net target others st (login net s)).1
  unfolding store_logged_in
  store-HasNoStrayTokens others st s fresh h h' = elim (outcome-cases (login net s)) [
    | inl (u, s', fine) ↦
        rw (fine, store_logged_in) (load_or_store-HasNoStrayTokens s' (others st) h')
    | inr (e, s', bad) ↦
        rw (bad, store_logged_in)
          (with_object-HasNoStrayTokens s' (others st) (login_err_keeps net s s' e bad ∙ fresh) h')
  ]

  module _ (files : Files) (cfg : Config) (others : Clients → Clients) (st : Clients) where
    create-HasNoStrayTokens :
        HasNoStrayTokens st
        → HasNoStrayTokens (others st)
        → HasNoStrayTokens (create_client net files target cfg others st).1
    unfolding create_client
    create-HasNoStrayTokens h h' =
        elim (creation-cases (Client.new files target (client_config cfg))) [
          | inl (c, made) ↦
              rw (made, create_client)
                (store-HasNoStrayTokens others st (record { client = c; sent = [] })
                  (new_has_no_token files target (client_config cfg) c made) h h')
          | inr (e, bad) ↦ rw (bad, create_client) h
        ]

    -- When the target answers every request, with whatever status, and the other requests leave no
    -- stray token, a request leaves none: each client that was ever made, also the one of a failed
    -- login and the one that lost the race, holds no token or is in the map.
    pub get_or_create-HasNoStrayTokens :
        HasNoStrayTokens st
        → HasNoStrayTokens (others st)
        → HasNoStrayTokens (get_or_create_client net files target cfg others st).1
    unfolding get_or_create_client
    get_or_create-HasNoStrayTokens h h' = elim (Option-cases (find target st.cached)) [
      | inl absent ↦ rw (absent, get_or_create_client) (create-HasNoStrayTokens h h')
      | inr (i, there) ↦ rw (there, get_or_create_client) h
    ]

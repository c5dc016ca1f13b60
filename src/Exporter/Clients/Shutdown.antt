-- ===== src/Exporter/Clients/Shutdown.antt =====
-- What `logoutAll` leaves at the end of the program.
use prometheus_obs_exporter.Prelude.{
  ℕ, zero, suc, String, ◌≡◌, ◌≢◌, true, false, none, some, List, [], ◌∷◌, arith, length, ◌<◌,
  get_elem?, set, Option-cases, Bool-cases, inl, inr, ◌==◌, All, get_elem?-set_self,
  get_elem?-set_ne, lt-length_of_get_elem?, ==_iff,
}
use prometheus_obs_exporter.Prelude.Dict.{Dict}
use prometheus_obs_exporter.Obsclient.Net.{Net}
use prometheus_obs_exporter.Obsclient.Client.{Session, after}
use prometheus_obs_exporter.Obsclient.Auth.{logout}
use prometheus_obs_exporter.Exporter.Clients.{Clients, log_out_at, log_out_each, logout_all}
use prometheus_obs_exporter.Exporter.Clients.Released.{
  Answers, logout_clears, Resting, Resting-mono, HasNoStrayTokens,
}

abbrev pub HasNoToken : Session → Type 0
HasNoToken s = s.client.auth_token ≡ ""

pub eq_of : (j i : ℕ) → (j == i) ≡ true → j ≡ i
eq_of j i same = ground (arith, ==_iff j i)

pub ne_of : (j i : ℕ) → (j == i) ≡ false → j ≢ i
ne_of j i differs = ground (arith, ==_iff j i)

pub set_at :
    (xs : List Session) (j i : ℕ) (x : Session)
    → j ≡ i
    → j < length xs
    → get_elem? (set xs j x) i ≡ some x
set_at xs j i x p h = rw⁻¹ p (get_elem?-set_self xs j x h)

All-of_at : (xs : List Session) → ((i : ℕ) → Resting [] i (get_elem? xs i)) → All HasNoToken xs
All-of_at [] h = tt
All-of_at (x ∷ xs) h = (elim (h zero) [ inl e ↦ e | inr c ↦ cc ], All-of_at xs (λ i. h (suc i)))

module _ (net : Net) (on : Answers net) where
  log_out_at-Resting :
      (target : String) (j : ℕ) (d : Dict ℕ) (objects : List Session)
      → ((i : ℕ) → Resting ((target, j) ∷ d) i (get_elem? objects i))
      → (i : ℕ) → Resting d i (get_elem? (log_out_at net j objects) i)
  unfolding log_out_at
  log_out_at-Resting target j d objects h i = elim (Bool-cases (j == i)) [
    | inl same ↦ elim (Option-cases (get_elem? objects i)) [
      | inl past ↦
          let past_j : get_elem? objects j ≡ none = rw (eq_of j i same) past in
          rw (past_j, log_out_at, past) tt
      | inr (s, found) ↦
          let found_j : get_elem? objects j ≡ some s = rw (eq_of j i same) found in
          let here : get_elem? (set objects j (after (logout net s))) i
              ≡ some (after (logout net s)) =
            set_at objects j i (after (logout net s)) (eq_of j i same)
              (lt-length_of_get_elem? objects j found_j) in
          rw (found_j, log_out_at, here) (inl (logout_clears net on s))
    ]
    | inr differs ↦
        let rest : Resting d i (get_elem? objects i) =
          Resting-mono ((target, j) ∷ d) d i (get_elem? objects i) (λ c. rw differs at c) (h i) in
        elim (Option-cases (get_elem? objects j)) [
          | inl past ↦ rw (past, log_out_at) rest
          | inr (s, found) ↦
              rw
                (
                  found,
                  log_out_at,
                  get_elem?-set_ne objects j i (after (logout net s)) (ne_of j i differs),
                )
                rest
        ]
  ]

  log_out_each-All :
      (d : Dict ℕ) (objects : List Session)
      → ((i : ℕ) → Resting d i (get_elem? objects i))
      → All HasNoToken (log_out_each net d objects)
  unfolding log_out_each
  log_out_each-All [] objects h = All-of_at objects h
  log_out_each-All ((target, j) ∷ d) objects h =
      log_out_each-All d (log_out_at net j objects) (log_out_at-Resting target j d objects h)

  -- When the target answers every request, with whatever status, and each client that holds a token
  -- is in the map, no client that was ever made holds a token after `logoutAll`.
  pub logout_all-All :
      (st : Clients) → HasNoStrayTokens st → All HasNoToken (logout_all net st).objects
  unfolding logout_all
  logout_all-All st h = log_out_each-All st.cached st.objects h

-- ===== src/Obsclient/Auth/Tokens.antt =====
-- Which tokens the requests of a client (auth.go) carry.
use prometheus_obs_exporter.Prelude.{
  String, Bytes, ◌≡◌, ◌≢◌, ◌⊎◌, inl, inr, true, Option, none, some, List, [], ◌∷◌, arith,
  if◌then◌else◌, ◌==◌, Bool-cases,
}
use text.Mathlib.TextEquality.{eq_iff}
use text.Mathlib.TextPositions.{eq_refl}
use prometheus_obs_exporter.Obsclient.Net.{Method, Request, Net, field_of}
use prometheus_obs_exporter.Obsclient.Client.{
  wrap_outcome, Ensures, Ensures-bind, Ensures-wrap, Ensures-of_after, after_of_Ensures, Outcome,
  Session, after, RawResponse,
}
use prometheus_obs_exporter.Obsclient.Auth.{
  auth_token_header, issued_token, login, logout, ensure_logged_in, invalidate_token,
  request_with_token, retry_unauthorized, read_answer, settle, call_authenticated_json,
}
use prometheus_obs_exporter.Obsclient.Auth.Trace.{is_login}

abbrev pub token_of : Request → String
token_of r = field_of auth_token_header r.headers

module _ (net : Net) where
  -- The token that the answer to a login gives, after the requests before it.
  abbrev pub issued_by : List Request → Request → Option String
  issued_by rs r =
      if is_login r
      then elim (net.answer rs r) [ none ↦ none | some resp ↦ issued_token resp ]
      else none

  abbrev pub Issues : String → List Request → Type 0
  Issues t [] = ⊥
  Issues t (r ∷ rs) = (issued_by rs r ≡ some t) ⊎ Issues t rs

  -- Every request but a login carries a token that an earlier login of the history has issued.
  abbrev pub CarriesIssued : List Request → Type 0
  CarriesIssued [] = Unit {0}
  CarriesIssued (r ∷ rs) =
      ((is_login r ≡ true) ⊎ ((token_of r ≢ "") × Issues (token_of r) rs)) × CarriesIssued rs

  pub record IsGenuine (s : Session) : Type 0 where
    pub held : (s.client.auth_token ≡ "") ⊎ Issues s.client.auth_token s.sent
    pub carried : CarriesIssued s.sent

  -- A token that `ensure_logged_in` gives may be sent.
  abbrev Sendable : String → Session → Type 0
  Sendable t s = (t ≢ "") × Issues t s.sent × IsGenuine s

  login-IsGenuine : (s : Session) → IsGenuine s → IsGenuine (after (login net s))
  unfolding login
  login-IsGenuine s g = ground arith

  -- A logout keeps the invariant, whether it is sent or not and however it is answered: the client
  -- then holds no token or one that an earlier login of its own has issued, and the request of the
  -- logout carries such a token.
  pub logout-IsGenuine : (s : Session) → IsGenuine s → IsGenuine (after (logout net s))
  unfolding logout
  logout-IsGenuine s g = ground (arith, eq_iff s.client.auth_token "", eq_refl auth_token_header)

  invalidate-IsGenuine :
      (old : String) (s : Session) → IsGenuine s → IsGenuine (after (invalidate_token net old s))
  unfolding invalidate_token
  invalidate-IsGenuine old s g = ground arith

  request-IsGenuine :
      (method : Method) (url : Bytes) (body : Option Bytes) (token : String) (s : Session)
      → Sendable token s
      → IsGenuine (after (request_with_token net method url body token s))
  unfolding request_with_token
  request-IsGenuine method url body token s (n, i, g) = ground (arith, eq_refl auth_token_header)

  ensure-Ensures : (s : Session) → IsGenuine s → Ensures Sendable IsGenuine (ensure_logged_in net s)
  unfolding ensure_logged_in
  ensure-Ensures s g = ground (arith, eq_iff s.client.auth_token "")

  abbrev Keeps : {A : Type 0} → Outcome A → Type 0
  Keeps = Ensures (λ _. IsGenuine) IsGenuine

  abbrev Kept : {A : Type 0} → A → Session → Type 0
  Kept _ = IsGenuine

  module _ (method : Method) (url : Bytes) (body : Option Bytes) where
    request-Keeps :
        (token : String) (s : Session)
        → Sendable token s
        → Keeps (request_with_token net method url body token s)
    request-Keeps token s h =
        Ensures-of_after IsGenuine _ (request-IsGenuine method url body token s h)

    retry-Keeps :
        (token : String) (s : Session)
        → IsGenuine s
        → Keeps (retry_unauthorized net method url body token s)
    unfolding retry_unauthorized
    retry-Keeps token s g =
        Ensures-bind Kept IsGenuine Kept (invalidate_token net token s) _
          (Ensures-of_after IsGenuine _ (invalidate-IsGenuine token s g))
          λ _ t h.
            Ensures-bind Sendable IsGenuine Kept
              (wrap_outcome "obsclient: re-login after 401" (ensure_logged_in net t)) _
              (Ensures-wrap Sendable IsGenuine _ _ (ensure-Ensures t h)) request-Keeps

    module _ {A : Type 0} (decode : Bytes → Option A) where
      read-Keeps :
          (r : RawResponse) (s : Session)
          → IsGenuine s
          → Keeps (read_answer net decode method url r s)
      unfolding read_answer
      read-Keeps r s g = ground arith

      settle-Keeps :
          (token : String) (first : RawResponse) (s : Session)
          → IsGenuine s
          → Keeps (settle net decode method url body token first s)
      unfolding settle
      settle-Keeps token first s g = elim (Bool-cases (first.status == 401)) [
        | inl refused ↦ rw refused (
            Ensures-bind Kept IsGenuine Kept (retry_unauthorized net method url body token s) _
              (retry-Keeps token s g) read-Keeps)
        | inr other ↦ rw other (read-Keeps first s g)
      ]

      -- An authenticated call keeps the invariant: the token that the client holds and every
      -- token in its requests come from an earlier login of the same client that answered 200
      -- with that token, and no request but a login goes out without a token.
      pub call-IsGenuine :
          (s : Session)
          → IsGenuine s
          → IsGenuine (after (call_authenticated_json net decode method url body s))
      unfolding call_authenticated_json
      call-IsGenuine s g = after_of_Ensures IsGenuine _ (
          Ensures-bind Sendable IsGenuine Kept (ensure_logged_in net s) _ (ensure-Ensures s g)
            λ token t h.
              Ensures-bind Kept IsGenuine Kept (request_with_token net method url body token t) _
                (request-Keeps token t h) (settle-Keeps token))

-- ===== src/Obsclient/Auth/Retry.antt =====
-- The retry after a 401, the compare-and-clear of a token, and the branches of a logout.
pub mod Traffic
use prometheus_obs_exporter.Prelude.{
  String, Bytes, utf8, ◌≡◌, ◌≢◌, ◌↔◌, ◌⊎◌, true, Option, none, some, [], ◌∷◌, ◌∙◌, sym, arith,
}
use text.Mathlib.TextEquality.{eq_iff}
use prometheus_obs_exporter.Obsclient.Net.{Method, get, Request, Response, Net}
use prometheus_obs_exporter.Obsclient.Client.{ok, Session, after, RawResponse, mgmt_url}
use prometheus_obs_exporter.Obsclient.Auth.{
  auth_token_header, logout, ensure_logged_in, invalidate_token, request_with_token,
  retry_unauthorized, read_answer, settle, call_authenticated_json,
}

ensure_returns_held :
    (net : Net) (token : String) (s t : Session)
    → ensure_logged_in net s ≡ ok token t
    → t.client.auth_token ≡ token
unfolding ensure_logged_in
ensure_returns_held net token s t e = ground arith

invalidate_other :
    (net : Net) (old : String) (s : Session)
    → s.client.auth_token ≢ old
    → invalidate_token net old s ≡ ok tt s
unfolding invalidate_token
invalidate_other net old s n = ground (arith, eq_iff s.client.auth_token old)

ensure_held :
    (net : Net) (token : String) (s : Session)
    → s.client.auth_token ≡ token
    → token ≢ ""
    → ensure_logged_in net s ≡ ok token s
unfolding ensure_logged_in
ensure_held net token s held n = ground (arith, eq_iff s.client.auth_token "")

-- Two calls whose requests were refused with one token: when the first has logged in again and got
-- another token, the second clears nothing, and its own `ensureLoggedIn` returns the token of the
-- first without a login, so that one expired token costs one login.
pub refused_together :
    (net : Net) (old token : String) (s t : Session)
    → ensure_logged_in net (after (invalidate_token net old s)) ≡ ok token t
    → token ≢ old
    → token ≢ ""
    → ensure_logged_in net (after (invalidate_token net old t)) ≡ ok token t
refused_together net old token s t e other given =
    let held = ensure_returns_held net token (after (invalidate_token net old s)) t e in
    rw (invalidate_other net old t (λ same. other (sym held ∙ same)))
      (ensure_held net token t held given)

invalidate_ok :
    (net : Net) (token : String) (s : Session)
    → invalidate_token net token s ≡ ok tt (after (invalidate_token net token s))
unfolding invalidate_token
invalidate_ok net token s = ground arith

module _ (net : Net) (method : Method) (url : Bytes) (body : Option Bytes) where
  module _ {A : Type 0} (decode : Bytes → Option A) where
    -- With a token at hand, an answer other than 401 is the answer of the call: no login and no
    -- second request is made.
    call_first :
        (token : String) (s s' : Session) (raw : RawResponse)
        → s.client.auth_token ≡ token
        → token ≢ ""
        → request_with_token net method url body token s ≡ ok raw s'
        → raw.status ≢ 401
        → call_authenticated_json net decode method url body s
          ≡ read_answer net decode method url raw s'
    unfolding call_authenticated_json settle
    call_first token s s' raw held n e h = ground (arith, ensure_held net token s)

    -- The branch of a 401, by its steps.
    pub settled_again :
        (token token' : String) (s s' t t' : Session) (raw raw' : RawResponse)
        → s.client.auth_token ≡ token
        → token ≢ ""
        → request_with_token net method url body token s ≡ ok raw s'
        → raw.status ≡ 401
        → ensure_logged_in net (after (invalidate_token net token s')) ≡ ok token' t
        → request_with_token net method url body token' t ≡ ok raw' t'
        → call_authenticated_json net decode method url body s
          ≡ read_answer net decode method url raw' t'
    unfolding call_authenticated_json settle retry_unauthorized
    settled_again token token' s s' t t' raw raw' held n e h l e' =
        ground (arith, ensure_held net token s, invalidate_ok net token s')

-- The request of a logout.
abbrev pub logout_request : Session → Request
logout_request s = record {
  method = get;
  url = mgmt_url s.client (utf8 "/logout");
  basic = none;
  headers = (auth_token_header, s.client.auth_token) ∷ [];
  body = none;
}

logout_cleared : (net : Net) (t : Session) → t.client.auth_token ≡ "" → logout net t ≡ ok tt t
unfolding logout
logout_cleared net t e = ground (arith, eq_iff t.client.auth_token "")

logout_outcome :
    (net : Net) (s : Session) (resp : Response)
    → net.builds (mgmt_url s.client (utf8 "/logout")) ≡ true
    → s.client.auth_token ≢ ""
    → net.answer s.sent (logout_request s) ≡ some resp
    → ((after (logout net s)).client.auth_token ≡ "")
      × ((logout net s ≡ ok tt (after (logout net s)))
          ↔ ((resp.status ≡ 200) ⊎ (resp.status ≡ 401)))
unfolding logout
logout_outcome net s resp b n e = ground (arith, eq_iff s.client.auth_token "")

-- An answer to the logout of a client that holds a token, of any status, clears the token, and the
-- logout is a success exactly for the statuses 200 and 401. Either way a second logout is a success
-- that sends nothing.
pub logout_answered :
    (net : Net) (s : Session) (resp : Response)
    → net.builds (mgmt_url s.client (utf8 "/logout")) ≡ true
    → s.client.auth_token ≢ ""
    → net.answer s.sent (logout_request s) ≡ some resp
    → let t = after (logout net s) in
      (t.client.auth_token ≡ "")
      × ((logout net s ≡ ok tt t) ↔ ((resp.status ≡ 200) ⊎ (resp.status ≡ 401)))
      × (logout net t ≡ ok tt t)
logout_answered net s resp b n e =
    let (cleared, exactly) = logout_outcome net s resp b n e in
    (cleared, exactly, logout_cleared net (after (logout net s)) cleared)

-- ===== src/Obsclient/Auth/Trace.antt =====
-- What one step of the client adds to the requests that it has sent.
use prometheus_obs_exporter.Prelude.{
  ℕ, suc, ◌+◌, ◌≤◌, String, Bytes, ◌≡◌, Bool, Option, List, [], ◌∷◌, arith, is_some, if◌then◌else◌,
}
use prometheus_obs_exporter.Obsclient.Net.{Method, Request, Net}
use prometheus_obs_exporter.Obsclient.Client.{Session, after}
use prometheus_obs_exporter.Obsclient.Auth.{ensure_logged_in, invalidate_token, request_with_token}

-- A login is the request with Basic authentication.
abbrev pub is_login : Request → Bool
is_login r = is_some r.basic

abbrev pub logins : List Request → ℕ
logins [] = 0
logins (r ∷ rs) = if is_login r then suc (logins rs) else logins rs

abbrev pub calls : List Request → ℕ
calls [] = 0
calls (r ∷ rs) = if is_login r then calls rs else suc (calls rs)

module _ (net : Net) where
  pub ensure-sent :
      (s : Session)
      → let t = after (ensure_logged_in net s) in
        (logins t.sent ≤ logins s.sent + 1) × (calls t.sent ≡ calls s.sent)
  unfolding ensure_logged_in
  ensure-sent s = ground arith

  pub request-sent :
      (method : Method) (url : Bytes) (body : Option Bytes) (token : String) (s : Session)
      → let t = after (request_with_token net method url body token s) in
        (logins t.sent ≡ logins s.sent) × (calls t.sent ≤ calls s.sent + 1)
  unfolding request_with_token
  request-sent method url body token s = ground arith

  pub invalidate-sent :
      (old : String) (s : Session) → (after (invalidate_token net old s)).sent ≡ s.sent
  unfolding invalidate_token
  invalidate-sent old s = ground arith

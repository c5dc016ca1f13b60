-- ===== src/Obsclient/Auth.antt =====
-- internal/obsclient/auth.go: the token of a client, and requests that carry it. `authMu` is held
-- through each of `login`, `logout`, `ensure_logged_in` and `invalidate_token`, so each is
-- one step of the client; Auth/Threads interleaves them.
pub mod Trace
pub mod Bounds
pub mod Relogin
pub mod Tokens
pub mod Replies
pub mod Retry
pub mod Threads
pub mod Steady
use prometheus_obs_exporter.Prelude.{
  ℕ, String, Bytes, utf8, Bool, Option, none, some, List, [], ◌∷◌, ◌++◌, length, take, str_eq, leb,
  ◌==◌, ◌||◌, if◌then◌else◌,
}
use prometheus_obs_exporter.Obsclient.Net.{
  Method, get, post, Request, Response, Net, Error, no_token, bad_status, unexpected, decoding,
}
use prometheus_obs_exporter.Obsclient.Client.{
  Session, Outcome, ok, err, M, pure, fail, wrap, ◌>>=◌, ◌>>◌, RawResponse, mgmt_url, new_request,
  http_do, get_raw, post_raw,
}

abbrev pub auth_token_header : String
auth_token_header = "X-SDS-AUTH-TOKEN"

abbrev pub set_token : String → M (Unit {0})
set_token token s = ok tt (record s { client = record s.client { auth_token = token } })

-- A request with `SetBasicAuth`, and one with the token in its header.
abbrev with_basic : String → String → Request → Request
with_basic user password req = record req { basic = some (user, password) }

abbrev with_token : String → Request → Request
with_token token req = record req { headers = (auth_token_header, token) ∷ [] }

-- What `login` reads off the answer: the token of a 200 that has one.
abbrev pub issued_token : Response → Option String
issued_token resp =
    if resp.status == 200
    then (if str_eq (resp.header auth_token_header) ""
        then none
        else some (resp.header auth_token_header))
    else none

pub truncate_body : Bytes → Bytes
truncate_body b = if leb (length b) 512 then b else take 512 b ++ utf8 "...(truncated)"

module _ (net : Net) where
  unfoldable pub login : M (Unit {0})
  unfolding new_request http_do
  login s =
      (wrap "obsclient: building login request"
            (new_request net get (mgmt_url s.client (utf8 "/login")) none)
          >>= λ req.
              wrap "obsclient: login request"
                (http_do net (with_basic s.client.cfg.username s.client.cfg.password req))
              >>= λ resp.
                  if resp.status == 200
                  then (if str_eq (resp.header auth_token_header) ""
                      then fail no_token
                      else set_token (resp.header auth_token_header))
                  else fail (bad_status resp.status))
        s

  unfoldable pub logout : M (Unit {0})
  unfolding new_request http_do
  logout s =
      if str_eq s.client.auth_token ""
      then ok tt s
      else (wrap "obsclient: building logout request"
              (new_request net get (mgmt_url s.client (utf8 "/logout")) none)
            >>= λ req.
                wrap "obsclient: logout request" (http_do net (with_token s.client.auth_token req))
                >>= λ resp.
                    set_token ""
                    >> (if resp.status == 200 || resp.status == 401
                        then pure tt
                        else fail (bad_status resp.status)))
          s

  unfoldable pub ensure_logged_in : M String
  unfolding login
  ensure_logged_in s =
      if str_eq s.client.auth_token ""
      then (login >>= λ _ s'. ok s'.client.auth_token s') s
      else ok s.client.auth_token s

  -- Only the token that was refused is cleared.
  unfoldable pub invalidate_token : String → M (Unit {0})
  invalidate_token old s = if str_eq s.client.auth_token old then set_token "" s else ok tt s

  unfoldable pub request_with_token : Method → Bytes → Option Bytes → String → M RawResponse
  unfolding get_raw post_raw
  request_with_token method url body token =
      let headers : List (String × String) =
        (auth_token_header, token) ∷ ("Accept", "application/json") ∷ [] in
      elim body [
        | some b ↦ post_raw net url b (headers ++ ("Content-Type", "application/json") ∷ [])
        | none ↦ get_raw net url headers
      ]

  -- The branch of a 401: clear the token, log in once more, and ask once more.
  unfoldable pub retry_unauthorized : Method → Bytes → Option Bytes → String → M RawResponse
  retry_unauthorized method url body token = do
    invalidate_token token
    token' ← wrap "obsclient: re-login after 401" ensure_logged_in
    request_with_token method url body token'

  module _ {A : Type 0} (decode : Bytes → Option A) where
    -- `json.Unmarshal` is the argument `decode`; a call with a nil `out` passes a constant.
    unfoldable pub read_answer : Method → Bytes → RawResponse → M A
    unfolding truncate_body
    read_answer method url resp =
        if resp.status == 200
        then elim (decode resp.body) [
          | none ↦ wrap "obsclient: decoding response" (fail decoding)
          | some a ↦ pure a
        ]
        else fail (unexpected method url resp.status (truncate_body resp.body))

    -- The first answer, or that of the one retry, is the answer of the call.
    unfoldable pub settle : Method → Bytes → Option Bytes → String → RawResponse → M A
    settle method url body token first = do
      resp ← (if first.status == 401 then retry_unauthorized method url body token else pure first)
      read_answer method url resp

    unfoldable pub call_authenticated_json : Method → Bytes → Option Bytes → M A
    call_authenticated_json method url body = do
      token ← ensure_logged_in
      first ← request_with_token method url body token
      settle method url body token first

    unfoldable pub get_authenticated_json : Bytes → M A
    get_authenticated_json path s = call_authenticated_json get (mgmt_url s.client path) none s

    unfoldable pub post_authenticated_json : Bytes → Bytes → M A
    post_authenticated_json path body s =
        call_authenticated_json post (mgmt_url s.client path) (some body) s

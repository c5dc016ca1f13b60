-- ===== src/Obsclient/Auth/Retry/Traffic.antt =====
-- What a call whose first request is refused sends (auth.go).
use prometheus_obs_exporter.Prelude.{
  String, Bytes, utf8, true, ◌≡◌, ◌≢◌, ◌↔◌, refl, ◌∙◌, ap, Option, none, some, [], ◌∷◌, arith,
}
use text.Mathlib.TextEquality.{eq_iff}
use prometheus_obs_exporter.Obsclient.Net.{Method, get, post, Request, Response, Net}
use prometheus_obs_exporter.Obsclient.Client.{
  ok, Session, Client, after, RawResponse, mgmt_url, new_request, http_do, read_all, do_request,
  get_raw, post_raw,
}
use prometheus_obs_exporter.Obsclient.Auth.{
  auth_token_header, login, issued_token, ensure_logged_in, invalidate_token, request_with_token,
  read_answer, call_authenticated_json,
}
use prometheus_obs_exporter.Obsclient.Auth.Retry.{settled_again}

-- The request of a login, and a request that carries a token.
abbrev pub login_request : Client → Request
login_request c = record {
  method = get;
  url = mgmt_url c (utf8 "/login");
  basic = some (c.cfg.username, c.cfg.password);
  headers = [];
  body = none;
}

abbrev pub token_request : Bytes → Option Bytes → String → Request
token_request url none token = record {
  method = get;
  url = url;
  basic = none;
  headers = (auth_token_header, token) ∷ ("Accept", "application/json") ∷ [];
  body = none;
}
token_request url (some b) token = record {
  method = post;
  url = url;
  basic = none;
  headers =
      (auth_token_header, token)
      ∷ ("Accept", "application/json")
      ∷ ("Content-Type", "application/json")
      ∷ [];
  body = some b;
}

abbrev with_sent : Request → Session → Session
with_sent req s = record s { sent = req ∷ s.sent }

abbrev raw_of : Response → Bytes → RawResponse
raw_of resp text = record { status = resp.status; header = resp.header; body = text }

module _ (net : Net) where
  asked :
      (method : Method) (url : Bytes) (body : Option Bytes) (token : String) (s : Session)
      (resp : Response) (text : Bytes)
      → net.builds url ≡ true
      → net.answer s.sent (token_request url body token) ≡ some resp
      → resp.body ≡ some text
      → request_with_token net method url body token s
        ≡ ok (raw_of resp text) (with_sent (token_request url body token) s)
  unfolding request_with_token get_raw post_raw do_request new_request http_do read_all
  asked method url none token s resp text b a r = ground arith
  asked method url (some x) token s resp text b a r = ground arith

  cleared :
      (token : String) (s : Session)
      → s.client.auth_token ≡ token
      → after (invalidate_token net token s)
        ≡ record s { client = record s.client { auth_token = "" } }
  unfolding invalidate_token
  cleared token s held = ground (arith, eq_iff s.client.auth_token token)

  logs_in :
      (token' : String) (s : Session) (resp : Response)
      → net.builds (mgmt_url s.client (utf8 "/login")) ≡ true
      → net.answer s.sent (login_request s.client) ≡ some resp
      → issued_token resp ≡ some token'
      → ensure_logged_in net (record s { client = record s.client { auth_token = "" } })
        ≡ ok token' (record {
          client = record s.client { auth_token = token' };
          sent = login_request s.client ∷ s.sent;
        })
  unfolding ensure_logged_in login new_request http_do mgmt_url
  logs_in token' s resp b a i = ground arith

  renewed :
      (token token' : String) (s : Session) (resp : Response)
      → s.client.auth_token ≡ token
      → net.builds (mgmt_url s.client (utf8 "/login")) ≡ true
      → net.answer s.sent (login_request s.client) ≡ some resp
      → issued_token resp ≡ some token'
      → ensure_logged_in net (after (invalidate_token net token s))
        ≡ ok token' (record {
          client = record s.client { auth_token = token' };
          sent = login_request s.client ∷ s.sent;
        })
  renewed token token' s resp held b a i =
      ap (ensure_logged_in net) (cleared token s held) ∙ logs_in token' s resp b a i

  module _ {A : Type 0} (decode : Bytes → Option A) where
    read_after :
        (method : Method) (url : Bytes) (raw : RawResponse) (s : Session)
        → after (read_answer net decode method url raw s) ≡ s
    unfolding read_answer
    read_after method url raw s = ground arith

    read_exactly :
        (method : Method) (url : Bytes) (raw : RawResponse) (s : Session) (a : A)
        → (read_answer net decode method url raw s ≡ ok a s)
          ↔ ((raw.status ≡ 200) × (decode raw.body ≡ some a))
    unfolding read_answer
    read_exactly method url raw s a = ground arith

    -- A client that holds a token which the target refuses with a 401, and to which it issues another
    -- one: the call sends exactly three requests, the refused one, one login and the same request with
    -- the new token, which the client then holds; and it succeeds exactly when the second answer has
    -- status 200 and decodes, with what it decodes to. A second 401 is an error.
    pub call_retried :
        (method : Method) (url : Bytes) (body : Option Bytes) (token token' : String) (s : Session)
        (refusal renewal reply : Response) (text text' : Bytes)
        → s.client.auth_token ≡ token
        → token ≢ ""
        → net.builds url ≡ true
        → net.builds (mgmt_url s.client (utf8 "/login")) ≡ true
        → net.answer s.sent (token_request url body token) ≡ some refusal
        → refusal.status ≡ 401
        → refusal.body ≡ some text
        → net.answer (token_request url body token ∷ s.sent) (login_request s.client) ≡ some renewal
        → issued_token renewal ≡ some token'
        → net.answer
            (login_request s.client ∷ token_request url body token ∷ s.sent)
            (token_request url body token')
          ≡ some reply
        → reply.body ≡ some text'
        → let o = call_authenticated_json net decode method url body s in
          ((after o).sent
            ≡ token_request url body token'
              ∷ login_request s.client
              ∷ token_request url body token
              ∷ s.sent)
          × ((after o).client ≡ record s.client { auth_token = token' })
          × ((a : A) → (o ≡ ok a (after o)) ↔ ((reply.status ≡ 200) × (decode text' ≡ some a)))
    call_retried method url body token token' s refusal renewal reply text text' held n b b' a1 u r1
          a2 i a3 r3 =
        let s1 : Session = with_sent (token_request url body token) s in
        let s2 : Session = record {
          client = record s.client { auth_token = token' };
          sent = login_request s.client ∷ s1.sent;
        } in
        let s3 : Session = with_sent (token_request url body token') s2 in
        let whole =
          settled_again net method url body decode token token' s s1 s2 s3 (raw_of refusal text)
            (raw_of reply text') held n (asked method url body token s refusal text b a1 r1) u
            (renewed token token' s1 renewal held b' a2 i)
            (asked method url body token' s2 reply text' b a3 r3) in
        let same = read_after method url (raw_of reply text') s3 in
        rw (whole, same) (refl, refl, λ a. read_exactly method url (raw_of reply text') s3 a)

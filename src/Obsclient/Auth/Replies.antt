-- ===== src/Obsclient/Auth/Replies.antt =====
-- What it means that an authenticated call returned a value.
use prometheus_obs_exporter.Prelude.{
  String, Bytes, ◌≡◌, refl, inl, inr, Option, none, some, List, ◌∷◌, arith, ◌==◌, Bool-cases,
  Option-cases,
}
use prometheus_obs_exporter.Obsclient.Net.{Method, get, post, Request, Response, Net, field_of}
use prometheus_obs_exporter.Obsclient.Client.{
  wrap_outcome, Ensures, Ensures-bind, Ensures-wrap, Ensures-of_after, ok, Session, RawResponse,
  get_raw, post_raw, do_request, new_request, http_do, read_all,
}
use prometheus_obs_exporter.Obsclient.Auth.{
  auth_token_header, ensure_logged_in, invalidate_token, request_with_token, retry_unauthorized,
  read_answer, settle, call_authenticated_json,
}
use prometheus_obs_exporter.Obsclient.Auth.Tokens.{token_of}

-- `requestWithToken` posts a body, and gets without one.
abbrev pub method_for : Option Bytes → Method
method_for none = get
method_for (some _) = post

abbrev Nothing : Session → Type 0
Nothing _ = Unit {0}

abbrev Holds : String → Session → Type 0
Holds token s = token ≡ s.client.auth_token

ensure-Holds : (net : Net) (s : Session) → Ensures Holds Nothing (ensure_logged_in net s)
unfolding ensure_logged_in
ensure-Holds net s = ground arith

module _ (net : Net) (url : Bytes) (body : Option Bytes) where
  -- The last request of `t` is the call's, with the token that the client holds in `t`, and
  -- `raw` is the target's answer to it.
  pub record Replied (raw : RawResponse) (t : Session) : Type 0 where
    pub req : Request
    pub earlier : List Request
    pub resp : Response
    pub sent : t.sent ≡ req ∷ earlier
    pub same_method : req.method ≡ method_for body
    pub same_url : req.url ≡ url
    pub same_body : req.body ≡ body
    pub token : token_of req ≡ t.client.auth_token
    pub answered : net.answer earlier req ≡ some resp
    pub status : resp.status ≡ raw.status
    pub read : resp.body ≡ some raw.body

  do_request-Replied :
      (headers : List (String × String)) (s : Session)
      → field_of auth_token_header headers ≡ s.client.auth_token
      → Ensures Replied Nothing (do_request net (method_for body) url body headers s)
  unfolding do_request
  do_request-Replied headers s h = elim (Bool-cases (net.builds url)) [
    | inr bad ↦ rw (bad, new_request) tt
    | inl good ↦ elim (Option-cases (net.answer s.sent (asked headers))) [
      | inl lost ↦ rw (good, new_request) (rw (lost, http_do) tt)
      | inr (resp, answered) ↦ elim (Option-cases resp.body) [
        | inl broken ↦ rw (good, new_request) (rw (answered, http_do) (rw (broken, read_all) tt))
        | inr (b, read) ↦
            rw (good, new_request)
              (rw (answered, http_do)
                (rw (read, read_all)
                  (record {
                    req = asked headers;
                    earlier = s.sent;
                    resp = resp;
                    sent = refl;
                    same_method = refl;
                    same_url = refl;
                    same_body = refl;
                    token = h;
                    answered = answered;
                    status = refl;
                    read = read;
                  })))
      ]
    ]
  ]
    where
      asked : List (String × String) → Request
      asked fields = record {
        method = method_for body;
        url = url;
        basic = none;
        headers = fields;
        body = body;
      }

module _ (net : Net) where
  request-Replied :
      (url : Bytes) (body : Option Bytes) (token : String) (s : Session)
      → token ≡ s.client.auth_token
      → (method : Method)
      → Ensures (Replied net url body) Nothing (request_with_token net method url body token s)
  unfolding request_with_token get_raw post_raw
  request-Replied url none token s h method = do_request-Replied net url none _ s h
  request-Replied url (some b) token s h method = do_request-Replied net url (some b) _ s h

  module _ (method : Method) (url : Bytes) (body : Option Bytes) where
    retry-Replied :
        (token : String) (s : Session)
        → Ensures (Replied net url body) Nothing (retry_unauthorized net method url body token s)
    unfolding retry_unauthorized
    retry-Replied token s =
        Ensures-bind (λ _. Nothing) Nothing (Replied net url body) (invalidate_token net token s) _
          (Ensures-of_after Nothing _ tt)
          λ _ t _.
            Ensures-bind Holds Nothing (Replied net url body)
              (wrap_outcome "obsclient: re-login after 401" (ensure_logged_in net t)) _
              (Ensures-wrap Holds Nothing _ _ (ensure-Holds net t))
              λ token' u h. request-Replied url body token' u h method

    module _ {A : Type 0} (decode : Bytes → Option A) where
      -- The last answer is a 200 whose body decodes to the result.
      abbrev pub Answered : A → Session → Type 0
      Answered a t =
          (raw : RawResponse) × Replied net url body raw t
          × (raw.status ≡ 200)
          × (decode raw.body ≡ some a)

      read-Answered :
          (raw : RawResponse) (s : Session)
          → Replied net url body raw s
          → Ensures Answered Nothing (read_answer net decode method url raw s)
      unfolding read_answer
      read-Answered raw s r = elim (Bool-cases (raw.status == 200)) [
        | inr bad ↦ rw bad tt
        | inl good ↦ elim (Option-cases (decode raw.body)) [
          | inl broken ↦ rw good (rw broken tt)
          | inr (a, e) ↦ rw good (rw e (raw, r, ground arith, e))
        ]
      ]

      settle-Answered :
          (token : String) (first : RawResponse) (s : Session)
          → Replied net url body first s
          → Ensures Answered Nothing (settle net decode method url body token first s)
      unfolding settle
      settle-Answered token first s r = elim (Bool-cases (first.status == 401)) [
        | inl refused ↦ rw refused (
            Ensures-bind (Replied net url body) Nothing Answered
              (retry_unauthorized net method url body token s) _ (retry-Replied token s)
              read-Answered)
        | inr other ↦ rw other (read-Answered first s r)
      ]

      call-Ensures :
          (s : Session)
          → Ensures Answered Nothing (call_authenticated_json net decode method url body s)
      unfolding call_authenticated_json
      call-Ensures s =
          Ensures-bind Holds Nothing Answered (ensure_logged_in net s) _ (ensure-Holds net s)
            λ token t h.
              Ensures-bind (Replied net url body) Nothing Answered
                (request_with_token net method url body token t) _
                (request-Replied url body token t h method) (settle-Answered token)

      -- A call that succeeds has the target's answer 200 to its own last request, which carried
      -- the URL, the body and the token that the client holds afterwards, and its result is what
      -- the body of that answer decodes to.
      pub call_ok-Answered :
          (s t : Session) (a : A)
          → call_authenticated_json net decode method url body s ≡ ok a t
          → Answered a t
      call_ok-Answered s t a e = rw e at (call-Ensures s)

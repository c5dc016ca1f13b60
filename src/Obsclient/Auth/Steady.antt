-- ===== src/Obsclient/Auth/Steady.antt =====
-- Calls of a client that holds a token (client.go, auth.go), at a target whose answers do not depend
-- on the requests before and that accepts the token.
use prometheus_obs_exporter.Prelude.{
  String, Bytes, ◌≡◌, refl, ap, ◌∙◌, ◌⊎◌, inl, inr, false, Option, none, some, List, [], ◌∷◌, ◌==◌,
  str_eq, Option-cases, Bool-cases,
}
use prometheus_obs_exporter.Obsclient.Net.{
  Method, get, post, Request, Response, Net, Error, building, transport, reading, decoding, wrapped,
}
use prometheus_obs_exporter.Obsclient.Client.{
  Client, Session, Outcome, ok, err, M, pure, fail, wrap, and_then, wrap_outcome, ◌>>=◌,
  RawResponse, new_request, http_do, read_all, do_request, get_raw, post_raw,
}
use prometheus_obs_exporter.Obsclient.Auth.{ensure_logged_in, request_with_token, read_answer}

pub record Steady (net : Net) : Type 0 where
  pub memoryless :
      (sent sent' : List Request) (r : Request) → net.answer sent r ≡ net.answer sent' r
  pub accepts :
      (sent : List Request) (r : Request) (resp : Response)
      → net.answer sent r ≡ some resp
      → (resp.status == 401) ≡ false

abbrev pub HasToken : Client → Type 0
HasToken c = str_eq c.auth_token "" ≡ false

module _ {A : Type 0} where
  abbrev pub give : Error ⊎ A → Session → Outcome A
  give (inl e) s = err e s
  give (inr a) s = ok a s

  abbrev pub WhenOk : (A → Type 0) → Error ⊎ A → Type 0
  WhenOk Q (inl e) = Unit {0}
  WhenOk Q (inr a) = Q a

  -- Whatever was sent before, a call on the client `c` gives the result `r` and keeps the client.
  abbrev pub Settles : Client → M A → Error ⊎ A → Type 0
  Settles c m r = (s : Session) → s.client ≡ c → (t : Session) × (m s ≡ give r t) × (t.client ≡ c)

  abbrev pub IsSettled : Client → (A → Type 0) → M A → Type 0
  IsSettled c Q m = (r : Error ⊎ A) × WhenOk Q r × Settles c m r

abbrev pub Any : {A : Type 0} → A → Type 0
Any a = Unit {0}

module _ (c : Client) where
  pub pure-IsSettled : {A : Type 0} (Q : A → Type 0) (a : A) → Q a → IsSettled c Q (pure a)
  pure-IsSettled Q a q = (inr a, q, λ s h. (s, refl, h))

  pub fail-IsSettled : {A : Type 0} (Q : A → Type 0) (e : Error) → IsSettled c Q (fail e)
  fail-IsSettled Q e = (inl e, tt, λ s h. (s, refl, h))

  pub wrap-IsSettled :
      {A : Type 0} (Q : A → Type 0) (text : String) (m : M A)
      → IsSettled c Q m
      → IsSettled c Q (wrap text m)
  wrap-IsSettled Q text m (inl e, q, p) = (
    inl (wrapped text e),
    q,
    λ s h. let (t, same, kept) = p s h in (t, ap (wrap_outcome text) same, kept),
  )
  wrap-IsSettled Q text m (inr a, q, p) =
      (inr a, q, λ s h. let (t, same, kept) = p s h in (t, ap (wrap_outcome text) same, kept))

  pub bind-IsSettled :
      {A B : Type 0} (Q : A → Type 0) (S : B → Type 0) (m : M A) (k : A → M B)
      → IsSettled c Q m
      → ((a : A) → Q a → IsSettled c S (k a))
      → IsSettled c S (m >>= k)
  bind-IsSettled Q S m k (inl e, q, p) next =
      (inl e, tt, λ s h. let (t, same, kept) = p s h in (t, ap (λ o. and_then o k) same, kept))
  bind-IsSettled Q S m k (inr a, q, p) next =
      let (r, q', p') = next a q in
      (
        r,
        q',
        λ s h.
            let (t, same, kept) = p s h in
            let (u, same', kept') = p' t kept in (u, ap (λ o. and_then o k) same ∙ same', kept'),
      )

  -- A call that reads the client first.
  pub read_client-IsSettled :
      {A : Type 0} (Q : A → Type 0) (k : Client → M A)
      → IsSettled c Q (k c)
      → IsSettled c Q (λ s. k s.client s)
  read_client-IsSettled Q k (r, q, p) =
      (r, q, λ s h. let (t, same, kept) = p s h in (t, ap (λ x. k x s) h ∙ same, kept))

abbrev pub Accepted : RawResponse → Type 0
Accepted raw = (raw.status == 401) ≡ false

module _ (net : Net) (steady : Steady net) (c : Client) where
  http_do-IsSettled :
      (req : Request) → IsSettled c (λ resp. (resp.status == 401) ≡ false) (http_do net req)
  unfolding http_do
  http_do-IsSettled req = elim (Option-cases (net.answer [] req)) [
    | inl gone ↦ (
      inl transport,
      tt,
      λ s h. (
        record s { sent = req ∷ s.sent },
        rw (http_do, steady.memoryless s.sent [] req, gone) refl,
        h,
      ),
    )
    | inr (resp, came) ↦ (
      inr resp,
      steady.accepts [] req resp came,
      λ s h. (
        record s { sent = req ∷ s.sent },
        rw (http_do, steady.memoryless s.sent [] req, came) refl,
        h,
      ),
    )
  ]

  read_all-IsSettled : (resp : Response) → IsSettled c Any (read_all net resp)
  unfolding read_all
  read_all-IsSettled resp = elim (Option-cases resp.body) [
    | inl gone ↦ rw (read_all, gone) (fail-IsSettled c Any reading)
    | inr (b, there) ↦ rw (read_all, there) (pure-IsSettled c Any b tt)
  ]

  new_request-IsSettled :
      (method : Method) (url : Bytes) (body : Option Bytes)
      → IsSettled c Any (new_request net method url body)
  unfolding new_request
  new_request-IsSettled method url body = elim (Bool-cases (net.builds url)) [
    | inl builds ↦ rw (new_request, builds) (pure-IsSettled c Any _ tt)
    | inr not ↦ rw (new_request, not) (fail-IsSettled c Any building)
  ]

  do_request-IsSettled :
      (method : Method) (url : Bytes) (body : Option Bytes) (headers : List (String × String))
      → IsSettled c Accepted (do_request net method url body headers)
  unfolding do_request
  do_request-IsSettled method url body headers =
      bind-IsSettled c Any Accepted
        (wrap "obsclient: building request" (new_request net method url body)) _
        (wrap-IsSettled c Any "obsclient: building request" (new_request net method url body)
          (new_request-IsSettled method url body))
        (λ req _.
          bind-IsSettled c (λ resp. (resp.status == 401) ≡ false) Accepted
            (wrap "obsclient: request to" (http_do net _)) _
            (wrap-IsSettled c _ "obsclient: request to" (http_do net _) (http_do-IsSettled _))
            (λ resp accepted.
              bind-IsSettled c Any Accepted
                (wrap "obsclient: reading response from" (read_all net resp)) _
                (wrap-IsSettled c Any "obsclient: reading response from" (read_all net resp)
                  (read_all-IsSettled resp))
                (λ b _. pure-IsSettled c Accepted _ accepted)))

  pub request-IsSettled :
      (method : Method) (url : Bytes) (body : Option Bytes) (token : String)
      → IsSettled c Accepted (request_with_token net method url body token)
  unfolding request_with_token get_raw post_raw
  request-IsSettled method url none token = do_request-IsSettled get url none _
  request-IsSettled method url (some b) token = do_request-IsSettled post url (some b) _

  pub ensure-IsSettled : HasToken c → IsSettled c Any (ensure_logged_in net)
  unfolding ensure_logged_in
  ensure-IsSettled held = (
    inr c.auth_token,
    tt,
    λ s h.
        let there : str_eq s.client.auth_token "" ≡ false =
          ap (λ x. str_eq x.auth_token "") h ∙ held in
        (s, rw there (ap (λ x. ok x.auth_token s) h), h),
  )

  module _ {A : Type 0} (decode : Bytes → Option A) where
    pub read_answer-IsSettled :
        (method : Method) (url : Bytes) (raw : RawResponse)
        → IsSettled c Any (read_answer net decode method url raw)
    unfolding read_answer
    read_answer-IsSettled method url raw = elim (Bool-cases (raw.status == 200)) [
      | inr other ↦ rw (read_answer, other) (fail-IsSettled c Any _)
      | inl fine ↦ elim (Option-cases (decode raw.body)) [
        | inl bad ↦
            rw (read_answer, fine, bad)
              (wrap-IsSettled c Any _ (fail decoding) (fail-IsSettled c Any decoding))
        | inr (a, good) ↦ rw (read_answer, fine, good) (pure-IsSettled c Any a tt)
      ]
    ]

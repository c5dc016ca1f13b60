-- ===== src/Obsclient/Client.antt =====
-- internal/obsclient/client.go: the configuration, the client of one target and a single request.
-- A method of the client runs in the monad `M`, on the client and the requests that it has sent.
use prometheus_obs_exporter.Prelude.{
  ℕ, ◌*◌, String, Bytes, utf8, Bool, Option, none, some, List, [], ◌∷◌, ◌++◌, str_eq, if◌then◌else◌,
}
use prometheus_obs_exporter.Prelude.Int.{ℤ, pos, is_zero, decimal_int}
use prometheus_obs_exporter.Obsclient.Net.{
  Method, get, post, Request, Response, Net, Error, building, transport, reading, empty_target,
  bad_ca_file, no_certificates, wrapped,
}

-- A `time.Duration` of whole seconds, in nanoseconds.
abbrev seconds : ℕ → ℤ
seconds n = pos (n * 1000000000)

abbrev default_dial_timeout : ℤ
default_dial_timeout = seconds 10

abbrev pub default_client_timeout : ℤ
default_client_timeout = seconds 30

abbrev pub default_mgmt_port : ℤ
default_mgmt_port = pos 4443

abbrev pub default_obj_port : ℤ
default_obj_port = pos 9021

pub record Config : Type 0 where
  pub username : String
  pub password : String
  pub mgmt_port : ℤ
  pub obj_port : ℤ
  pub tls_insecure_skip_verify : Bool
  pub tls_ca_file : String
  pub timeout : ℤ

-- `tls.Config` as `New` fills it: the pool of a CA file, or none for the system's trust store.
pub record TlsConfig : Type 0 where
  pub insecure_skip_verify : Bool
  pub root_cas : Option Bytes

-- The `http.Client` that `New` builds, by the values that it is given.
pub record HttpClient : Type 0 where
  pub dial_timeout : ℤ
  pub keep_alive : ℤ
  pub max_idle_conns : ℕ
  pub idle_conn_timeout : ℤ
  pub tls_handshake_timeout : ℤ
  pub expect_continue_timeout : ℤ
  pub tls : TlsConfig
  pub timeout : ℤ

pub record Client : Type 0 where
  pub target : String
  pub cfg : Config
  pub http : HttpClient
  pub auth_token : String

pub data Creation (A : Type 0) : Type 0 where
  created : A → Creation A
  failed : Error → Creation A

-- `os.ReadFile` (`none` for its error) and the success of `AppendCertsFromPEM`.
pub record Files : Type 0 where
  pub read_file : String → Option Bytes
  pub append_certs_from_pem : Bytes → Bool

pub load_ca_file : Files → String → Creation Bytes
load_ca_file files path = elim (files.read_file path) [
  | none ↦ failed bad_ca_file
  | some pem ↦ if files.append_certs_from_pem pem then created pem else failed no_certificates
]

-- The three defaults that `New` puts in for zero values.
unfoldable pub with_defaults : Config → Config
with_defaults c = record c {
  mgmt_port = if is_zero c.mgmt_port then default_mgmt_port else c.mgmt_port;
  obj_port = if is_zero c.obj_port then default_obj_port else c.obj_port;
  timeout = if is_zero c.timeout then default_client_timeout else c.timeout;
}

root_cas : Files → String → Creation (Option Bytes)
unfolding load_ca_file
root_cas files path = if str_eq path "" then created none else elim (load_ca_file files path) [
  | created pem ↦ created (some pem)
  | failed e ↦ failed (wrapped "obsclient: loading CA file" e)
]

unfoldable pub new_http : Config → Option Bytes → HttpClient
new_http c pool = record {
  dial_timeout = default_dial_timeout;
  keep_alive = seconds 30;
  max_idle_conns = 100;
  idle_conn_timeout = seconds 90;
  tls_handshake_timeout = seconds 10;
  expect_continue_timeout = seconds 1;
  tls = record { insecure_skip_verify = c.tls_insecure_skip_verify; root_cas = pool };
  timeout = c.timeout;
}

unfoldable pub new : Files → String → Config → Creation Client
unfolding with_defaults root_cas new_http
new files target given =
    let c = with_defaults given in
    if str_eq target "" then failed empty_target else elim (root_cas files c.tls_ca_file) [
      | created pool ↦
          created (record { target = target; cfg = c; http = new_http c pool; auth_token = "" })
      | failed e ↦ failed e
    ]

unfoldable pub mgmt_url : Client → Bytes → Bytes
mgmt_url c path =
    utf8 "https://" ++ (utf8 c.target ++ (b':' ∷ (decimal_int c.cfg.mgmt_port ++ path)))

-- The client with all the requests that it has sent, newest first.
pub record Session : Type 0 where
  pub client : Client
  pub sent : List Request

pub data Outcome (A : Type 0) : Type 0 where
  ok : A → Session → Outcome A
  err : Error → Session → Outcome A

abbrev pub M : Type 0 → Type 0
M A = Session → Outcome A

abbrev pub pure : {A : Type 0} → A → M A
pure = ok

abbrev pub fail : {A : Type 0} → Error → M A
fail = err

module _ {A B : Type 0} where
  abbrev pub and_then : Outcome A → (A → M B) → Outcome B
  and_then (ok a s) f = f a s
  and_then (err e s) f = err e s

  infixl 5 ◌>>=◌ ◌>>◌
  abbrev pub ◌>>=◌ : M A → (A → M B) → M B
  m >>= f = λ s. and_then (m s) f

  abbrev pub ◌>>◌ : M A → M B → M B
  m >> n = m >>= λ _. n

module _ {A : Type 0} where
  -- An error of the call is wrapped by `fmt.Errorf` with %w.
  abbrev pub wrap_outcome : String → Outcome A → Outcome A
  wrap_outcome text (ok a s) = ok a s
  wrap_outcome text (err e s) = err (wrapped text e) s

  abbrev pub wrap : String → M A → M A
  wrap text m s = wrap_outcome text (m s)

  -- The state in which a call leaves the client, with or without an error.
  abbrev pub after : Outcome A → Session
  after (ok a s) = s
  after (err e s) = s

-- `Q` holds of what a call returns and of the client then, `E` of the client after an error.
abbrev pub Ensures : {A : Type 0} → (A → Session → Type 0) → (Session → Type 0) → Outcome A → Type 0
Ensures Q E (ok a s) = Q a s
Ensures Q E (err e s) = E s

module _ {A : Type 0} (E : Session → Type 0) where
  pub Ensures-of_after : (o : Outcome A) → E (after o) → Ensures (λ _. E) E o
  Ensures-of_after (ok a s) h = h
  Ensures-of_after (err e s) h = h

  pub after_of_Ensures : (o : Outcome A) → Ensures (λ _. E) E o → E (after o)
  after_of_Ensures (ok a s) h = h
  after_of_Ensures (err e s) h = h

module _ {A : Type 0} (Q : A → Session → Type 0) (E : Session → Type 0) where
  pub Ensures-wrap :
      (text : String) (o : Outcome A) → Ensures Q E o → Ensures Q E (wrap_outcome text o)
  Ensures-wrap text (ok a s) h = h
  Ensures-wrap text (err e s) h = h

  pub Ensures-bind :
      {B : Type 0} (R : B → Session → Type 0) (o : Outcome A) (f : A → M B)
      → Ensures Q E o
      → ((a : A) (s : Session) → Q a s → Ensures R E (f a s))
      → Ensures R E (and_then o f)
  Ensures-bind R (ok a s) f h k = k a s h
  Ensures-bind R (err e s) f h k = h

-- `rawResponse`, a response whose body has been read.
pub record RawResponse : Type 0 where
  pub status : ℕ
  pub header : String → String
  pub body : Bytes

-- The loop over the headers: `Header.Add` puts each field behind those that are there.
with_headers : Request → List (String × String) → Request
with_headers req headers = record req { headers = req.headers ++ headers }

module _ (net : Net) where
  -- `http.NewRequestWithContext`
  unfoldable pub new_request : Method → Bytes → Option Bytes → M Request
  new_request method url body =
      if net.builds url
      then pure (record { method = method; url = url; basic = none; headers = []; body = body })
      else fail building

  -- `c.http.Do`
  unfoldable pub http_do : Request → M Response
  http_do req s =
      let s' : Session = record s { sent = req ∷ s.sent } in
      elim (net.answer s.sent req) [ none ↦ err transport s' | some resp ↦ ok resp s' ]

  unfoldable pub read_all : Response → M Bytes
  read_all resp = elim resp.body [ none ↦ fail reading | some b ↦ pure b ]

  unfoldable pub do_request : Method → Bytes → Option Bytes → List (String × String) → M RawResponse
  unfolding new_request http_do read_all with_headers
  do_request method url body headers =
      wrap "obsclient: building request" (new_request method url body) >>= λ req.
      wrap "obsclient: request to" (http_do (with_headers req headers)) >>= λ resp.
      wrap "obsclient: reading response from" (read_all resp) >>= λ b.
      pure (record { status = resp.status; header = resp.header; body = b })

  -- The two methods `get` and `post`, without and with a body.
  unfoldable pub get_raw : Bytes → List (String × String) → M RawResponse
  unfolding do_request
  get_raw url headers = do_request get url none headers

  unfoldable pub post_raw : Bytes → Bytes → List (String × String) → M RawResponse
  unfolding do_request
  post_raw url body headers = do_request post url (some body) headers

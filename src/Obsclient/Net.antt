-- ===== src/Obsclient/Net.antt =====
-- What internal/obsclient/client.go and auth.go see of net/http and of the target behind it.
-- The requests that a client has sent are kept in order, newest first, so that an answer may depend
-- on all that went before.
use prometheus_obs_exporter.Prelude.{
  ℕ, String, Bytes, Bool, Option, List, [], ◌∷◌, str_eq, if◌then◌else◌,
}

pub data Method : Type 0 where
  get post : Method

-- A header field set by `Header.Set`, and the value of Basic authentication, if any.
pub record Request : Type 0 where
  pub method : Method
  pub url : Bytes
  pub basic : Option (String × String)
  pub headers : List (String × String)
  pub body : Option Bytes

-- `header` is `resp.Header.Get`, "" for a missing field; a body that cannot be read is `none`.
pub record Response : Type 0 where
  pub status : ℕ
  pub header : String → String
  pub body : Option Bytes

-- The functions of net/http and net/url that the client calls: `builds` says if
-- `http.NewRequestWithContext` accepts a URL; `answer` is `http.Client.Do`, `none` for an error of
-- transport; `path_escape` is `url.PathEscape`.
pub record Net : Type 0 where
  pub builds : Bytes → Bool
  pub answer : List Request → Request → Option Response
  pub path_escape : Bytes → Bytes

-- `Header.Get` on the fields of a request.
abbrev pub field_of : String → List (String × String) → String
field_of k [] = ""
field_of k ((j, v) ∷ fields) = if str_eq j k then v else field_of k fields

-- The errors of the package: those that other packages return, the client's own, and `fmt.Errorf`
-- with %w round another error.
pub data Error : Type 0 where
  building transport reading decoding : Error
  missing : Error
  empty_target bad_ca_file no_certificates : Error
  bad_status : ℕ → Error
  no_token : Error
  unexpected : Method → Bytes → ℕ → Bytes → Error
  wrapped : String → Error → Error

-- ===== src/Examples/Target.antt =====
-- A target for the examples: it issues the token t1 to every login, answers 401 to a request with
-- the token "old", and an empty object to any other request.
use prometheus_obs_exporter.Prelude.{
  String, Bytes, utf8, true, false, Option, none, some, [], str_eq, if◌then◌else◌,
}
use prometheus_obs_exporter.Prelude.Int.{pos}
use prometheus_obs_exporter.Examples.Escapes.{path_escape}
use prometheus_obs_exporter.Obsclient.Net.{Net, Request, Response, field_of}
use prometheus_obs_exporter.Obsclient.Client.{Config, Client, Session, RawResponse}

abbrev pub with_issued_token : String → String
with_issued_token key = if str_eq key "X-SDS-AUTH-TOKEN" then "t1" else ""

abbrev pub logged_in : Response
logged_in = record { status = 200; header = with_issued_token; body = some [] }

abbrev pub turned_away : Response
turned_away = record { status = 401; header = λ _. ""; body = some (utf8 "no") }

abbrev pub served : Response
served = record { status = 200; header = λ _. ""; body = some (utf8 "{}") }

abbrev reply : Request → Response
reply req = elim req.basic [
  | some _ ↦ logged_in
  | none ↦ if str_eq (field_of "X-SDS-AUTH-TOKEN" req.headers) "old" then turned_away else served
]

abbrev pub target_net : Net
target_net = record {
  builds = λ _. true;
  answer = λ _ req. some (reply req);
  path_escape = path_escape;
}

abbrev pub some_config : Config
some_config = record {
  username = "monitor";
  password = "secret";
  mgmt_port = pos 4443;
  obj_port = pos 9021;
  tls_insecure_skip_verify = false;
  tls_ca_file = "";
  timeout = pos 30000000000;
}

abbrev pub client_with : String → Client
client_with token = record {
  target = "ecs1";
  cfg = some_config;
  http = record {
    dial_timeout = pos 10000000000;
    keep_alive = pos 30000000000;
    max_idle_conns = 100;
    idle_conn_timeout = pos 90000000000;
    tls_handshake_timeout = pos 10000000000;
    expect_continue_timeout = pos 1000000000;
    tls = record { insecure_skip_verify = false; root_cas = none };
    timeout = pos 30000000000;
  };
  auth_token = token;
}

abbrev pub session_with : String → Session
session_with token = record { client = client_with token; sent = [] }

abbrev pub url : Bytes
url = utf8 "https://ecs1:4443/dashboard/zones/localzone"

abbrev pub decode_text : Bytes → Option Bytes
decode_text body = some body

abbrev pub raw_of : Response → Bytes → RawResponse
raw_of resp body = record { status = resp.status; header = resp.header; body = body }

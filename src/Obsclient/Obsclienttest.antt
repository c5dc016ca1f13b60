-- ===== src/Obsclient/Obsclienttest.antt =====
-- internal/obsclient/obsclienttest/obsclienttest.go: the fixture server and the client that the
-- repository's own tests use. `t.Fatalf` ends the test.
use prometheus_obs_exporter.Prelude.{String, Bytes, true, Option, none, some}
use prometheus_obs_exporter.Prelude.Int.{ℤ, pos}
use prometheus_obs_exporter.Obsclient.Net.{Error}
use prometheus_obs_exporter.Obsclient.Client.{
  Config, Client, Creation, created, failed, Files, with_defaults, mgmt_url,
}
use prometheus_obs_exporter.Obsclient.Client

abbrev pub auth_token_header : String
auth_token_header = "X-SDS-AUTH-TOKEN"

abbrev pub username : String
username = "monitor"

abbrev pub password : String
password = "s3cr3t"

pub data Fatal : Type 0 where
  reading_fixture writing_fixture parsing_url parsing_port : Fatal
  creating : Error → Fatal

-- The rest of a test runs with a value, or the test has ended.
pub data Test (A : Type 0) : Type 0 where
  passed : A → Test A
  fatal : Fatal → Test A

-- `http.ResponseWriter`, on the state of the answer, and `filepath.Join` of two names. `write` is
-- `none` for an error.
pub record Writers (S : Type 0) : Type 0 where
  pub join : String → String → String
  pub set_header : String → String → S → S
  pub write : Bytes → S → Option S

module _ {S : Type 0} (files : Files) (w : Writers S) where
  unfoldable pub serve_fixture : String → S → S × Test (Unit {0})
  serve_fixture name s = elim (files.read_file (w.join "testdata" name)) [
    | none ↦ (s, fatal reading_fixture)
    | some data_read ↦
        let s' = w.set_header "Content-Type" "application/json" s in
        elim (w.write data_read s') [
          | none ↦ (s', fatal writing_fixture)
          | some s'' ↦ (s'', passed tt)
        ]
  ]

-- net/url and `strconv.Atoi`; `none` for their errors.
pub record Urls (U : Type 0) : Type 0 where
  pub parse : String → Option U
  pub hostname : U → String
  pub port : U → String
  pub atoi : String → Option ℤ

abbrev pub config_of : String → String → ℤ → Config
config_of user pass port = record {
  username = user;
  password = pass;
  mgmt_port = port;
  obj_port = pos 0;
  tls_insecure_skip_verify = true;
  tls_ca_file = "";
  timeout = pos 0;
}

abbrev pub client_or_fatal : Creation Client → Test Client
client_or_fatal (created c) = passed c
client_or_fatal (failed e) = fatal (creating e)

module _ {U : Type 0} (files : Files) (urls : Urls U) where
  unfoldable pub new_test_client : String → String → String → Test Client
  new_test_client server_url user pass = elim (urls.parse server_url) [
    | none ↦ fatal parsing_url
    | some u ↦ elim (urls.atoi (urls.port u)) [
      | none ↦ fatal parsing_port
      | some port ↦ client_or_fatal (Client.new files (urls.hostname u) (config_of user pass port))
    ]
  ]

-- ===== src/Examples/Fixtures.antt =====
-- A client of a test server (obsclienttest.go).
use prometheus_obs_exporter.Prelude.{
  refl, decimal, ◌≡◌, Option, none, [], String, Bytes, utf8, some, ◌++◌,
}
use prometheus_obs_exporter.Prelude.Int.{pos, decimal_int}
use prometheus_obs_exporter.Obsclient.Client.{Client, mgmt_url}
use prometheus_obs_exporter.Obsclient.Client
use prometheus_obs_exporter.Obsclient.Obsclienttest.{
  Urls, Test, Writers, passed, fatal, parsing_port, reading_fixture, username, password,
  new_test_client, serve_fixture,
}
use prometheus_obs_exporter.Examples.World.{files}

abbrev urls : Urls String
urls = record {
  parse = λ s. some s;
  hostname = λ _. "127.0.0.1";
  port = λ _. "36541";
  atoi = λ _. some (pos 36541);
}

abbrev server : String
server = "https://127.0.0.1:36541"

-- The client of a test server asks it for a path over https.
abbrev asked_at : Test Client → Option Bytes
asked_at (passed c) = some (mgmt_url c (utf8 "/user/whoami"))
asked_at (fatal e) = none

asks_the_server :
    asked_at (new_test_client files urls server username password)
    ≡ some (utf8 "https://127.0.0.1:36541/user/whoami")
unfolding new_test_client Client.new mgmt_url decimal_int decimal
asks_the_server = refl

no_port_no_client :
    new_test_client files (record urls { atoi = λ _. none }) server username password
    ≡ fatal parsing_port
unfolding new_test_client
no_port_no_client = refl

abbrev writers : Writers Bytes
writers = record {
  join = λ dir name. name;
  set_header = λ k v s. s;
  write = λ data_read s. some (s ++ data_read);
}

missing_fixture : serve_fixture files writers "nodes.json" [] ≡ ([], fatal reading_fixture)
unfolding serve_fixture
missing_fixture = refl

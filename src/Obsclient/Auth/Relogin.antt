-- ===== src/Obsclient/Auth/Relogin.antt =====
-- `Login` of auth.go, called on a client that holds a token.
use prometheus_obs_exporter.Prelude.{suc, utf8, Bytes, ◌≡◌, true, arith, ◌∙◌, ap}
use prometheus_obs_exporter.Obsclient.Net.{Net}
use prometheus_obs_exporter.Obsclient.Client.{Session, after, mgmt_url, new_request, http_do}
use prometheus_obs_exporter.Obsclient.Auth.{login}
use prometheus_obs_exporter.Obsclient.Auth.Trace.{logins}

login-sent :
    (net : Net) (s : Session)
    → net.builds (mgmt_url s.client (utf8 "/login")) ≡ true
    → logins (after (login net s)).sent ≡ suc (logins s.sent)
unfolding login new_request http_do
login-sent net s b = ground arith

-- The comment of `Login` says that calls at one time make no second login. The code makes one for
-- each call: when the URLs can be built, two calls of `Login`, one after the other as `authMu` has
-- them, send two logins, also when the first has got a token.
pub login_twice :
    (net : Net) (s : Session)
    → ((url : Bytes) → net.builds url ≡ true)
    → logins (after (login net (after (login net s)))).sent ≡ suc (suc (logins s.sent))
login_twice net s builds =
    login-sent net (after (login net s)) (builds _) ∙ ap suc (login-sent net s (builds _))

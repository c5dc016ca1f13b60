-- ===== src/Examples/Auth.antt =====
-- The calls of internal/obsclient/auth.go against the target of the examples.
use prometheus_obs_exporter.Prelude.{
  inl, ap, some, [], ◌∷◌, Bytes, String, false, true, str_eq, utf8, ◌≡◌, ◌≢◌, ◌⊎◌, ◌↔◌, refl, none,
}
use text.Mathlib.TextPositions.{eq_refl}
use prometheus_obs_exporter.Obsclient.Net.{get}
use prometheus_obs_exporter.Obsclient.Client.{ok, Session, after}
use prometheus_obs_exporter.Obsclient.Auth.{
  login, call_authenticated_json, ensure_logged_in, invalidate_token, logout, read_answer,
  request_with_token, retry_unauthorized, settle,
}
use prometheus_obs_exporter.Obsclient.Auth.Relogin.{login_twice}
use prometheus_obs_exporter.Obsclient.Auth.Trace.{logins}
use prometheus_obs_exporter.Obsclient.Auth.Bounds.{call-Spends, Spends}
use prometheus_obs_exporter.Obsclient.Auth.Tokens.{IsGenuine, call-IsGenuine, logout-IsGenuine}
use prometheus_obs_exporter.Obsclient.Auth.Replies.{call_ok-Answered, Answered}
use prometheus_obs_exporter.Obsclient.Auth.Retry.{refused_together, logout_answered}
use prometheus_obs_exporter.Obsclient.Auth.Retry.Traffic.{
  call_retried, token_request, login_request,
}
use prometheus_obs_exporter.Examples.Target.{
  target_net, session_with, url, decode_text, raw_of, served, turned_away, logged_in,
}

nonempty : (s : String) → str_eq s "" ≡ false → s ≢ ""
nonempty s h e = let p : str_eq s s ≡ true = eq_refl s in cc

abbrev old_client : Session
old_client = session_with "old"

call_retried_example :
    let o = call_authenticated_json target_net decode_text get url none old_client in
    ((after o).sent
      ≡ token_request url none "t1"
        ∷ login_request old_client.client
        ∷ token_request url none "old"
        ∷ [])
    × ((after o).client ≡ record old_client.client { auth_token = "t1" })
    × ((a : Bytes)
        → (o ≡ ok a (after o)) ↔ ((served.status ≡ 200) × (decode_text (utf8 "{}") ≡ some a)))
call_retried_example =
    call_retried target_net decode_text get url none "old" "t1" old_client turned_away logged_in
      served (utf8 "no") (utf8 "{}") refl (nonempty "old" refl) refl refl refl refl refl refl refl
      refl refl

call-IsGenuine_example :
    IsGenuine target_net
      (after (call_authenticated_json target_net decode_text get url none (session_with "")))
call-IsGenuine_example =
    call-IsGenuine target_net get url none decode_text (session_with "")
      (record { held = inl refl; carried = tt })

logout-IsGenuine_example : IsGenuine target_net (after (logout target_net (session_with "")))
logout-IsGenuine_example =
    logout-IsGenuine target_net (session_with "") (record { held = inl refl; carried = tt })

call-Spends_example :
    Spends 2 2 old_client
      (after (call_authenticated_json target_net decode_text get url none old_client))
call-Spends_example = call-Spends target_net get url none decode_text old_client

abbrev retried_then : Session
retried_then = after (call_authenticated_json target_net decode_text get url none old_client)

call_ok :
    call_authenticated_json target_net decode_text get url none old_client
    ≡ ok (utf8 "{}") retried_then
unfolding call_authenticated_json settle retry_unauthorized read_answer request_with_token
    ensure_logged_in invalidate_token
call_ok = refl

call_ok-Answered_example : Answered target_net get url none decode_text (utf8 "{}") retried_then
call_ok-Answered_example =
    call_ok-Answered target_net get url none decode_text old_client retried_then (utf8 "{}") call_ok

abbrev held_client : Session
held_client = session_with "t1"

abbrev served_first : Session
served_first = after (request_with_token target_net get url none "t1" held_client)

asked_held :
    request_with_token target_net get url none "t1" held_client
    ≡ ok (raw_of served (utf8 "{}")) served_first
unfolding request_with_token
asked_held = refl

old_is_other : ◌≢◌ {A = String} "t1" "old"
old_is_other e = let p : str_eq "t1" "t1" ≡ false = ap (str_eq "t1") e in cc

abbrev refused_once : Session
refused_once = after (request_with_token target_net get url none "old" old_client)

abbrev renewed : Session
renewed =
    after (ensure_logged_in target_net (after (invalidate_token target_net "old" refused_once)))

renewing :
    ensure_logged_in target_net (after (invalidate_token target_net "old" refused_once))
    ≡ ok "t1" renewed
unfolding ensure_logged_in invalidate_token request_with_token
renewing = refl

refused_together_example :
    ensure_logged_in target_net (after (invalidate_token target_net "old" renewed))
    ≡ ok "t1" renewed
refused_together_example =
    refused_together target_net "old" "t1" refused_once renewed renewing old_is_other
      (nonempty "t1" refl)

logout_answered_example :
    ((after (logout target_net held_client)).client.auth_token ≡ "")
    × ((logout target_net held_client ≡ ok tt (after (logout target_net held_client)))
        ↔ ((served.status ≡ 200) ⊎ (served.status ≡ 401)))
    × (logout target_net (after (logout target_net held_client))
        ≡ ok tt (after (logout target_net held_client)))
logout_answered_example =
    logout_answered target_net held_client served refl (nonempty "t1" refl) refl

login_twice_example :
    logins (after (login target_net (after (login target_net (session_with ""))))).sent ≡ 2
login_twice_example = login_twice target_net (session_with "") (λ _. refl)

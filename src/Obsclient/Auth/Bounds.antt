-- ===== src/Obsclient/Auth/Bounds.antt =====
-- How many requests one authenticated call of auth.go sends.
use prometheus_obs_exporter.Prelude.{
  ℕ, inl, inr, ◌==◌, Bool-cases, ◌+◌, ◌≤◌, String, Bytes, Option, arith,
}
use prometheus_obs_exporter.Obsclient.Net.{Method, Net}
use prometheus_obs_exporter.Obsclient.Client.{
  M, Outcome, ok, err, and_then, Session, after, RawResponse,
}
use prometheus_obs_exporter.Obsclient.Auth.{
  ensure_logged_in, request_with_token, retry_unauthorized, read_answer, settle,
  call_authenticated_json,
}
use prometheus_obs_exporter.Obsclient.Auth.Trace.{
  logins, calls, ensure-sent, request-sent, invalidate-sent,
}

-- A step from `s` to `t` that sends at most `l` logins and `c` requests with a token.
abbrev pub Spends : ℕ → ℕ → Session → Session → Type 0
Spends l c s t = (logins t.sent ≤ logins s.sent + l) × (calls t.sent ≤ calls s.sent + c)

Spends-bind :
    {A B : Type 0} (l c l' c' : ℕ) (s : Session) (o : Outcome A) (f : A → M B)
    → Spends l c s (after o)
    → ((a : A) (t : Session) → Spends l' c' t (after (f a t)))
    → Spends (l + l') (c + c') s (after (and_then o f))
Spends-bind l c l' c' s (ok a t) f h k = omega (arith, k a t)
Spends-bind l c l' c' s (err e t) f h k = omega arith

module _ (net : Net) (method : Method) (url : Bytes) (body : Option Bytes) where
  retry-Spends :
      (token : String) (s : Session)
      → Spends 1 1 s (after (retry_unauthorized net method url body token s))
  unfolding retry_unauthorized
  retry-Spends token s = grind (arith, ensure-sent, request-sent, invalidate-sent)

  module _ {A : Type 0} (decode : Bytes → Option A) where
    read-Spends :
        (r : RawResponse) (s : Session)
        → Spends 0 0 s (after (read_answer net decode method url r s))
    unfolding read_answer
    read-Spends r s = ground arith

    settle-Spends :
        (token : String) (first : RawResponse) (s : Session)
        → Spends 1 1 s (after (settle net decode method url body token first s))
    unfolding settle
    settle-Spends token first s = elim (Bool-cases (first.status == 401)) [
      | inl refused ↦ rw refused (
          Spends-bind 1 1 0 0 s (retry_unauthorized net method url body token s) _
            (retry-Spends token s) read-Spends)
      | inr other ↦ rw other (omega (arith, read-Spends first s))
    ]

    -- One authenticated call sends at most two logins and at most two requests with a token,
    -- whatever the target answers.
    pub call-Spends :
        (s : Session) → Spends 2 2 s (after (call_authenticated_json net decode method url body s))
    unfolding call_authenticated_json
    call-Spends s =
        Spends-bind 1 0 1 2 s (ensure_logged_in net s) _ (omega (arith, ensure-sent net s))
          λ token t.
            Spends-bind 0 1 1 1 t (request_with_token net method url body token t) _
              (omega (arith, request-sent net method url body token t)) (settle-Spends token)

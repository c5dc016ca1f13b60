-- ===== src/Collector/Run/Tasks.antt =====
-- The calls of the client (internal/obsclient/auth.go) in a goroutine of a collector: what runs under
-- `authMu`, or one request, is one indivisible step, and other goroutines run between the steps.
pub mod Runs
pub mod Settling
pub mod Matches
use prometheus_obs_exporter.Prelude.{
  List, [], ◌∷◌, ◌++◌, String, Bytes, Bool, true, false, Option, none, some, ◌==◌, if◌then◌else◌,
}
use prometheus_obs_exporter.Goroutines.{Task, ret, act, atom, bind}
use prometheus_obs_exporter.Obsclient.Net.{Method, get, post, Net, Error, wrapped}
use prometheus_obs_exporter.Obsclient.Client.{
  Session, Outcome, ok, err, M, after, wrap, RawResponse, mgmt_url,
}
use prometheus_obs_exporter.Obsclient.Auth.{
  ensure_logged_in, invalidate_token, request_with_token, read_answer,
}
use prometheus_obs_exporter.Collector.Run.{Run, Fetched, fetched, failed, LogEntry}

abbrev pub fetched_of : {A : Type 0} → Outcome A → Fetched A
fetched_of (ok a s) = fetched a
fetched_of (err e s) = failed e

abbrev pub wrapped_error : {A : Type 0} → String → Fetched A → Fetched A
wrapped_error text (fetched a) = fetched a
wrapped_error text (failed e) = failed (wrapped text e)

abbrev pub Asking : Type 0 → Type 0 → Type 0
Asking R A = Task (Run R) (Fetched A)

module _ {R : Type 0} where
  abbrev pub asked_by : {A : Type 0} → Run R → Outcome A → Fetched A × Run R
  asked_by run o = (fetched_of o, record run { session = after o })

  -- A method of the client in one step.
  unfoldable pub asking : {A : Type 0} → M A → Asking R A
  asking m = atom (λ run. asked_by run (m run.session))

  abbrev pub unless_failed : {A B : Type 0} → (A → Asking R B) → Fetched A → Asking R B
  unless_failed k (fetched a) = k a
  unless_failed k (failed e) = ret (failed e)

  -- The rest of a call, unless there was an error.
  infixl 5 ◌>>=◌ ◌>>◌
  abbrev pub ◌>>=◌ : {A B : Type 0} → Asking R A → (A → Asking R B) → Asking R B
  t >>= k = bind t (unless_failed k)

  abbrev pub ◌>>◌ : {A B : Type 0} → Asking R A → Asking R B → Asking R B
  t >> u = t >>= λ _. u

  unfoldable pub wrap_task : {A : Type 0} → String → Asking R A → Asking R A
  wrap_task text t = bind t (λ r. ret (wrapped_error text r))

  unfoldable pub log_task : LogEntry → Task (Run R) (Unit {0})
  log_task e =
      act (λ run. record run { log = if run.settings.logger then run.log ++ e ∷ [] else run.log })
        (λ _. ret tt)

module _ {R : Type 0} (net : Net) where
  -- The branch of a 401.
  unfoldable pub retry_task : Method → Bytes → Option Bytes → String → Asking R RawResponse
  retry_task method url body token = do
    asking (invalidate_token net token)
    token' ← asking (wrap "obsclient: re-login after 401" (ensure_logged_in net))
    asking (request_with_token net method url body token')

  module _ {A : Type 0} (decode : Bytes → Option A) where
    unfoldable pub settle_task : Method → Bytes → Option Bytes → String → RawResponse → Asking R A
    settle_task method url body token first = do
      resp ← (if first.status == 401 then retry_task method url body token else ret (fetched first))
      asking (read_answer net decode method url resp)

    -- `callAuthenticatedJSON`
    unfoldable pub call_task : Method → Bytes → Option Bytes → Asking R A
    call_task method url body = do
      token ← asking (ensure_logged_in net)
      first ← asking (request_with_token net method url body token)
      settle_task method url body token first

    -- `getAuthenticatedJSON` and `postAuthenticatedJSON`, which read the client for the URL.
    unfoldable pub get_task : Bytes → Asking R A
    get_task path = act (λ run. run) (λ run. call_task get (mgmt_url run.session.client path) none)

    unfoldable pub post_task : Bytes → Bytes → Asking R A
    post_task path body =
        act (λ run. run) (λ run. call_task post (mgmt_url run.session.client path) (some body))

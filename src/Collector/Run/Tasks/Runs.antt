-- ===== src/Collector/Run/Tasks/Runs.antt =====
-- A goroutine that no other interrupts (auth.go), as a method of the client.
use prometheus_obs_exporter.Prelude.{
  String, Bytes, ◌≡◌, refl, sym, ap, ◌∙◌, Option, none, some, ◌==◌, Bool-cases, inl, inr,
}
use prometheus_obs_exporter.Goroutines.{Task, ret, act, bind, alone}
use prometheus_obs_exporter.Obsclient.Net.{Method, get, post, Net, Error}
use prometheus_obs_exporter.Obsclient.Client.{
  Outcome, ok, err, M, pure, fail, after, and_then, wrap, wrap_outcome, RawResponse, mgmt_url,
}
use prometheus_obs_exporter.Obsclient.Auth.{
  ensure_logged_in, invalidate_token, request_with_token, read_answer, retry_unauthorized, settle,
  call_authenticated_json, get_authenticated_json, post_authenticated_json,
}
use prometheus_obs_exporter.Collector.Run.{Run, Fetched, fetched, failed, done, kept, call}
use prometheus_obs_exporter.Collector.Run.Tasks.{
  fetched_of, wrapped_error, Asking, asked_by, asking, unless_failed, ◌>>=◌, wrap_task, retry_task,
  settle_task, call_task, get_task, post_task,
}

pub alone-bind :
    {S A B : Type 0} (t : Task S A) (k : A → Task S B) (s : S)
    → alone (bind t k) s ≡ alone (k (alone t s).0) (alone t s).1
unfolding alone bind
alone-bind (ret a) k s = refl
alone-bind (act f t) k s = alone-bind (t s) k (f s)

module _ {R : Type 0} where
  -- In one piece the goroutine does what the method does, on every state.
  abbrev pub Runs : {A : Type 0} → Asking R A → M A → Type 0
  Runs t m = (run : Run R) → alone t run ≡ asked_by run (m run.session)

  asking-Runs : {A : Type 0} (m : M A) → Runs (asking m) m
  unfolding asking alone
  asking-Runs m run = refl

  pub failed-Runs : {A : Type 0} (e : Error) → Runs (ret (failed e)) (fail {A = A} e)
  unfolding alone
  failed-Runs e run = refl

  pub ret-Runs : {A : Type 0} (a : A) → Runs (ret (fetched a)) (pure a)
  unfolding alone
  ret-Runs a run = refl

  continued :
      {A B : Type 0} (k : A → Asking R B) (k' : A → M B) (run : Run R) (o : Outcome A)
      → ((a : A) → Runs (k a) (k' a))
      → alone (unless_failed k (fetched_of o)) (record run { session = after o })
        ≡ asked_by run (and_then o k')
  unfolding alone
  continued k k' run (ok a s) h = h a (record run { session = s })
  continued k k' run (err e s) h = refl

  pub bind-Runs :
      {A B : Type 0} (t : Asking R A) (m : M A) (k : A → Asking R B) (k' : A → M B)
      → Runs t m
      → ((a : A) → Runs (k a) (k' a))
      → Runs (t >>= k) (λ s. and_then (m s) k')
  bind-Runs t m k k' h next run =
      alone-bind t (unless_failed k) run
      ∙ ap (λ (p : Fetched _ × Run R). alone (unless_failed k p.0) p.1) (h run)
      ∙ continued k k' run (m run.session) next

  wrapped_outcome :
      {A : Type 0} (text : String) (run : Run R) (o : Outcome A)
      → alone (ret (wrapped_error text (fetched_of o))) (record run { session = after o })
        ≡ asked_by run (wrap_outcome text o)
  unfolding alone
  wrapped_outcome text run (ok a s) = refl
  wrapped_outcome text run (err e s) = refl

  pub wrap-Runs :
      {A : Type 0} (text : String) (t : Asking R A) (m : M A)
      → Runs t m
      → Runs (wrap_task text t) (wrap text m)
  unfolding wrap_task
  wrap-Runs text t m h run =
      alone-bind t (λ r. ret (wrapped_error text r)) run
      ∙ ap (λ (p : Fetched _ × Run R). alone (ret (wrapped_error text p.0)) p.1) (h run)
      ∙ wrapped_outcome text run (m run.session)

  kept_asked :
      {A : Type 0} (run : Run R) (o : Outcome A)
      → kept run o ≡ done (fetched_of o) (record run { session = after o })
  kept_asked run (ok a s) = refl
  kept_asked run (err e s) = refl

  pub Runs-call :
      {A : Type 0} (t : Asking R A) (m : M A)
      → Runs t m
      → (run : Run R) → call m run ≡ done (alone t run).0 (alone t run).1
  Runs-call t m h run =
      kept_asked run (m run.session) ∙ ap (λ (p : Fetched _ × Run R). done p.0 p.1) (sym (h run))

module _ {R : Type 0} (net : Net) where
  retry-Runs :
      (method : Method) (url : Bytes) (body : Option Bytes) (token : String)
      → Runs {R = R}
          (retry_task net method url body token)
          (retry_unauthorized net method url body token)
  unfolding retry_task retry_unauthorized
  retry-Runs method url body token =
      bind-Runs (asking (invalidate_token net token)) (invalidate_token net token) _ _
        (asking-Runs _)
        (λ _.
          bind-Runs (asking _) _ _ _
            (asking-Runs (wrap "obsclient: re-login after 401" (ensure_logged_in net)))
            (λ token'. asking-Runs (request_with_token net method url body token')))

  module _ {A : Type 0} (decode : Bytes → Option A) where
    settle-Runs :
        (method : Method) (url : Bytes) (body : Option Bytes) (token : String) (first : RawResponse)
        → Runs {R = R}
            (settle_task net decode method url body token first)
            (settle net decode method url body token first)
    unfolding settle_task settle
    settle-Runs method url body token first = elim (Bool-cases (first.status == 401)) [
      | inl refused ↦
          rw (settle_task, settle, refused)
            (bind-Runs (retry_task net method url body token)
              (retry_unauthorized net method url body token) _ _ (retry-Runs method url body token)
              (λ resp. asking-Runs (read_answer net decode method url resp)))
      | inr taken ↦
          rw (settle_task, settle, taken)
            (bind-Runs (ret (fetched first)) (pure first) _ _ (ret-Runs first)
              (λ resp. asking-Runs (read_answer net decode method url resp)))
    ]

    call-Runs :
        (method : Method) (url : Bytes) (body : Option Bytes)
        → Runs {R = R}
            (call_task net decode method url body)
            (call_authenticated_json net decode method url body)
    unfolding call_task call_authenticated_json
    call-Runs method url body =
        bind-Runs (asking (ensure_logged_in net)) (ensure_logged_in net) _ _
          (asking-Runs (ensure_logged_in net))
          (λ token.
            bind-Runs (asking (request_with_token net method url body token))
              (request_with_token net method url body token) _ _
              (asking-Runs (request_with_token net method url body token))
              (λ first. settle-Runs method url body token first))

    pub get-Runs :
        (path : Bytes)
        → Runs {R = R} (get_task net decode path) (get_authenticated_json net decode path)
    unfolding get_task get_authenticated_json alone
    get-Runs path run = call-Runs get (mgmt_url run.session.client path) none run

    pub post-Runs :
        (path body : Bytes)
        → Runs {R = R}
            (post_task net decode path body)
            (post_authenticated_json net decode path body)
    unfolding post_task post_authenticated_json alone
    post-Runs path body run = call-Runs post (mgmt_url run.session.client path) (some body) run

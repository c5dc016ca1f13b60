-- ===== src/Collector/Run/Tasks/Settling.antt =====
-- Goroutines (auth.go) of a client that holds a token, at a target that accepts it.
use prometheus_obs_exporter.Prelude.{
  String, Bytes, ◌≡◌, refl, ap, ◌∙◌, ◌⊎◌, inl, inr, Option, none, some,
}
use prometheus_obs_exporter.Goroutines.{Task, ret, act, bind}
use prometheus_obs_exporter.Goroutines.Settled.{Settled, bind-Settled}
use prometheus_obs_exporter.Obsclient.Net.{Method, get, post, Net, Error}
use prometheus_obs_exporter.Obsclient.Client.{Client, Session, M, after, RawResponse, mgmt_url}
use prometheus_obs_exporter.Obsclient.Auth.{ensure_logged_in, request_with_token, read_answer}
use prometheus_obs_exporter.Obsclient.Auth.Steady.{
  Steady, HasToken, Any, Accepted, give, WhenOk, IsSettled, request-IsSettled, ensure-IsSettled,
  read_answer-IsSettled,
}
use prometheus_obs_exporter.Collector.Run.{Run, Fetched, fetched, failed, LogEntry}
use prometheus_obs_exporter.Collector.Run.Tasks.{
  fetched_of, wrapped_error, Asking, asking, unless_failed, ◌>>=◌, wrap_task, log_task, settle_task,
  call_task, get_task, post_task,
}

abbrev WhenFetched : {A : Type 0} → (A → Type 0) → Fetched A → Type 0
WhenFetched Q (fetched a) = Q a
WhenFetched Q (failed e) = Unit {0}

abbrev to_fetched : {A : Type 0} → Error ⊎ A → Fetched A
to_fetched (inl e) = failed e
to_fetched (inr a) = fetched a

fetched_give : {A : Type 0} (r : Error ⊎ A) (t : Session) → fetched_of (give r t) ≡ to_fetched r
fetched_give (inl e) t = refl
fetched_give (inr a) t = refl

after-give : {A : Type 0} (r : Error ⊎ A) (t : Session) → after (give r t) ≡ t
after-give (inl e) t = refl
after-give (inr a) t = refl

when_given :
    {A : Type 0} (Q : A → Type 0) (r : Error ⊎ A) → WhenOk Q r → WhenFetched Q (to_fetched r)
when_given Q (inl e) h = tt
when_given Q (inr a) h = h

module _ (R : Type 0) (c : Client) where
  abbrev pub KeepsClient : Run R → Type 0
  KeepsClient run = run.session.client ≡ c

  -- A goroutine gives one result, whatever the others do, and the client stays `c`.
  abbrev pub IsSteady : {A : Type 0} → Task (Run R) A → Type 0
  IsSteady {A} t = (a : A) × Settled KeepsClient a t

  pub bind-IsSteady :
      {A B : Type 0} (t : Task (Run R) A) (k : A → Task (Run R) B)
      → IsSteady t
      → ((a : A) → IsSteady (k a))
      → IsSteady (bind t k)
  bind-IsSteady t k (a, h) next = let (b, h') = next a in (b, bind-Settled KeepsClient a b t k h h')

  pub ret-IsSteady : {A : Type 0} (a : A) → IsSteady (ret a)
  ret-IsSteady a = (a, refl)

  pub log-IsSteady : (e : LogEntry) → IsSteady (log_task e)
  unfolding log_task
  log-IsSteady e = (tt, λ run h. (h, refl))

  unless_failed-IsSteady :
      {A B : Type 0} (k : A → Asking R B) (r : Fetched A)
      → ((a : A) → IsSteady (k a))
      → IsSteady (unless_failed k r)
  unless_failed-IsSteady k (fetched a) h = h a
  unless_failed-IsSteady k (failed e) h = ret-IsSteady (failed e)

  pub then-IsSteady :
      {A B : Type 0} (t : Asking R A) (k : A → Asking R B)
      → IsSteady t
      → ((a : A) → IsSteady (k a))
      → IsSteady (t >>= k)
  then-IsSteady t k h next =
      bind-IsSteady t (unless_failed k) h (λ r. unless_failed-IsSteady k r next)

  -- The same with what holds of the result, when there is no error.
  abbrev Gives : {A : Type 0} → (A → Type 0) → Asking R A → Type 0
  Gives {A} Q t = (r : Fetched A) × WhenFetched Q r × Settled KeepsClient r t

  asking-Gives : {A : Type 0} (Q : A → Type 0) (m : M A) → IsSettled c Q m → Gives Q (asking m)
  unfolding asking
  asking-Gives Q m (r, q, p) = (
    to_fetched r,
    when_given Q r q,
    λ run h.
        let (t, same, kept) = p run.session h in
        (
          ap (λ o. (after o).client) same ∙ ap (λ s. s.client) (after-give r t) ∙ kept,
          ap fetched_of same ∙ fetched_give r t,
        ),
  )

  bind-Gives :
      {A B : Type 0} (Q : A → Type 0) (P : B → Type 0) (t : Asking R A) (k : A → Asking R B)
      → Gives Q t
      → ((a : A) → Q a → Gives P (k a))
      → Gives P (t >>= k)
  bind-Gives Q P t k (failed e, q, h) next =
      (failed e, tt, bind-Settled KeepsClient (failed e) (failed e) t (unless_failed k) h refl)
  bind-Gives Q P t k (fetched a, q, h) next =
      let (r, q', h') = next a q in
      (r, q', bind-Settled KeepsClient (fetched a) r t (unless_failed k) h h')

  pub wrap-IsSteady :
      {A : Type 0} (text : String) (t : Asking R A) → IsSteady t → IsSteady (wrap_task text t)
  unfolding wrap_task
  wrap-IsSteady text t h = bind-IsSteady t _ h (λ r. ret-IsSteady (wrapped_error text r))

  -- A call at the URL of a path of the client.
  read_client-IsSteady :
      {A : Type 0} (k : Client → Asking R A)
      → IsSteady (k c)
      → IsSteady (act (λ run. run) (λ run. k run.session.client))
  read_client-IsSteady k (r, h) = (r, λ run held. (held, rw held h))

module _ (R : Type 0) (net : Net) (steady : Steady net) (c : Client) (held : HasToken c)
    {A : Type 0} (decode : Bytes → Option A) where
  settle-Gives :
      (method : Method) (url : Bytes) (body : Option Bytes) (token : String) (first : RawResponse)
      → Accepted first
      → Gives R c Any (settle_task net decode method url body token first)
  unfolding settle_task
  settle-Gives method url body token first accepted =
      rw (settle_task, accepted)
        (bind-Gives R c Any Any (ret (fetched first)) _ (fetched first, tt, refl)
          (λ resp _.
            asking-Gives R c Any (read_answer net decode method url resp)
              (read_answer-IsSettled net steady c decode method url resp)))

  call-Gives :
      (method : Method) (url : Bytes) (body : Option Bytes)
      → Gives R c Any (call_task net decode method url body)
  unfolding call_task
  call-Gives method url body =
      bind-Gives R c Any Any (asking (ensure_logged_in net)) _
        (asking-Gives R c Any (ensure_logged_in net) (ensure-IsSettled net steady c held))
        (λ token _.
          bind-Gives R c Accepted Any (asking (request_with_token net method url body token)) _
            (asking-Gives R c Accepted (request_with_token net method url body token)
              (request-IsSettled net steady c method url body token))
            (λ first accepted. settle-Gives method url body token first accepted))

  call-IsSteady :
      (method : Method) (url : Bytes) (body : Option Bytes)
      → IsSteady R c (call_task net decode method url body)
  call-IsSteady method url body = let (r, _, h) = call-Gives method url body in (r, h)

  pub get-IsSteady : (path : Bytes) → IsSteady R c (get_task net decode path)
  unfolding get_task
  get-IsSteady path =
      read_client-IsSteady R c (λ x. call_task net decode get (mgmt_url x path) none)
        (call-IsSteady get (mgmt_url c path) none)

  pub post-IsSteady : (path body : Bytes) → IsSteady R c (post_task net decode path body)
  unfolding post_task
  post-IsSteady path body =
      read_client-IsSteady R c (λ x. call_task net decode post (mgmt_url x path) (some body))
        (call-IsSteady post (mgmt_url c path) (some body))

-- ===== src/Obsclient/DtStats/Tasks.antt =====
-- The goroutines of `GetAllNodeDTStats` (dtstats.go), whose steps interleave: the two calls for a
-- node are a step each, and so is the write of its slot.
use prometheus_obs_exporter.Prelude.{
  ℕ, zero, suc, ◌+◌, ◌<◌, String, ◌≡◌, refl, ap, sym, ◌∙◌, inl, inr, some, List, [], ◌∷◌, get_elem?,
  set, length, arith,
}
use prometheus_obs_exporter.Goroutines.{Task, ret, act, alone, System, launched, Steps, AllOver}
use prometheus_obs_exporter.Goroutines.Cells.{Writes, EachWrites, Has, AllOver-Has}
use prometheus_obs_exporter.Obsclient.Net.{Net}
use prometheus_obs_exporter.Obsclient.Client.{Session, Outcome, ok, err, M, after, wrap}
use prometheus_obs_exporter.Obsclient.FlexNumber.{Float64}
use prometheus_obs_exporter.Obsclient.Types.{DtInitStat, PingResponse, Decoders}
use prometheus_obs_exporter.Obsclient.DtStats.{
  NodeDtStats, get_dt_init_stat, get_ping, blank, pinged, with_tables, counted, get_node_dt_stats,
  zeroed,
}

module _ {W : Type 0} (net : Net) (f : Float64 W) (dec : Decoders W) where
  abbrev pub tables : String → M (DtInitStat W)
  tables node = wrap "obsclient: dt stats for node" (get_dt_init_stat net f dec node)

  abbrev pub pinging : String → M (PingResponse W)
  pinging node = wrap "obsclient: ping for node" (get_ping net f dec node)

  -- `results[i] = ...`
  unfoldable pub write_task : ℕ → NodeDtStats W → Task (Session × List (NodeDtStats W)) (Unit {0})
  write_task i r = act (λ s. (s.0, set s.1 i r)) (λ _. ret tt)

  unfoldable pub ping_task :
      ℕ → String → Outcome (DtInitStat W) → Task (Session × List (NodeDtStats W)) (Unit {0})
  unfolding write_task
  ping_task i node (err e s) = write_task i (record (blank net f dec node) { error = some e })
  ping_task i node (ok d s) =
      act (λ s. (after (pinging node s.0), s.1))
        (λ s.
          write_task i
            (pinged net f dec (with_tables net f dec (blank net f dec node) d)
              (pinging node s.0)).0)

  -- The goroutine of a node.
  unfoldable pub node_task : ℕ → String → Task (Session × List (NodeDtStats W)) (Unit {0})
  unfolding ping_task
  node_task i node =
      act (λ s. (after (tables node s.0), s.1)) (λ s. ping_task i node (tables node s.0))

  unfoldable pub node_tasks :
      ℕ → List String → List (Task (Session × List (NodeDtStats W)) (Unit {0}))
  unfolding node_task
  node_tasks i [] = []
  node_tasks i (node ∷ nodes) = node_task i node ∷ node_tasks (suc i) nodes

  -- The result of a node from the outcomes of its two calls; the second is not made when the first
  -- fails.
  abbrev pub stats_of : String → Outcome (DtInitStat W) → Outcome (PingResponse W) → NodeDtStats W
  stats_of node (err e s) p = record (blank net f dec node) { error = some e }
  stats_of node (ok d s) p = (pinged net f dec (with_tables net f dec (blank net f dec node) d) p).0

  -- What the two calls for the node at a position gave, each in some state of the client.
  abbrev pub GivenAt : List String → ℕ → NodeDtStats W → Type 0
  GivenAt nodes i r =
      (node : String) × (s s' : Session) × (get_elem? nodes i ≡ some node)
      × (r ≡ stats_of node (tables node s) (pinging node s'))

  pinged-after :
      (r : NodeDtStats W) (o : Outcome (PingResponse W)) → (pinged net f dec r o).1 ≡ after o
  pinged-after r (ok p s) = refl
  pinged-after r (err e s) = refl

  ping_task-alone :
      (i : ℕ) (node : String) (o : Outcome (DtInitStat W)) (rs : List (NodeDtStats W))
      → alone (ping_task i node o) (after o, rs)
        ≡ (tt, ((counted net f dec node o).1, set rs i (counted net f dec node o).0))
  unfolding alone ping_task write_task
  ping_task-alone i node (err e s) rs = refl
  ping_task-alone i node (ok d s) rs =
      ap (λ t. (tt, (t, set rs i (counted net f dec node (ok d s)).0)))
        (sym (pinged-after _ (pinging node s)))

  -- In one piece the goroutine is `GetNodeDTStats` and the write.
  pub alone-node_task :
      (i : ℕ) (node : String) (s : Session) (rs : List (NodeDtStats W))
      → alone (node_task i node) (s, rs) ≡ (
        tt,
        ((get_node_dt_stats net f dec node s).1, set rs i (get_node_dt_stats net f dec node s).0),
      )
  unfolding alone node_task get_node_dt_stats
  alone-node_task i node s rs = ping_task-alone i node (tables node s) rs

  write_task-Writes :
      (nodes : List String) (i : ℕ) (r : NodeDtStats W)
      → GivenAt nodes i r
      → Writes (GivenAt nodes) i (write_task i r)
  unfolding write_task
  write_task-Writes nodes i r given = λ s. inr (r, refl, given, tt)

  ping_task-Writes :
      (nodes : List String) (i : ℕ) (node : String) (s : Session) (o : Outcome (DtInitStat W))
      → get_elem? nodes i ≡ some node
      → o ≡ tables node s
      → Writes (GivenAt nodes) i (ping_task i node o)
  unfolding ping_task
  ping_task-Writes nodes i node s (err e s') at same =
      write_task-Writes nodes i _ (node, s, s, at, ap (λ o. stats_of node o (pinging node s)) same)
  ping_task-Writes nodes i node s (ok d s') at same = λ t. inl (
    refl,
    write_task-Writes nodes i _
        (node, s, t.0, at, ap (λ o. stats_of node o (pinging node t.0)) same),
  )

  node_task-Writes :
      (nodes : List String) (i : ℕ) (node : String)
      → get_elem? nodes i ≡ some node
      → Writes (GivenAt nodes) i (node_task i node)
  unfolding node_task
  node_task-Writes nodes i node at =
      λ s. inl (refl, ping_task-Writes nodes i node s.0 (tables node s.0) at refl)

  node_tasks-at :
      (k : ℕ) (nodes : List String) (i : ℕ) (t : Task (Session × List (NodeDtStats W)) (Unit {0}))
      → get_elem? (node_tasks k nodes) i ≡ some t
      → (node : String) × (get_elem? nodes i ≡ some node) × (node_task (k + i) node ≡ t)
  unfolding node_tasks
  node_tasks-at k [] i t at = absurd cc
  node_tasks-at k (node ∷ nodes) zero t at =
      let same : node_task k node ≡ t = cc in
      (node, refl, ap (λ n. node_task n node) (let e : k + 0 ≡ k = omega arith in e) ∙ same)
  node_tasks-at k (node ∷ nodes) (suc i) t at =
      let (own, there, same) = node_tasks-at (suc k) nodes i t at in
      (
        own,
        there,
        ap (λ n. node_task n own) (let e : k + suc i ≡ suc k + i = omega arith in e) ∙ same,
      )

  node_tasks-EachWrites : (nodes : List String) → EachWrites (GivenAt nodes) (node_tasks 0 nodes)
  node_tasks-EachWrites nodes i t at =
      let (node, there, same) = node_tasks-at 0 nodes i t at in
      let e : 0 + i ≡ i = omega arith in rw (← same, e) (node_task-Writes nodes i node there)

  length-node_tasks : (k : ℕ) (nodes : List String) → length (node_tasks k nodes) ≡ length nodes
  unfolding node_tasks
  length-node_tasks k [] = refl
  length-node_tasks k (node ∷ nodes) = ap suc (length-node_tasks (suc k) nodes)

  length-zeroed : (nodes : List String) → length (zeroed net f dec nodes) ≡ length nodes
  unfolding zeroed
  length-zeroed [] = refl
  length-zeroed (_ ∷ nodes) = ap suc (length-zeroed nodes)

  -- However the goroutines of the nodes interleave, between the two calls for a node as well, and
  -- whatever the target answers: once all have ended, the result has a slot for each node, in the
  -- order of the nodes, and the slot holds what the two calls for its own node gave, each in some
  -- state of the client.
  pub slots_interleaved :
      (size : ℕ) (nodes : List String) (s : Session)
      (q : System (Session × List (NodeDtStats W)) (Unit {0}))
      → Steps size (launched (node_tasks 0 nodes) (s, zeroed net f dec nodes)) q
      → AllOver q
      → (i : ℕ) → i < length nodes
      → Has (GivenAt nodes) i q.state.1
  slots_interleaved size nodes s q r all i lt =
      AllOver-Has (GivenAt nodes) size (node_tasks 0 nodes) s (zeroed net f dec nodes) q
        (length-zeroed nodes ∙ sym (length-node_tasks 0 nodes)) (node_tasks-EachWrites nodes) r all
        i (omega (arith, length-node_tasks 0 nodes))

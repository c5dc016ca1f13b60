-- ===== src/Obsclient/DtStats/Slots.antt =====
-- The slots of the result of `GetAllNodeDTStats` (dtstats.go).
use prometheus_obs_exporter.Prelude.{
  ℕ, ◌<◌, String, ◌≡◌, refl, ◌⊎◌, inl, inr, none, some, List, [], ◌∷◌, arith, get_elem?, set,
  length, length-set, get_elem?-set_self, get_elem?-set_ne, lt-length_of_get_elem?,
  get_elem?-ne-none, ◌∙◌, Option-cases, ◌==◌, Bool-cases,
}
use prometheus_obs_exporter.Obsclient.Net.{Net}
use prometheus_obs_exporter.Obsclient.Client.{Session}
use prometheus_obs_exporter.Obsclient.FlexNumber.{Float64}
use prometheus_obs_exporter.Obsclient.Types.{Decoders}
use prometheus_obs_exporter.Obsclient.DtStats.{
  NodeDtStats, get_node_dt_stats, fill_slots, zeroed, get_all_node_dt_stats,
}

abbrev pub Listed : ℕ → List ℕ → Type 0
Listed i [] = ⊥
Listed i (j ∷ js) = (i ≡ j) ⊎ Listed i js

module _ {W : Type 0} (net : Net) (f : Float64 W) (dec : Decoders W) where
  -- Slot `i` holds what the goroutine of node `i` got in some state of the client.
  abbrev pub Filled : List String → List (NodeDtStats W) → ℕ → Type 0
  Filled nodes results i =
      (node : String) × (s : Session) × (get_elem? nodes i ≡ some node)
      × (get_elem? results i ≡ some (get_node_dt_stats net f dec node s).0)

  length-zeroed : (nodes : List String) → length (zeroed net f dec nodes) ≡ length nodes
  unfolding zeroed
  length-zeroed [] = refl
  length-zeroed (_ ∷ nodes) = omega (arith, length-zeroed nodes)

  module _ (nodes : List String) (j : ℕ) (node : String) (s : Session) where
    stored : List (NodeDtStats W) → List (NodeDtStats W)
    stored results = set results j (get_node_dt_stats net f dec node s).0

    set_own :
        (results : List (NodeDtStats W))
        → length results ≡ length nodes
        → get_elem? nodes j ≡ some node
        → Filled nodes (stored results) j
    unfolding stored
    set_own results e at = (
      node,
      s,
      at,
      get_elem?-set_self results j _ (omega (arith, lt-length_of_get_elem? nodes j at)),
    )

    -- The write of one goroutine fills its slot and leaves the others as they are.
    set-Filled :
        (results : List (NodeDtStats W)) (order : List ℕ) (i : ℕ)
        → length results ≡ length nodes
        → get_elem? nodes j ≡ some node
        → Filled nodes results i ⊎ Listed i (j ∷ order)
        → Filled nodes (stored results) i ⊎ Listed i order
    unfolding stored
    set-Filled results order i e at (inr (inr later)) = inr later
    set-Filled results order i e at (inr (inl same)) = inl (rw same (set_own results e at))
    set-Filled results order i e at (inl (node', s', at', filled)) = elim (Bool-cases (j == i)) [
      | inl same ↦ let p : j ≡ i = ground arith in inl (rw (← p) (set_own results e at))
      | inr other ↦ inl (node', s', at', get_elem?-set_ne results j i _ (ground arith) ∙ filled)
    ]

  not_listed :
      (nodes : List String) (i j : ℕ) (order : List ℕ) {P : Type 0}
      → i < length nodes
      → get_elem? nodes j ≡ none
      → P ⊎ Listed i (j ∷ order)
      → P ⊎ Listed i order
  not_listed nodes i j order lt gone (inl h) = inl h
  not_listed nodes i j order lt gone (inr (inr l)) = inr l
  not_listed nodes i j order lt gone (inr (inl same)) =
      absurd (get_elem?-ne-none nodes i lt (rw same gone))

  fill_slots-Filled :
      (nodes : List String) (order : List ℕ) (results : List (NodeDtStats W)) (s : Session) (i : ℕ)
      → length results ≡ length nodes
      → i < length nodes
      → Filled nodes results i ⊎ Listed i order
      → Filled nodes (fill_slots net f dec nodes order results s).0 i
  unfolding fill_slots stored
  fill_slots-Filled nodes [] results s i e lt (inl h) = h
  fill_slots-Filled nodes [] results s i e lt (inr h) = absurd h
  fill_slots-Filled nodes (j ∷ order) results s i e lt h = elim (Option-cases (get_elem? nodes j)) [
    | inl gone ↦
        rw (gone, fill_slots)
          (fill_slots-Filled nodes order results s i e lt (not_listed nodes i j order lt gone h))
    | inr (node, at) ↦
        rw (at, fill_slots)
          (fill_slots-Filled nodes order (stored nodes j node s results)
            (get_node_dt_stats net f dec node s).1 i (length-set results j _ ∙ e) lt
            (set-Filled nodes j node s results order i e at h))
  ]

  -- Once every goroutine has run, in whatever order, the result has a slot for each node, in the
  -- order of the nodes, and each slot holds what the calls for its own node gave.
  pub get_all-Filled :
      (order : List ℕ) (nodes : List String) (s : Session)
      → ((i : ℕ) → i < length nodes → Listed i order)
      → (i : ℕ) → i < length nodes
      → Filled nodes (get_all_node_dt_stats net f dec order nodes s).0 i
  unfolding get_all_node_dt_stats
  get_all-Filled order nodes s all i lt =
      fill_slots-Filled nodes order _ s i (length-zeroed nodes) lt (inr (all i lt))

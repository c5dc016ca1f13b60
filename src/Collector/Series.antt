-- ===== src/Collector/Series.antt =====
-- The time series that metrics belong to. client_golang's registry gives an error in place of the
-- metrics when two of them have one name and the same values of the labels.
pub mod Sources
use prometheus_obs_exporter.Prelude.{
  ℕ, ◌≡◌, ◌≢◌, ◌⊎◌, inl, inr, refl, sym, ◌∙◌, ap, String, Bool, true, false, not, ◌&&◌, ◌||◌,
  Option, none, some, List, [], ◌∷◌, ◌++◌, arith, str_eq, All, All-append, concat_map, Bool-cases,
  Option-cases,
}
use text.Mathlib.TextPositions.{eq_refl}
use prometheus_obs_exporter.Collector.Metrics.{Desc, Metric, gauge, when_valid}

module _ {W : Type 0} where
  abbrev pub Differ : Metric W → Metric W → Type 0
  Differ a b = (a.desc.name ≢ b.desc.name) ⊎ (a.label_values ≢ b.label_values)

  -- No two metrics belong to one series.
  abbrev pub HasDistinctSeries : List (Metric W) → Type 0
  HasDistinctSeries [] = Unit {0}
  HasDistinctSeries (m ∷ ms) = All (Differ m) ms × HasDistinctSeries ms

  abbrev pub Apart : List (Metric W) → List (Metric W) → Type 0
  Apart xs ys = All (λ a. All (Differ a) ys) xs

  pub append-HasDistinctSeries :
      (xs ys : List (Metric W))
      → HasDistinctSeries xs
      → HasDistinctSeries ys
      → Apart xs ys
      → HasDistinctSeries (xs ++ ys)
  append-HasDistinctSeries [] ys ha hb h = hb
  append-HasDistinctSeries (a ∷ xs) ys ha hb h =
      (All-append (Differ a) xs ys ha.0 h.0, append-HasDistinctSeries xs ys ha.1 hb h.1)

pub not_same : (s t : String) → str_eq s t ≡ false → s ≢ t
not_same s t h e =
    let p : str_eq s s ≡ true = eq_refl s in let q : str_eq s s ≡ false = ap (str_eq s) e ∙ h in cc

-- A row of a table of gauges: the descriptor, the labels, the value if there is one, and
-- what is made of it.
pub record Row (W : Type 0) : Type 0 where
  pub desc : Desc
  pub labels : List String
  pub value : Option W
  pub scale : W → W

abbrev second_label : List String → String
second_label (a ∷ b ∷ _) = b
second_label _ = ""

module _ {W : Type 0} where
  abbrev pub metrics_of : Row W → List (Metric W)
  metrics_of r = when_valid r.value (λ v. gauge r.desc (r.scale v) r.labels)

  -- Two rows differ in the name or in the second label.
  abbrev rows_differ : Row W → Row W → Bool
  rows_differ a b =
      not (str_eq a.desc.name b.desc.name)
      || not (str_eq (second_label a.labels) (second_label b.labels))

  abbrev all_differ : Row W → List (Row W) → Bool
  all_differ a [] = true
  all_differ a (b ∷ ys) = rows_differ a b && all_differ a ys

  abbrev pub distinct_rows : List (Row W) → Bool
  distinct_rows [] = true
  distinct_rows (a ∷ xs) = all_differ a xs && distinct_rows xs

  gauges-Differ :
      (a b : Row W) (v w : W)
      → rows_differ a b ≡ true
      → Differ (gauge a.desc v a.labels) (gauge b.desc w b.labels)
  gauges-Differ a b v w h = elim (Bool-cases (str_eq a.desc.name b.desc.name)) [
    | inr names ↦ inl (not_same a.desc.name b.desc.name names)
    | inl same ↦ elim (Bool-cases (str_eq (second_label a.labels) (second_label b.labels))) [
      | inr labels ↦ inr (λ e. not_same _ _ labels (ap second_label e))
      | inl same' ↦ absurd (ground arith)
    ]
  ]

  gauge-All :
      (a : Row W) (v : W) (ys : List (Row W))
      → all_differ a ys ≡ true
      → All (Differ (gauge a.desc v a.labels)) (concat_map metrics_of ys)
  unfolding when_valid
  gauge-All a v [] h = tt
  gauge-All a v (b ∷ ys) h =
      let rest = gauge-All a v ys (ground arith) in
      elim (Option-cases b.value) [
        | inl absent ↦ rw (absent, when_valid) rest
        | inr (w, there) ↦
            rw (there, when_valid) (gauges-Differ a b v (b.scale w) (ground arith), rest)
      ]

  pub rows-HasDistinctSeries :
      (rows : List (Row W))
      → distinct_rows rows ≡ true
      → HasDistinctSeries (concat_map metrics_of rows)
  unfolding when_valid
  rows-HasDistinctSeries [] h = tt
  rows-HasDistinctSeries (a ∷ rows) h =
      let rest = rows-HasDistinctSeries rows (ground arith) in
      elim (Option-cases a.value) [
        | inl absent ↦ rw (absent, when_valid) rest
        | inr (v, there) ↦
            rw (there, when_valid) (gauge-All a (a.scale v) rows (ground arith), rest)
      ]

module _ {W : Type 0} (P Q : Metric W → Type 0)
    (differ : (m m' : Metric W) → P m → Q m' → Differ m m') where
  each-All : (m : Metric W) (ms : List (Metric W)) → P m → All Q ms → All (Differ m) ms
  each-All m [] p h = tt
  each-All m (m' ∷ ms) p h = (differ m m' p h.0, each-All m ms p h.1)

  pub each-Apart : (ms ns : List (Metric W)) → All P ms → All Q ns → Apart ms ns
  each-Apart [] ns h h' = tt
  each-Apart (m ∷ ms) ns h h' = (each-All m ns h.0 h', each-Apart ms ns h.1 h')

-- Metrics whose first label is a name.
abbrev first_label : List String → String
first_label [] = ""
first_label (a ∷ _) = a

module _ {W : Type 0} where
  abbrev pub HasLabel : String → List (Metric W) → Type 0
  HasLabel name = All (λ m. first_label m.label_values ≡ name)

  pub rows-HasLabel :
      (name : String) (rows : List (Row W))
      → All (λ r. first_label r.labels ≡ name) rows
      → HasLabel name (concat_map metrics_of rows)
  unfolding when_valid
  rows-HasLabel name [] h = tt
  rows-HasLabel name (r ∷ rows) h =
      let rest = rows-HasLabel name rows h.1 in
      elim (Option-cases r.value) [
        | inl absent ↦ rw (absent, when_valid) rest
        | inr (v, there) ↦ rw (there, when_valid) (h.0, rest)
      ]

  names-Differ :
      (name name' : String) (m m' : Metric W)
      → name ≢ name'
      → first_label m.label_values ≡ name
      → first_label m'.label_values ≡ name'
      → Differ m m'
  names-Differ name name' m m' n e e' = inr (λ same. n (sym e ∙ ap first_label same ∙ e'))

  labels-Apart :
      (name name' : String) (ms ns : List (Metric W))
      → name ≢ name'
      → HasLabel name ms
      → HasLabel name' ns
      → Apart ms ns
  labels-Apart name name' ms ns n =
      each-Apart (λ m. first_label m.label_values ≡ name) (λ m. first_label m.label_values ≡ name')
        (λ m m'. names-Differ name name' m m' n) ms ns

  All-Apart : (ms ns ks : List (Metric W)) → Apart ms ns → Apart ms ks → Apart ms (ns ++ ks)
  All-Apart [] ns ks h h' = tt
  All-Apart (m ∷ ms) ns ks h h' =
      (All-append (Differ m) ns ks h.0 h'.0, All-Apart ms ns ks h.1 h'.1)

  Apart-nil : (ms : List (Metric W)) → Apart ms []
  Apart-nil [] = tt
  Apart-nil (m ∷ ms) = (tt, Apart-nil ms)

-- No two items have one name.
abbrev pub HasDistinctNames : {A N : Type 0} → (A → N) → List A → Type 0
HasDistinctNames name [] = Unit {0}
HasDistinctNames name (x ∷ xs) = All (λ y. name x ≢ name y) xs × HasDistinctNames name xs

module _ {W A N : Type 0} (key : A → N) (metrics : A → List (Metric W)) where
  keys-Apart :
      (x : A) (xs : List A)
      → ((x y : A) → key x ≢ key y → Apart (metrics x) (metrics y))
      → All (λ y. key x ≢ key y) xs
      → Apart (metrics x) (concat_map metrics xs)
  keys-Apart x [] apart h = Apart-nil (metrics x)
  keys-Apart x (y ∷ xs) apart h =
      All-Apart (metrics x) (metrics y) (concat_map metrics xs) (apart x y h.0)
        (keys-Apart x xs apart h.1)

  pub keys-HasDistinctSeries :
      (xs : List A)
      → ((x y : A) → key x ≢ key y → Apart (metrics x) (metrics y))
      → ((y : A) → HasDistinctSeries (metrics y))
      → HasDistinctNames key xs
      → HasDistinctSeries (concat_map metrics xs)
  keys-HasDistinctSeries [] apart own h = tt
  keys-HasDistinctSeries (x ∷ xs) apart own h =
      append-HasDistinctSeries (metrics x) (concat_map metrics xs) (own x)
        (keys-HasDistinctSeries xs apart own h.1) (keys-Apart x xs apart h.0)

module _ {W A : Type 0} (name : A → String) (metrics : A → List (Metric W)) where
  pub items-HasDistinctSeries :
      (xs : List A)
      → ((y : A) → HasLabel (name y) (metrics y))
      → ((y : A) → HasDistinctSeries (metrics y))
      → HasDistinctNames name xs
      → HasDistinctSeries (concat_map metrics xs)
  items-HasDistinctSeries xs label own h =
      keys-HasDistinctSeries name metrics xs
        (λ x y n. labels-Apart (name x) (name y) (metrics x) (metrics y) n (label x) (label y)) own
        h

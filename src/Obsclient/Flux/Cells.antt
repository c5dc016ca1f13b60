-- ===== src/Obsclient/Flux/Cells.antt =====
-- Which cells of a row a flat result holds.
use prometheus_obs_exporter.Prelude.{
  ℕ, suc, String, utf8, ◌≡◌, refl, Option, none, some, List, [], ◌∷◌, arith, get_elem?, str_eq,
  if◌then◌else◌, inl, inr, ◌∙◌, Option-cases, ap,
}
use text.Mathlib.TextEquality.{eq_iff}
use prometheus_obs_exporter.Prelude.Dict.{
  Dict, find, put, find-nil, find-cons, find-put, HasUniqueKeys, put-HasUniqueKeys,
}
use prometheus_obs_exporter.Obsclient.FlexNumber.{Float64}
use prometheus_obs_exporter.Obsclient.Types.{FluxSeries}
use prometheus_obs_exporter.Obsclient.Flux.{
  FluxResult, is_meta_column, index_columns, tag_entry, cell_of, or_else, collect_tags, time_of,
  result_of, flatten_row, flatten_rows, flatten_flux_series,
}

-- The position of the last column of a name, counted from `i`.
abbrev pub last_position : ℕ → List String → String → Option ℕ
last_position i [] name = none
last_position i (col ∷ cols) name = elim (last_position (suc i) cols name) [
  | some j ↦ some j
  | none ↦ if str_eq col name then some i else none
]

abbrev otherwise : {A : Type 0} → Option A → Option A → Option A
otherwise (some a) b = some a
otherwise none b = b

find-index_columns :
    (i : ℕ) (index : Dict ℕ) (cols : List String) (name : String)
    → find name (index_columns i index cols)
      ≡ otherwise (last_position i cols name) (find name index)
unfolding index_columns
find-index_columns i index [] name = refl
find-index_columns i index (col ∷ cols) name =
    ground
      (arith, find-index_columns (suc i) (put col i index) cols name, find-put col name i index)

index_columns-HasUniqueKeys :
    (i : ℕ) (index : Dict ℕ) (cols : List String)
    → HasUniqueKeys index
    → HasUniqueKeys (index_columns i index cols)
unfolding index_columns
index_columns-HasUniqueKeys i index [] h = h
index_columns-HasUniqueKeys i index (col ∷ cols) h =
    index_columns-HasUniqueKeys (suc i) (put col i index) cols (put-HasUniqueKeys col i index h)

-- What a row has in the last column of a name.
abbrev pub cell : List String → List String → String → Option String
cell cols row name = elim (last_position 0 cols name) [ none ↦ none | some i ↦ get_elem? row i ]

pub cell_of-cell :
    (cols row : List String) (name : String)
    → cell_of (index_columns 0 [] cols) row name ≡ cell cols row name
unfolding cell_of
cell_of-cell cols row name =
    ground (arith, find-index_columns 0 [] cols name, find-nil {V = ℕ} name)

cell_of-cons :
    (col name : String) (i : ℕ) (index : Dict ℕ) (row : List String)
    → cell_of ((col, i) ∷ index) row name
      ≡ (if str_eq col name then get_elem? row i else cell_of index row name)
unfolding cell_of
cell_of-cons col name i index row = ground (arith, find-cons name col i index)

cell_of_absent :
    (name : String) (index : Dict ℕ) (row : List String)
    → find name index ≡ none
    → cell_of index row name ≡ none
unfolding cell_of
cell_of_absent name index row h = ground arith

find-tag_entry :
    (row : List String) (col : String) (i : ℕ) (tags : Dict String) (name : String)
    → find name (tag_entry row col i tags) ≡ (
        if is_meta_column col
        then find name tags
        else otherwise (if str_eq col name then get_elem? row i else none) (find name tags))
find-tag_entry row col i tags name = elim (Option-cases (get_elem? row i)) [
  | inl e ↦ ground arith
  | inr (c, e) ↦ ground (arith, find-put col name c tags)
]

find-collect_tags :
    (row : List String) (index : Dict ℕ) (tags : Dict String) (name : String)
    → HasUniqueKeys index
    → find name (collect_tags row index tags) ≡ (
        if is_meta_column name
        then find name tags
        else otherwise (cell_of index row name) (find name tags))
unfolding collect_tags
find-collect_tags row [] tags name h = ground (arith, cell_of_absent name [] row (find-nil name))
find-collect_tags row ((col, i) ∷ index) tags name h = ground (
  arith,
  find-collect_tags row index (tag_entry row col i tags) name h.1,
  find-tag_entry row col i tags name,
  cell_of-cons col name i index row,
  cell_of_absent name index row,
  eq_iff col name,
)

otherwise-none : {A : Type 0} (o : Option A) → otherwise o none ≡ o
otherwise-none none = refl
otherwise-none (some a) = refl

find_value :
    (cols : List String) → find "_value" (index_columns 0 [] cols) ≡ last_position 0 cols "_value"
find_value cols =
    find-index_columns 0 [] cols "_value"
    ∙ (rw (find-nil {V = ℕ} "_value") (otherwise-none (last_position 0 cols "_value")))

module _ {W : Type 0} (f : Float64 W) (parse_time : String → Option ℕ) where
  -- The number in the last `_value` column of a row.
  abbrev pub number : List String → List String → Option W
  number cols row = elim (cell cols row "_value") [
    | none ↦ none
    | some text ↦ f.parse_float (utf8 text)
  ]

  -- A result holds the cells of its row by name: each column that is not meta data is a tag, a
  -- repeated column counts with its last position, and a missing cell leaves the zero value.
  pub record Describes (cols row : List String) (v : W) (r : FluxResult W) : Type 0 where
    pub value : r.value ≡ v
    pub measurement : r.measurement ≡ or_else "" (cell cols row "_measurement")
    pub field : r.field ≡ or_else "" (cell cols row "_field")
    pub time : r.time ≡ time_of f parse_time (cell cols row "_time")
    pub tags :
        (name : String)
        → find name r.tags ≡ (if is_meta_column name then none else cell cols row name)

  -- The results stand in the order of the rows, one for each row with a number and no other.
  pub data Flattens (cols : List String) : List (List String) → List (FluxResult W) → Type 0 where
    done : Flattens cols [] []
    skipped :
        {row : List String} {rows : List (List String)} {rs : List (FluxResult W)}
        → number cols row ≡ none
        → Flattens cols rows rs
        → Flattens cols (row ∷ rows) rs
    kept :
        {row : List String} {rows : List (List String)} {rs : List (FluxResult W)} (v : W)
        (r : FluxResult W)
        → number cols row ≡ some v
        → Describes cols row v r
        → Flattens cols rows rs
        → Flattens cols (row ∷ rows) (r ∷ rs)

  result_of-Describes :
      (cols row : List String) (v : W)
      → Describes cols row v (result_of f parse_time (index_columns 0 [] cols) row v)
  result_of-Describes cols row v = record {
    value = refl;
    measurement = ap (or_else "") (cell_of-cell cols row "_measurement");
    field = ap (or_else "") (cell_of-cell cols row "_field");
    time = ap (time_of f parse_time) (cell_of-cell cols row "_time");
    tags = λ name. ground (
      arith,
      find-collect_tags row (index_columns 0 [] cols) [] name
          (index_columns-HasUniqueKeys 0 [] cols tt),
      cell_of-cell cols row name,
      find-nil {V = String} name,
    );
  }

  flatten_row-none :
      (cols : List String) (i : ℕ) (row : List String)
      → last_position 0 cols "_value" ≡ some i
      → number cols row ≡ none
      → flatten_row f parse_time (index_columns 0 [] cols) i row ≡ none
  unfolding flatten_row
  flatten_row-none cols i row at e = ground arith

  flatten_row-some :
      (cols : List String) (i : ℕ) (row : List String) (v : W)
      → last_position 0 cols "_value" ≡ some i
      → number cols row ≡ some v
      → flatten_row f parse_time (index_columns 0 [] cols) i row
        ≡ some (result_of f parse_time (index_columns 0 [] cols) row v)
  unfolding flatten_row
  flatten_row-some cols i row v at e = elim (Option-cases (get_elem? row i)) [
    | inl missing ↦ ground arith
    | inr (text, found) ↦
        rw (found, flatten_row) (let n : f.parse_float (utf8 text) ≡ some v = ground arith in rw n)
  ]

  flatten_rows-Flattens :
      (cols : List String) (i : ℕ) (rows : List (List String))
      → last_position 0 cols "_value" ≡ some i
      → Flattens cols rows (flatten_rows f parse_time (index_columns 0 [] cols) i rows)
  unfolding flatten_rows
  flatten_rows-Flattens cols i [] at = done
  flatten_rows-Flattens cols i (row ∷ rows) at =
      let rest = flatten_rows-Flattens cols i rows at in
      elim (Option-cases (number cols row)) [
        | inl e ↦ rw (flatten_row-none cols i row at e, flatten_rows) (skipped e rest)
        | inr (v, e) ↦
            rw (flatten_row-some cols i row v at e, flatten_rows)
              (kept v _ e (result_of-Describes cols row v) rest)
      ]

  no_value-Flattens :
      (cols : List String) (rows : List (List String))
      → last_position 0 cols "_value" ≡ none
      → Flattens cols rows []
  no_value-Flattens cols [] e = done
  no_value-Flattens cols (row ∷ rows) e = skipped (ground arith) (no_value-Flattens cols rows e)

  -- The results of a series stand in the order of its rows, one for each row whose cell in the last
  -- column `_value` is a number, and none for the others. A result has that number, the cells of its
  -- row in the last columns `_measurement`, `_field` and `_time`, and as a tag under each other
  -- column name the cell in the last column of that name; cells that a short row lacks are left out.
  pub flatten_flux_series-Flattens :
      (s : FluxSeries) → Flattens s.columns s.values (flatten_flux_series f parse_time s)
  unfolding flatten_flux_series
  flatten_flux_series-Flattens s = elim (Option-cases (last_position 0 s.columns "_value")) [
    | inl absent ↦
        rw (find_value s.columns ∙ absent, flatten_flux_series)
          (no_value-Flattens s.columns s.values absent)
    | inr (i, at) ↦
        rw (find_value s.columns ∙ at, flatten_flux_series)
          (flatten_rows-Flattens s.columns i s.values at)
  ]

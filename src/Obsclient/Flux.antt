-- ===== src/Obsclient/Flux.antt =====
-- internal/obsclient/flux.go: a Flux query and the flat results of its answer. The table from
-- column names to positions is a Go map; the loop over it runs in the order of its entries here.
pub mod Cells
use prometheus_obs_exporter.Prelude.{
  ℕ, zero, suc, String, Bytes, utf8, ◌≡◌, refl, Bool, true, Option, none, some, List, [], ◌∷◌, ◌++◌,
  ◌||◌, concat_map, get_elem?, str_eq, if◌then◌else◌,
}
use prometheus_obs_exporter.Prelude.Dict.{Dict, find, put}
use prometheus_obs_exporter.Obsclient.Net.{Net, Error, building}
use prometheus_obs_exporter.Obsclient.Client.{M, pure, fail, wrap, ◌>>=◌}
use prometheus_obs_exporter.Obsclient.Auth.{post_authenticated_json}
use prometheus_obs_exporter.Obsclient.FlexNumber.{Float64}
use prometheus_obs_exporter.Obsclient.Types.{FluxSeries, Decoders}

abbrev pub flux_query_path : Bytes
flux_query_path = utf8 "/flux/api/external/v2/query"

unfoldable pub is_meta_column : String → Bool
is_meta_column col =
    str_eq col "table"
    || str_eq col "_start"
    || str_eq col "_stop"
    || str_eq col "_time"
    || str_eq col "_value"
    || str_eq col "_field"
    || str_eq col "_measurement"

-- `time` counts from the zero value of `time.Time`.
pub record FluxResult (W : Type 0) : Type 0 where
  pub measurement : String
  pub field : String
  pub value : W
  pub time : ℕ
  pub tags : Dict String

-- The loop that fills `colIndex`: a later column of the same name takes the entry.
unfoldable pub index_columns : ℕ → Dict ℕ → List String → Dict ℕ
index_columns i index [] = index
index_columns i index (col ∷ cols) = index_columns (suc i) (put col i index) cols

-- `if i, ok := colIndex[name]; ok && i < len(row)`
unfoldable pub cell_of : Dict ℕ → List String → String → Option String
cell_of index row name = elim (find name index) [ none ↦ none | some i ↦ get_elem? row i ]

abbrev pub or_else : {A : Type 0} → A → Option A → A
or_else a none = a
or_else a (some b) = b

-- One round of the loop over `colIndex`.
abbrev pub tag_entry : List String → String → ℕ → Dict String → Dict String
tag_entry row col i tags =
    if is_meta_column col
    then tags
    else elim (get_elem? row i) [ none ↦ tags | some cell ↦ put col cell tags ]

unfoldable pub collect_tags : List String → Dict ℕ → Dict String → Dict String
collect_tags row [] tags = tags
collect_tags row ((col, i) ∷ index) tags = collect_tags row index (tag_entry row col i tags)

-- `time.Parse(time.RFC3339, …)` is the argument `parse_time`, `none` for an error.
module _ {W : Type 0} (f : Float64 W) (parse_time : String → Option ℕ) where
  abbrev pub time_of : Option String → ℕ
  time_of none = 0
  time_of (some text) = or_else 0 (parse_time text)

  abbrev pub result_of : Dict ℕ → List String → W → FluxResult W
  result_of index row v = record {
    measurement = or_else "" (cell_of index row "_measurement");
    field = or_else "" (cell_of index row "_field");
    value = v;
    time = time_of (cell_of index row "_time");
    tags = collect_tags row index [];
  }

  -- A row with no cell for the value, or one that is no number, is skipped.
  unfoldable pub flatten_row : Dict ℕ → ℕ → List String → Option (FluxResult W)
  flatten_row index value_index row = elim (get_elem? row value_index) [
    | none ↦ none
    | some cell ↦ elim (f.parse_float (utf8 cell)) [
      | none ↦ none
      | some v ↦ some (result_of index row v)
    ]
  ]

  flatten_rows : Dict ℕ → ℕ → List (List String) → List (FluxResult W)
  flatten_rows index value_index [] = []
  flatten_rows index value_index (row ∷ rows) = elim (flatten_row index value_index row) [
    | none ↦ flatten_rows index value_index rows
    | some r ↦ r ∷ flatten_rows index value_index rows
  ]

  unfoldable pub flatten_flux_series : FluxSeries → List (FluxResult W)
  unfolding flatten_rows
  flatten_flux_series s =
      let index = index_columns 0 [] s.columns in
      elim (find "_value" index) [ none ↦ [] | some i ↦ flatten_rows index i s.values ]

  module _ (net : Net) (dec : Decoders W) where
    unfoldable pub encoded : Bytes → M Bytes
    encoded query = elim (dec.encode_flux_query (record { query = query })) [
      | none ↦ wrap "obsclient: encoding flux query" (fail building)
      | some body ↦ pure body
    ]

    unfoldable pub query_flux : Bytes → M (List (FluxResult W))
    unfolding encoded
    query_flux query = do
      body ← encoded query
      resp ←
          wrap "obsclient: flux query"
            (post_authenticated_json net dec.flux_query_response flux_query_path body)
      pure (concat_map flatten_flux_series resp.series)

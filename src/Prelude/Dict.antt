-- ===== src/Prelude/Dict.antt =====
-- Go maps with string keys, as lists of entries of which no two have one key.
use prometheus_obs_exporter.Prelude.Tests.{str_eq, if◌then◌else◌}
use Prim.Native.String.{String}
use mathlib.Core.Path.{◌≡◌, refl}
use mathlib.Core.Option.{Option, none, some}
use mathlib.Core.List.{List, [], ◌∷◌}
use native.Mathlib.Omega.{arith}
use text.Mathlib.TextEquality.{eq_iff}

abbrev pub Dict : Type 0 → Type 0
Dict V = List (String × V)

module _ {V : Type 0} where
  unfoldable pub find : String → Dict V → Option V
  find key [] = none
  find key ((k, v) ∷ entries) = if str_eq k key then some v else find key entries

  -- `m[key] = v`
  unfoldable pub put : String → V → Dict V → Dict V
  put key v [] = (key, v) ∷ []
  put key v ((k, w) ∷ entries) =
      if str_eq k key then (k, v) ∷ entries else (k, w) ∷ put key v entries

  pub find-nil : (key : String) → find key [] ≡ none
  unfolding find
  find-nil key = refl

  pub find-cons :
      (key k : String) (v : V) (m : Dict V)
      → find key ((k, v) ∷ m) ≡ (if str_eq k key then some v else find key m)
  unfolding find
  find-cons key k v m = refl

  pub find-put :
      (key other : String) (v : V) (m : Dict V)
      → find other (put key v m) ≡ (if str_eq key other then some v else find other m)
  unfolding find put
  find-put key other v [] = refl
  find-put key other v ((k, w) ∷ entries) =
      ground (arith, find-put key other v entries, eq_iff key other, eq_iff k key, eq_iff k other)

  -- No key has two entries.
  abbrev pub HasUniqueKeys : Dict V → Type 0
  HasUniqueKeys [] = Unit {0}
  HasUniqueKeys ((k, v) ∷ entries) = (find k entries ≡ none) × HasUniqueKeys entries

  pub put-HasUniqueKeys :
      (key : String) (v : V) (m : Dict V) → HasUniqueKeys m → HasUniqueKeys (put key v m)
  unfolding find put
  put-HasUniqueKeys key v [] h = (refl, tt)
  put-HasUniqueKeys key v ((k, w) ∷ entries) h = ground (
    arith,
    put-HasUniqueKeys key v entries h.1,
    find-put key k v entries,
    eq_iff k key,
    eq_iff key k,
  )

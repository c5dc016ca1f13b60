-- ===== src/Obsclient/FlexNumber.antt =====
-- `FlexNumber` of internal/obsclient/types.go: a number that the target writes bare or quoted.
-- The text of a number is its bytes. `strings.TrimSpace` is modelled on the ASCII spaces, which
-- are all that a JSON token can have at its ends.
pub mod Reading
use prometheus_obs_exporter.Prelude.{
  ℕ, Bytes, utf8, ◌≡◌, refl, ◌≢◌, Bool, true, false, Option, none, some, List, [], ◌∷◌, ◌++◌, arith,
  bytes_eq, spelled, leb, ltb, ◌-◌, ◌+◌, ◌^◌, ◌==◌, ◌&&◌, ◌||◌, if◌then◌else◌,
}
use mathlib.Core.List.{reverse}
use prometheus_obs_exporter.Prelude.Int.{ℤ, pos, negsuc, neg}

-- '\t', '\n', '\v', '\f', '\r' and ' '.
abbrev pub is_space : ℕ → Bool
is_space c = (leb 9 c && leb c 13) || (c == b' ')

abbrev trim_left : Bytes → Bytes
trim_left [] = []
trim_left (c ∷ s) = if is_space c then trim_left s else c ∷ s

unfoldable pub trim_space : Bytes → Bytes
trim_space s = reverse (trim_left (reverse (trim_left s)))

-- `s[0] == '"'` and `s[len(s)-1] == '"'` with `len(s) >= 2`, and the text between.
abbrev init_of : ℕ → Bytes → Bytes
init_of c [] = []
init_of c (d ∷ s) = c ∷ init_of d s

abbrev last_of : ℕ → Bytes → ℕ
last_of c [] = c
last_of c (d ∷ s) = last_of d s

unfoldable pub unquote : Bytes → Bytes
unquote (c ∷ d ∷ s) = if (c == b'"') && (last_of d s == b'"') then init_of d s else c ∷ d ∷ s
unquote s = s

-- `UnmarshalJSON` never fails; its result is the new text of the number.
unfoldable pub unmarshal : Bytes → Bytes
unfolding trim_space unquote
unmarshal raw = let s = trim_space raw in if bytes_eq s (utf8 "null") then [] else unquote s

-- The operations of float64 that the program uses: the constants it writes as whole numbers, `+`,
-- `*`, `/`, `>` and `strconv.ParseFloat`, `none` for an error.
pub record Float64 (W : Type 0) : Type 0 where
  pub of_nat : ℕ → W
  pub add : W → W → W
  pub mul : W → W → W
  pub div : W → W → W
  pub gt : W → W → Bool
  pub parse_float : Bytes → Option W

-- A value, `ErrMissing`, or the error of strconv.
pub data Parsed (A : Type 0) : Type 0 where
  value : A → Parsed A
  missing malformed : Parsed A

abbrev of_option : {A : Type 0} → Option A → Parsed A
of_option none = malformed
of_option (some a) = value a

-- `err == nil`, with the value.
abbrev pub valid : {A : Type 0} → Parsed A → Option A
valid (value a) = some a
valid _ = none

abbrev all_digits : Bytes → Bool
all_digits [] = true
all_digits (c ∷ s) = leb b'0' c && leb c b'9' && all_digits s

abbrev natural : Bytes → Option ℕ
natural [] = none
natural (c ∷ s) = if all_digits (c ∷ s) then some (spelled 0 (c ∷ s)) else none

abbrev in_range : (ℕ → ℤ) → ℕ → ℕ → Option ℤ
in_range sign bound n = if ltb n bound then some (sign n) else none

-- `strconv.ParseInt(s, 10, 64)`
unfoldable pub parse_int : Bytes → Option ℤ
parse_int [] = none
parse_int (c ∷ s) =
    if c == b'-'
    then elim (natural s) [ none ↦ none | some n ↦ in_range neg (2 ^ 63 + 1) n ]
    else if c == b'+'
    then elim (natural s) [ none ↦ none | some n ↦ in_range pos (2 ^ 63) n ]
    else elim (natural (c ∷ s)) [ none ↦ none | some n ↦ in_range pos (2 ^ 63) n ]

unfoldable pub int64 : Bytes → Parsed ℤ
unfolding parse_int
int64 [] = missing
int64 (c ∷ s) = of_option (parse_int (c ∷ s))

module _ {W : Type 0} (f : Float64 W) where
  unfoldable pub float64 : Bytes → Parsed W
  float64 [] = missing
  float64 (c ∷ s) = of_option (f.parse_float (c ∷ s))

-- ===== src/Examples/Escapes.antt =====
-- An escape of the segments of a path, for the target of the examples.
use prometheus_obs_exporter.Prelude.{
  ℕ, ◌+◌, ◌-◌, ◌*◌, ◌/◌, ◌%◌, ◌<◌, Bytes, ◌≡◌, refl, ◌≢◌, true, false, Bool, [], ◌∷◌, arith, ltb,
  leb, ◌==◌, ◌&&◌, ◌||◌, if◌then◌else◌, All, Bool-cases, inl, inr, ap, sym, ◌∙◌,
}
use prometheus_obs_exporter.Obsclient.Apis.Paths.{IsByte, EndsNothing}

-- The bytes that stay as they are: letters, digits and - _ . ~ $ & + = : @
abbrev is_plain : ℕ → Bool
is_plain c =
    (leb b'a' c && leb c b'z')
    || (leb b'A' c && leb c b'Z')
    || (leb b'0' c && leb c b'9')
    || (c == b'-')
    || (c == b'_')
    || (c == b'.')
    || (c == b'~')
    || (c == b'$')
    || (c == b'&')
    || (c == b'+')
    || (c == b'=')
    || (c == b':')
    || (c == b'@')

abbrev hex_digit : ℕ → ℕ
hex_digit n = if ltb n 10 then b'0' + n else b'A' + (n - 10)

unfoldable pub path_escape : Bytes → Bytes
path_escape [] = []
path_escape (c ∷ s) =
    if is_plain c
    then c ∷ path_escape s
    else b'%' ∷ hex_digit (c / 16) ∷ hex_digit (c % 16) ∷ path_escape s

not_plain : (c d : ℕ) → is_plain c ≡ true → is_plain d ≡ false → c ≢ d
not_plain c d h k e = let both : true ≡ false = sym h ∙ ap is_plain e ∙ k in cc

plain-EndsNothing : (c : ℕ) → is_plain c ≡ true → EndsNothing c
plain-EndsNothing c h = (not_plain c b'/' h refl, not_plain c b'?' h refl, not_plain c b'#' h refl)

hex_digit-EndsNothing : (n : ℕ) → n < 16 → EndsNothing (hex_digit n)
hex_digit-EndsNothing n h = ground arith

pub path_escape-EndsNothing : (s : Bytes) → All IsByte s → All EndsNothing (path_escape s)
unfolding path_escape
path_escape-EndsNothing [] h = tt
path_escape-EndsNothing (c ∷ s) h = elim (Bool-cases (is_plain c)) [
  | inl plain ↦ rw plain (plain-EndsNothing c plain, path_escape-EndsNothing s h.1)
  | inr special ↦ rw special (
    omega arith,
    (
      hex_digit-EndsNothing (c / 16) (omega (arith, h.0)),
      (hex_digit-EndsNothing (c % 16) (omega arith), path_escape-EndsNothing s h.1),
    ),
  )
]

-- What a reader of the path takes a segment for: %XY is the byte of that value.
abbrev hex_value : ℕ → ℕ
hex_value c = if ltb c b'A' then c - b'0' else c - b'A' + 10

pub unescape : Bytes → Bytes
unescape [] = []
unescape (c ∷ []) = c ∷ []
unescape (c ∷ d ∷ []) = c ∷ d ∷ []
unescape (c ∷ d ∷ e ∷ s) =
    let plain = c ∷ unescape (d ∷ e ∷ s) in
    let read = (hex_value d * 16 + hex_value e) ∷ unescape s in if c == b'%' then read else plain

unescape_plain : (c : ℕ) (s : Bytes) → c ≢ b'%' → unescape (c ∷ s) ≡ c ∷ unescape s
unfolding unescape
unescape_plain c [] h = refl
unescape_plain c (d ∷ []) h = refl
unescape_plain c (d ∷ e ∷ s) h = ground arith

hex_value-hex_digit : (n : ℕ) → n < 16 → hex_value (hex_digit n) ≡ n
hex_value-hex_digit n h = ground arith

unescape_escape :
    (c : ℕ) (s : Bytes)
    → c < 256
    → unescape (b'%' ∷ hex_digit (c / 16) ∷ hex_digit (c % 16) ∷ s) ≡ c ∷ unescape s
unfolding unescape
unescape_escape c s h =
    ap (λ n. n ∷ unescape s)
      (omega (
        arith,
        hex_value-hex_digit (c / 16) (omega arith),
        hex_value-hex_digit (c % 16) (omega arith),
      ))

pub unescape-path_escape : (s : Bytes) → All IsByte s → unescape (path_escape s) ≡ s
unfolding path_escape unescape
unescape-path_escape [] h = refl
unescape-path_escape (c ∷ s) h = elim (Bool-cases (is_plain c)) [
  | inl plain ↦ rw plain (
      unescape_plain c (path_escape s) (not_plain c b'%' plain refl)
      ∙ ap (◌∷◌ c) (unescape-path_escape s h.1))
  | inr special ↦
      rw special (unescape_escape c (path_escape s) h.0 ∙ ap (◌∷◌ c) (unescape-path_escape s h.1))
]

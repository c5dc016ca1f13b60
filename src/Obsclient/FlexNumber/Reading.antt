-- ===== src/Obsclient/FlexNumber/Reading.antt =====
-- The forms in which `UnmarshalJSON` (types.go) meets a number.
use prometheus_obs_exporter.Prelude.{
  ℕ, Bytes, utf8, ◌≡◌, refl, ◌≢◌, true, false, [], ◌∷◌, ◌++◌, arith, bytes_eq, All, All-append,
  Bool-cases, inl, inr, ap, ◌∙◌,
}
use mathlib.Core.List.{reverse, reverse-append, reverse-cons, reverse-reverse, append_assoc}
use prometheus_obs_exporter.Obsclient.FlexNumber.{
  is_space, trim_left, trim_space, init_of, last_of, unquote, unmarshal, Float64, missing, float64,
}

abbrev pub IsSpaces : Bytes → Type 0
IsSpaces = All (λ c. is_space c ≡ true)

trim_left-append : (p s : Bytes) → IsSpaces p → trim_left (p ++ s) ≡ trim_left s
trim_left-append [] s h = refl
trim_left-append (c ∷ p) s h = rw (h.0) (trim_left-append p s h.1)

IsSpaces-reverse : (p : Bytes) → IsSpaces p → IsSpaces (reverse p)
IsSpaces-reverse [] h = tt
IsSpaces-reverse (c ∷ p) h =
    rw (reverse-cons c p)
      (All-append (λ d. is_space d ≡ true) (reverse p) (c ∷ []) (IsSpaces-reverse p h.1) (h.0, tt))

-- A text that begins and ends with bytes that are no spaces.
pub trim_space_inner :
    (p q s t : Bytes) (c d : ℕ)
    → IsSpaces p
    → IsSpaces q
    → is_space c ≡ false
    → is_space d ≡ false
    → s ≡ c ∷ t
    → (u : Bytes) → s ≡ u ++ d ∷ []
    → trim_space (p ++ (s ++ q)) ≡ s
unfolding trim_space
trim_space_inner p q s t c d hp hq hc hd es u eu =
    ap (λ x. reverse (trim_left (reverse x))) (trim_left-append p (s ++ q) hp ∙ left)
    ∙ ap (λ x. reverse (trim_left x)) (reverse-append s q)
    ∙ ap reverse (trim_left-append (reverse q) (reverse s) (IsSpaces-reverse q hq) ∙ right)
    ∙ reverse-reverse s
  where
    left : trim_left (s ++ q) ≡ s ++ q
    left = rw es (rw hc)

    right : trim_left (reverse s) ≡ reverse s
    right = rw (eu, reverse-append u (d ∷ [])) (rw hd)

last_of-concat : (c d : ℕ) (s : Bytes) → last_of c (s ++ d ∷ []) ≡ d
last_of-concat c d [] = refl
last_of-concat c d (e ∷ s) = last_of-concat e d s

init_of-concat : (c d : ℕ) (s : Bytes) → init_of c (s ++ d ∷ []) ≡ c ∷ s
init_of-concat c d [] = refl
init_of-concat c d (e ∷ s) = ap (◌∷◌ c) (init_of-concat e d s)

unquote-quote : (t : Bytes) → unquote (b'"' ∷ (t ++ b'"' ∷ [])) ≡ t
unfolding unquote
unquote-quote [] = refl
unquote-quote (c ∷ s) = rw (last_of-concat c b'"' s) (init_of-concat c b'"' s)

-- The quoted form reads as the text between the quotes, whatever that text is.
unmarshal_quoted :
    (p q t : Bytes) → IsSpaces p → IsSpaces q → unmarshal (p ++ (b'"' ∷ (t ++ b'"' ∷ [])) ++ q) ≡ t
unfolding unmarshal
unmarshal_quoted p q t hp hq =
    rw
      (
        append_assoc p (b'"' ∷ (t ++ b'"' ∷ [])) q,
        trim_space_inner p q (b'"' ∷ (t ++ b'"' ∷ [])) (t ++ b'"' ∷ []) b'"' b'"' hp hq refl refl
            refl (b'"' ∷ t) refl,
      )
      (unquote-quote t)

unquote_bare : (c : ℕ) (t : Bytes) → c ≢ b'"' → unquote (c ∷ t) ≡ c ∷ t
unfolding unquote
unquote_bare c [] h = refl
unquote_bare c (d ∷ t) h = ground arith

bytes_eq→eq : (s t : Bytes) → bytes_eq s t ≡ true → s ≡ t
bytes_eq→eq [] [] h = refl
bytes_eq→eq [] (d ∷ t) h = cc
bytes_eq→eq (c ∷ s) [] h = cc
bytes_eq→eq (c ∷ s) (d ∷ t) h = ground (arith, bytes_eq→eq s t)

-- A text that is no JSON string and not `null`, with no space at its ends.
pub record IsBare (s : Bytes) : Type 0 where
  pub first : ℕ
  pub rest : Bytes
  pub begins : s ≡ first ∷ rest
  pub last : ℕ
  pub initial : Bytes
  pub ends : s ≡ initial ++ last ∷ []
  pub no_space : is_space first ≡ false
  pub no_space_at_end : is_space last ≡ false
  pub no_quote : first ≢ b'"'
  pub no_null : s ≢ utf8 "null"

unmarshal_bare : (p q s : Bytes) → IsSpaces p → IsSpaces q → IsBare s → unmarshal (p ++ s ++ q) ≡ s
unfolding unmarshal
unmarshal_bare p q s hp hq b =
    rw
      (
        append_assoc p s q,
        trim_space_inner p q s b.rest b.first b.last hp hq b.no_space b.no_space_at_end b.begins
            b.initial b.ends,
      )
      (elim (Bool-cases (bytes_eq s (utf8 "null"))) [
        | inl null ↦ absurd (b.no_null (bytes_eq→eq s _ null))
        | inr other ↦ rw other (rw b.begins (unquote_bare b.first b.rest b.no_quote))
      ])

unmarshal_null : (p q : Bytes) → IsSpaces p → IsSpaces q → unmarshal (p ++ utf8 "null" ++ q) ≡ []
unfolding unmarshal
unmarshal_null p q hp hq = rw (
  append_assoc p (utf8 "null") q,
  trim_space_inner p q (utf8 "null") (utf8 "ull") b'n' b'l' hp hq refl refl refl (utf8 "nul") refl,
)

null_missing :
    {W : Type 0} (f : Float64 W) (p q : Bytes)
    → IsSpaces p
    → IsSpaces q
    → (float64 f (unmarshal (p ++ utf8 "null" ++ q)) ≡ missing)
      × (float64 f (unmarshal (p ++ (b'"' ∷ b'"' ∷ []) ++ q)) ≡ missing)
unfolding float64
null_missing f p q hp hq = (rw (unmarshal_null p q hp hq), rw (unmarshal_quoted p q [] hp hq))

-- A number reads alike bare and quoted, with any ASCII spaces round either form: the reading is
-- the number's own text. `null` and the empty string "", with spaces round them, are missing
-- values: no number stands for them, whatever `strconv.ParseFloat` does.
pub unmarshal_forms :
    {W : Type 0} (f : Float64 W) (p q p' q' s : Bytes)
    → IsSpaces p
    → IsSpaces q
    → IsSpaces p'
    → IsSpaces q'
    → IsBare s
    → (unmarshal (p ++ s ++ q) ≡ s)
      × (unmarshal (p' ++ (b'"' ∷ (s ++ b'"' ∷ [])) ++ q') ≡ s)
      × (float64 f (unmarshal (p ++ utf8 "null" ++ q)) ≡ missing)
      × (float64 f (unmarshal (p ++ (b'"' ∷ b'"' ∷ []) ++ q)) ≡ missing)
unmarshal_forms f p q p' q' s hp hq hp' hq' b =
    let (null, empty) = null_missing f p q hp hq in
    (unmarshal_bare p q s hp hq b, unmarshal_quoted p' q' s hp' hq', null, empty)

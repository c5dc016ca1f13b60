-- ===== src/Collector/Duration/Reads.antt =====
-- A reader of the duration literals of Flux, for those that `fluxDuration` of perf.go prints.
use prometheus_obs_exporter.Prelude.{
  ℕ, ◌+◌, ◌-◌, ◌*◌, ◌/◌, ◌≤◌, Bytes, decimal, spelled, spelled-decimal, IsDigit, decimal-IsDigit,
  All, ◌≡◌, refl, inl, inr, Option, none, some, [], ◌∷◌, ◌++◌, arith, ltb, leb, ◌==◌, ◌&&◌,
  Bool-cases, ap, ◌∙◌, if◌then◌else◌,
}
use mathlib.Core.List.{append_assoc}
use prometheus_obs_exporter.Prelude.Int.{pos}
use prometheus_obs_exporter.Collector.Duration.{
  second, minute, hour, max_int64, round_distance, part, parts, flux_duration,
}

-- The seconds of a literal such as 1h30m5s: `total` are those of the parts read, `n` is the number
-- that stands before the next unit.
read_from : ℕ → ℕ → Bytes → Option ℕ
read_from total n [] = some total
read_from total n (c ∷ s) =
    let digit = read_from total (n * 10 + (c - b'0')) s in
    let hours = read_from (total + n * 3600) 0 s in
    let minutes = read_from (total + n * 60) 0 s in
    let seconds = read_from (total + n) 0 s in
    if leb b'0' c && leb c b'9'
    then digit
    else if c == b'h'
    then hours
    else if c == b'm'
    then minutes
    else if c == b's'
    then seconds
    else none

pub read_seconds : Bytes → Option ℕ
unfolding read_from
read_seconds s = read_from 0 0 s

read_from-digits :
    (total n : ℕ) (s rest : Bytes)
    → All IsDigit s
    → read_from total n (s ++ rest) ≡ read_from total (spelled n s) rest
unfolding read_from
read_from-digits total n [] rest h = refl
read_from-digits total n (c ∷ s) rest h =
    ground (arith, read_from-digits total (n * 10 + (c - b'0')) s rest h.1)

read_from-decimal :
    (total v : ℕ) (rest : Bytes) → read_from total 0 (decimal v ++ rest) ≡ read_from total v rest
read_from-decimal total v rest =
    read_from-digits total 0 (decimal v) rest (decimal-IsDigit v)
    ∙ ap (λ n. read_from total n rest) (spelled-decimal v)

-- A part adds its seconds, whether it is printed or left out as 0.
module _ (total v : ℕ) (rest : Bytes) where
  read_from-hours : read_from total 0 (part v b'h' ++ rest) ≡ read_from (total + v * 3600) 0 rest
  unfolding read_from
  read_from-hours = elim (Bool-cases (ltb 0 v)) [
    | inl some_hours ↦
        rw (some_hours, append_assoc (decimal v) (b'h' ∷ []) rest)
          (read_from-decimal total v (b'h' ∷ rest))
    | inr no_hours ↦
        rw no_hours
          (let e : total ≡ total + v * 3600 = ground arith in ap (λ t. read_from t 0 rest) e)
  ]

  read_from-minutes : read_from total 0 (part v b'm' ++ rest) ≡ read_from (total + v * 60) 0 rest
  unfolding read_from
  read_from-minutes = elim (Bool-cases (ltb 0 v)) [
    | inl some_minutes ↦
        rw (some_minutes, append_assoc (decimal v) (b'm' ∷ []) rest)
          (read_from-decimal total v (b'm' ∷ rest))
    | inr no_minutes ↦
        rw no_minutes
          (let e : total ≡ total + v * 60 = ground arith in ap (λ t. read_from t 0 rest) e)
  ]

read_from-seconds : (total v : ℕ) → read_from total 0 (part v b's') ≡ some (total + v)
unfolding read_from
read_from-seconds total v = elim (Bool-cases (ltb 0 v)) [
  | inl some_seconds ↦ rw some_seconds (read_from-decimal total v (b's' ∷ []))
  | inr no_seconds ↦ rw no_seconds (ap some (ground arith))
]

read_seconds-parts : (n : ℕ) → read_seconds (parts (pos n)) ≡ some (n / second)
unfolding read_seconds
read_seconds-parts n =
    read_from-hours 0 h _
    ∙ read_from-minutes (0 + h * 3600) m _
    ∙ read_from-seconds (0 + h * 3600 + m * 60) (e / second)
    ∙ ap some (omega arith)
  where
    h : ℕ
    h = n / hour

    d : ℕ
    d = n - h * hour

    m : ℕ
    m = d / minute

    e : ℕ
    e = d - m * minute

read_seconds-rounded :
    (n : ℕ) → read_seconds (flux_duration (pos n)) ≡ some (round_distance max_int64 n / second)
unfolding flux_duration read_seconds
read_seconds-rounded n = elim (Bool-cases (round_distance max_int64 n == 0)) [
  | inl zero_seconds ↦ rw zero_seconds (ap some (ground arith))
  | inr other ↦ rw other (read_seconds-parts (round_distance max_int64 n))
]

rounded_half_up :
    (n : ℕ)
    → n + second ≤ max_int64
    → round_distance max_int64 n / second ≡ (n + second / 2) / second
rounded_half_up n h = ground arith

-- The literal of a duration that is not negative, up to a second below the largest int64, denotes
-- the duration in whole seconds, rounded half up: its parts add up, and 0 is printed as 0s.
pub read_seconds-flux_duration :
    (n : ℕ)
    → n + second ≤ max_int64
    → read_seconds (flux_duration (pos n)) ≡ some ((n + second / 2) / second)
read_seconds-flux_duration n h = read_seconds-rounded n ∙ ap some (rounded_half_up n h)

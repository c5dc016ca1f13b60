-- ===== src/Collector/Duration.antt =====
-- `fluxDuration` of internal/collector/perf.go, and the queries of that file. A `time.Duration` is
-- an int64 of nanoseconds; the wrap-around of `-d` and the saturation of `Round` are written out.
pub mod Reads
pub mod Range
use prometheus_obs_exporter.Prelude.{
  ℕ, zero, suc, ◌+◌, ◌-◌, ◌*◌, ◌/◌, ◌%◌, ◌^◌, ◌≤◌, ◌<◌, String, Bytes, utf8, decimal, ◌≡◌, refl,
  Bool, true, false, Option, none, some, List, [], ◌∷◌, ◌++◌, arith, ltb, leb, ◌==◌, if◌then◌else◌,
}
use prometheus_obs_exporter.Prelude.Int.{ℤ, pos, negsuc, neg, is_negative, is_zero, decimal_int}

abbrev pub second : ℕ
second = 1000000000

abbrev pub minute : ℕ
minute = 60 * second

abbrev pub hour : ℕ
hour = 60 * minute

-- The largest int64, and the distance of the least from 0.
abbrev pub max_int64 : ℕ
max_int64 = 2 ^ 63 - 1

abbrev pub min_int64 : ℕ
min_int64 = 2 ^ 63

-- `time.Duration.Round(time.Second)` on a distance from 0: half away from 0, held at `limit`.
abbrev pub round_distance : ℕ → ℕ → ℕ
round_distance limit n =
    let r = n % second in
    if ltb (r + r) second
    then n - r
    else if leb (n + second - r) limit
    then n + second - r
    else limit

unfoldable pub round_second : ℤ → ℤ
round_second (pos n) = pos (round_distance max_int64 n)
round_second (negsuc n) = neg (round_distance min_int64 (suc n))

-- `-d` in int64: the least value is its own negation.
unfoldable pub negate : ℤ → ℤ
negate (pos n) = neg n
negate (negsuc n) = if leb (suc n) max_int64 then pos (suc n) else negsuc n

-- `if v > 0 { fmt.Fprintf(&sb, "%d…", v) }` for a `v` that is not negative.
abbrev pub part : ℕ → ℕ → Bytes
part v unit = if ltb 0 v then decimal v ++ unit ∷ [] else []

-- The parts of a duration that is not negative. A negative one (only the least int64 is left so)
-- has no part above 0, since `/` and `%` cut towards 0.
abbrev parts : ℤ → Bytes
parts (pos n) =
    let h = n / hour in
    let d = n - h * hour in
    let m = d / minute in
    let e = d - m * minute in part h b'h' ++ (part m b'm' ++ part (e / second) b's')
parts (negsuc n) = []

unfoldable pub flux_duration : ℤ → Bytes
unfolding round_second negate
flux_duration given =
    let d = round_second given in
    if is_zero d then utf8 "0s" else if is_negative d then b'-' ∷ parts (negate d) else parts d

abbrev pub perf_bucket : String
perf_bucket = "monitoring_vdc"

-- The verb %q on a text of the constants of perf.go, which have nothing to escape.
abbrev pub quoted : String → Bytes
quoted text = b'"' ∷ (utf8 text ++ b'"' ∷ [])

unfoldable pub flux_last_query : Bytes → String → Bytes
flux_last_query range_span measurement =
    utf8 "from(bucket:"
    ++ (quoted perf_bucket
        ++ (utf8 ") |> range(start: -"
            ++ (range_span
                ++ (utf8 ") |> filter(fn: (r) => r._measurement == "
                    ++ (quoted measurement ++ utf8 ") |> last()")))))

unfoldable pub flux_last_query_with_tag : Bytes → String → String → String → Bytes
flux_last_query_with_tag range_span measurement tag tag_value =
    utf8 "from(bucket:"
    ++ (quoted perf_bucket
        ++ (utf8 ") |> range(start: -"
            ++ (range_span
                ++ (utf8 ") |> filter(fn: (r) => r._measurement == "
                    ++ (quoted measurement
                        ++ (utf8 " and r."
                            ++ (utf8 tag
                                ++ (utf8 " == " ++ (quoted tag_value ++ utf8 ") |> last()")))))))))

-- ===== src/Obsclient/Apis/Paths.antt =====
-- The name of a namespace in the paths of metering.go.
use prometheus_obs_exporter.Prelude.{
  ℕ, ◌<◌, String, Bytes, utf8, ◌≡◌, ◌≢◌, refl, Bool, true, false, Option, none, some, [], ◌∷◌, ◌++◌,
  ◌==◌, ◌||◌, if◌then◌else◌, All, arith,
}
use prometheus_obs_exporter.Obsclient.Net.{Net}
use prometheus_obs_exporter.Obsclient.Apis.{quota_path, billing_path}

abbrev pub IsByte : ℕ → Type 0
IsByte c = c < 256

-- None of the bytes that end a segment of a path.
abbrev pub EndsNothing : ℕ → Type 0
EndsNothing c = (c ≢ b'/') × (c ≢ b'?') × (c ≢ b'#')

-- `url.PathEscape` makes a segment of any text, which `url.PathUnescape` reads back.
pub record Escapes (net : Net) : Type 0 where
  pub path_unescape : Bytes → Option Bytes
  pub segment : (s : Bytes) → All IsByte s → All EndsNothing (net.path_escape s)
  pub reads_back : (s : Bytes) → All IsByte s → path_unescape (net.path_escape s) ≡ some s

-- How a server reads a path: behind a prefix, one segment, whose escapes are undone, and the rest.
abbrev ends_segment : ℕ → Bool
ends_segment c = (c == b'/') || (c == b'?') || (c == b'#')

abbrev behind : Bytes → Bytes → Option Bytes
behind [] path = some path
behind (c ∷ prefix) [] = none
behind (c ∷ prefix) (d ∷ path) = let rest = behind prefix path in if c == d then rest else none

abbrev cut : Bytes → Bytes × Bytes
cut [] = ([], [])
cut (c ∷ path) =
    let (segment, rest) = cut path in if ends_segment c then ([], c ∷ path) else (c ∷ segment, rest)

abbrev with_rest : Bytes → Option Bytes → Option (Bytes × Bytes)
with_rest rest none = none
with_rest rest (some name) = some (name, rest)

abbrev read_cut : (Bytes → Option Bytes) → Bytes × Bytes → Option (Bytes × Bytes)
read_cut unescape (segment, rest) = with_rest rest (unescape segment)

abbrev read_behind : (Bytes → Option Bytes) → Option Bytes → Option (Bytes × Bytes)
read_behind unescape none = none
read_behind unescape (some path) = read_cut unescape (cut path)

abbrev pub read_path : (Bytes → Option Bytes) → Bytes → Bytes → Option (Bytes × Bytes)
read_path unescape prefix path = read_behind unescape (behind prefix path)

behind-append : (prefix path : Bytes) → behind prefix (prefix ++ path) ≡ some path
behind-append [] path = refl
behind-append (c ∷ prefix) path = ground (arith, behind-append prefix path)

cut-append :
    (segment rest : Bytes) (c : ℕ)
    → All EndsNothing segment
    → ends_segment c ≡ true
    → cut (segment ++ c ∷ rest) ≡ (segment, c ∷ rest)
cut-append [] rest c h e = rw e refl
cut-append (d ∷ segment) rest c h e =
    let stays : ends_segment d ≡ false = ground (arith, h.0) in
    rw (stays, cut-append segment rest c h.1 e) refl

module _ (net : Net) (law : Escapes net) where
  reads :
      (prefix name rest : Bytes) (c : ℕ)
      → All IsByte name
      → ends_segment c ≡ true
      → read_path law.path_unescape prefix (prefix ++ (net.path_escape name ++ c ∷ rest))
        ≡ some (name, c ∷ rest)
  reads prefix name rest c h e =
      rw
        (
          behind-append prefix (net.path_escape name ++ c ∷ rest),
          cut-append (net.path_escape name) rest c (law.segment name h) e,
          law.reads_back name h,
        )
        refl

  -- From the paths of the quota and of the usage of a namespace, whatever bytes its name has, a server
  -- that takes the segment behind the prefix of the route and undoes the escapes reads the name, and
  -- behind it the end of the route: no name leads to another namespace or to another route.
  pub namespace_paths :
      (name : String)
      → All IsByte (utf8 name)
      → (read_path law.path_unescape (utf8 "/object/namespaces/namespace/") (quota_path net name)
          ≡ some (utf8 name, utf8 "/quota"))
        × (read_path law.path_unescape (utf8 "/object/billing/namespace/") (billing_path net name)
            ≡ some (utf8 name, utf8 "/info?sizeunit=KB"))
  unfolding quota_path billing_path
  namespace_paths name h = (
    reads (utf8 "/object/namespaces/namespace/") (utf8 name) (utf8 "quota") b'/' h refl,
    reads (utf8 "/object/billing/namespace/") (utf8 name) (utf8 "info?sizeunit=KB") b'/' h refl,
  )

-- ===== src/Nats/Version.antt =====
-- `versionComponents` and `serverMinVersion` of embedded/nats/kv/kv.go.
use foliage_sdk.Common.{
  ℕ, ◌+◌, ◌-◌, ◌*◌, Bool, true, false, not, ◌&&◌, ◌||◌, Option, none, some, [], ◌∷◌, ◌==◌, ltb, leb,
  ◌≡◌, arith, if◌then◌else◌,
}
use foliage_sdk.Common.Text.{Str, dot}

abbrev is_digit : ℕ → Bool
is_digit c = leb b'0' c && leb c b'9'

-- The digits at the start, and what follows them.
unfoldable pub span_digits : Str → Str × Str
span_digits [] = ([], [])
span_digits (c ∷ s) =
    let (digits, rest) = span_digits s in if is_digit c then (c ∷ digits, rest) else ([], c ∷ s)

abbrev skip : ℕ → Str → Str
skip c [] = []
skip c (d ∷ s) = if d == c then s else d ∷ s

-- `strconv.Atoi` of digits, without the bound of an int; `none` is its error on an empty text.
unfoldable pub atoi_onto : ℕ → Str → ℕ
atoi_onto n [] = n
atoi_onto n (c ∷ s) = atoi_onto (n * 10 + (c - b'0')) s

abbrev pub atoi : Str → Option ℕ
atoi [] = none
atoi (c ∷ s) = some (atoi_onto 0 (c ∷ s))

pub record Version : Type 0 where
  pub major : ℕ
  pub minor : ℕ
  pub patch : ℕ

abbrev version_of : Option ℕ → Option ℕ → Option ℕ → Option Version
version_of (some a) (some b) (some c) = some (record { major = a; minor = b; patch = c })
version_of none b c = none
version_of (some a) none c = none
version_of (some a) (some b) none = none

-- `versionComponents`; `none` is an error, where all components are at most 0.
unfoldable pub version_components : Str → Option Version
version_components version =
    let (first, rest) = span_digits (skip b'v' version) in
    let (second, rest') = span_digits (skip dot rest) in
    let (third, rest'') = span_digits (skip dot rest') in
    version_of (atoi first) (atoi second) (atoi third)

-- `serverMinVersion` of the components; its calls ask for versions with a positive major number.
unfoldable pub is_min_version : Option Version → Version → Bool
is_min_version none v = false
is_min_version (some s) v = not (
    ltb s.major v.major
    || s.major == v.major && ltb s.minor v.minor
    || s.major == v.major && s.minor == v.minor && ltb s.patch v.patch)

-- A server that has a version has every version that this one has: the order is transitive.
is_min_version_trans :
    (s : Option Version) (v u : Version)
    → is_min_version s v ≡ true
    → is_min_version (some v) u ≡ true
    → is_min_version s u ≡ true
unfolding is_min_version
is_min_version_trans none v u h k = h
is_min_version_trans (some s) v u h k = ground arith

-- ===== src/Common/Text.antt =====
-- Go strings and byte slices as lists of byte values, with what the code uses of `strings`.
use Prim.Native.Nat.{ℕ, zero, suc, ◌-◌}
use Prim.Native.Char.{code}
use Prim.Native.String.{String}
use mathlib.Core.Path.{◌≡◌, refl}
use mathlib.Core.Logic.{◌↔◌}
use mathlib.Core.Bool.{Bool, true, false, ◌&&◌}
use mathlib.Core.List.{List, [], ◌∷◌, ◌++◌}
use native.Mathlib.Omega.{arith}
use foliage_sdk.Common.Tests.{◌==◌, if◌then◌else◌}
use foliage_sdk.Common.Lists.{length, drop}

abbrev pub Str : Type 0
Str = List ℕ

-- The bytes of a literal in ASCII.
abbrev pub codes : String → Str
codes String.[] = []
codes (String.◌∷◌ c s) = code c ∷ codes s

unfoldable pub str_eq : Str → Str → Bool
str_eq [] [] = true
str_eq [] (y ∷ ys) = false
str_eq (x ∷ xs) [] = false
str_eq (x ∷ xs) (y ∷ ys) = x == y && str_eq xs ys

pub str_eq_refl : (s : Str) → str_eq s s ≡ true
unfolding str_eq
str_eq_refl [] = refl
str_eq_refl (x ∷ xs) = ground (arith, str_eq_refl xs)

str_eq_sound : (s t : Str) → str_eq s t ≡ true → s ≡ t
unfolding str_eq
str_eq_sound [] [] h = refl
str_eq_sound [] (y ∷ ys) h = cc
str_eq_sound (x ∷ xs) [] h = cc
str_eq_sound (x ∷ xs) (y ∷ ys) h = ground (arith, str_eq_sound xs ys)

str_eq_complete : (s t : Str) → s ≡ t → str_eq s t ≡ true
str_eq_complete s t e = rw e (str_eq_refl t)

-- Two strings are found equal exactly when they are equal.
pub str_eq_iff : (s t : Str) → (str_eq s t ≡ true) ↔ (s ≡ t)
str_eq_iff s t = (str_eq_sound s t, str_eq_complete s t)

-- Cons the byte on the first piece of a split.
abbrev on_first : ℕ → List Str → List Str
on_first c [] = (c ∷ []) ∷ []
on_first c (t ∷ ts) = (c ∷ t) ∷ ts

-- strings.Split(s, sep) for a separator of one byte.
unfoldable pub split : ℕ → Str → List Str
split sep [] = [] ∷ []
split sep (c ∷ s) = let ts = split sep s in if c == sep then [] ∷ ts else on_first c ts

-- strings.Join(ts, sep) for a separator of one byte.
unfoldable pub join : ℕ → List Str → Str
join sep [] = []
join sep (t ∷ []) = t
join sep (t ∷ u ∷ ts) = t ++ (sep ∷ join sep (u ∷ ts))

abbrev pub dot : ℕ
dot = b'.'

-- strings.HasPrefix(s, prefix).
unfoldable pub has_prefix : Str → Str → Bool
has_prefix s [] = true
has_prefix [] (p ∷ ps) = false
has_prefix (c ∷ s) (p ∷ ps) = c == p && has_prefix s ps

-- strings.Replace(s, old, "", 1): the first occurrence of `old` is taken out.
unfoldable pub remove_first : Str → Str → Str
unfolding has_prefix
remove_first old [] = []
remove_first old (c ∷ s) =
    let rest = c ∷ remove_first old s in
    if has_prefix (c ∷ s) old then drop (length old) (c ∷ s) else rest

-- strings.TrimPrefix(s, prefix).
unfoldable pub trim_prefix : Str → Str → Str
trim_prefix s prefix = if has_prefix s prefix then drop (length prefix) s else s

-- strings.ReplaceAll(s, old, "") for an `old` that is not empty, after `skipped` bytes.
unfoldable pub remove_all_from : Str → ℕ → Str → Str
remove_all_from old skipped [] = []
remove_all_from old (suc skipped) (c ∷ s) = remove_all_from old skipped s
remove_all_from old zero (c ∷ s) =
    let found = remove_all_from old (length old - 1) s in
    let other = c ∷ remove_all_from old 0 s in if has_prefix (c ∷ s) old then found else other

-- strings.ReplaceAll(s, old, "").
abbrev pub remove_all : Str → Str → Str
remove_all [] s = s
remove_all (o ∷ old) s = remove_all_from (o ∷ old) 0 s

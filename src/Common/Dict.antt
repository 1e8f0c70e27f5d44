-- ===== src/Common/Dict.antt =====
-- Go maps with string keys as association lists; also sync.Map, where Range sees every key once.
use mathlib.Core.Path.{◌≡◌, refl}
use mathlib.Core.Option.{Option, none, some}
use mathlib.Core.List.{List, [], ◌∷◌}
use native.Mathlib.Omega.{arith}
use foliage_sdk.Common.Tests.{if◌then◌else◌}
use foliage_sdk.Common.Text.{Str, str_eq, str_eq_iff}

abbrev pub Dict {ℓ} : Type ℓ → Type ℓ
Dict V = List (Str × V)

module _ {ℓ} {V : Type ℓ} where
  -- v, ok := m[k]
  unfoldable pub load : Str → Dict V → Option V
  load k [] = none
  load k ((j, v) ∷ m) = if str_eq j k then some v else load k m

  -- m[k] = v
  unfoldable pub assign : Str → V → Dict V → Dict V
  assign k v [] = (k, v) ∷ []
  assign k v ((j, w) ∷ m) = if str_eq j k then (k, v) ∷ m else (j, w) ∷ assign k v m

  -- delete(m, k)
  unfoldable pub delete : Str → Dict V → Dict V
  delete k [] = []
  delete k ((j, w) ∷ m) = let rest = delete k m in if str_eq j k then rest else (j, w) ∷ rest

  pub load-assign :
      (j k : Str) (v : V) (m : Dict V)
      → load j (assign k v m) ≡ (if str_eq k j then some v else load j m)
  unfolding load assign
  load-assign j k v [] = refl
  load-assign j k v ((i, w) ∷ m) =
      ground (arith, str_eq_iff k j, str_eq_iff i k, str_eq_iff i j, load-assign j k v m)

  pub load-delete :
      (j k : Str) (m : Dict V) → load j (delete k m) ≡ (if str_eq k j then none else load j m)
  unfolding load delete
  load-delete j k [] = ground arith
  load-delete j k ((i, w) ∷ m) =
      ground (arith, str_eq_iff k j, str_eq_iff i k, str_eq_iff i j, load-delete j k m)

-- ===== src/System/Maps/Laws.antt =====
-- What can be read from a union and an intersection of maps (statefun/system/system.go).
use foliage_sdk.Common.{
  Bool, Option, none, some, [], ◌∷◌, ◌≡◌, refl, if◌then◌else◌, arith, inl, inr, Option-cases,
}
use foliage_sdk.Common.Dict.{Dict, load, assign, load-assign}
use foliage_sdk.Common.Text.{Str, str_eq_iff}
use foliage_sdk.System.Maps.{copy_into, maps_union, intersect_into, maps_intersection}

abbrev pub or_else {ℓ} : {A : Type ℓ} → Option A → Option A → Option A
or_else none b = b
or_else (some a) b = some a

-- No key of a Go map stands in it twice.
abbrev pub Distinct {ℓ} : {V : Type ℓ} → Dict V → Type ℓ
Distinct [] = Unit
Distinct ((k, v) ∷ m) = (load k m ≡ none) × Distinct m

module _ {ℓ} {T : Type ℓ} where
  load_empty : (j : Str) → load {V = T} j [] ≡ none
  unfolding load
  load_empty j = refl

  load-copy_into :
      (j : Str) (m merged : Dict T)
      → Distinct m
      → load j (copy_into m merged) ≡ or_else (load j m) (load j merged)
  unfolding load copy_into
  load-copy_into j [] merged d = refl
  load-copy_into j ((k, v) ∷ m) merged d =
      ground (
        arith,
        load-copy_into j m (assign k v merged) d.1,
        load-assign j k v merged,
        str_eq_iff k j,
      )

  -- A key reads from the union as from the second map, and as from the first where the second
  -- lacks it. The maps hold no key twice.
  load-maps_union :
      (j : Str) (m1 m2 : Dict T)
      → Distinct m1
      → Distinct m2
      → load j (maps_union m1 m2) ≡ or_else (load j m2) (load j m1)
  unfolding maps_union load
  load-maps_union j m1 m2 d1 d2 =
      ground (arith, load-copy_into j m2 (copy_into m1 []) d2, load-copy_into j m1 [] d1)

  -- The value of a key that both maps have.
  abbrev pub common : Bool → Option T → Option T → Option T
  common first none b = none
  common first (some v1) none = none
  common first (some v1) (some v2) = some (if first then v1 else v2)

  load-intersect_into :
      (j : Str) (m1 m2 : Dict T) (first : Bool) (acc : Dict T)
      → Distinct m1
      → load j (intersect_into m1 m2 first acc)
        ≡ or_else (common first (load j m1) (load j m2)) (load j acc)
  unfolding load intersect_into
  load-intersect_into j [] m2 first acc d = refl
  load-intersect_into j ((k, v1) ∷ m1) m2 first acc d = elim (Option-cases (load k m2)) [
    | inl e ↦ rw e (ground (arith, load-intersect_into j m1 m2 first acc d.1, str_eq_iff k j, d.0))
    | inr (v2, e) ↦ rw e (
        ground (
          arith,
          load-intersect_into j m1 m2 first (assign k (if first then v1 else v2) acc) d.1,
          load-assign j k (if first then v1 else v2) acc,
          str_eq_iff k j,
          d.0,
        ))
  ]

  -- A key reads from the intersection exactly if both maps have it, with the value that
  -- `first` chooses. The first map holds no key twice.
  load-maps_intersection :
      (j : Str) (m1 m2 : Dict T) (first : Bool)
      → Distinct m1
      → load j (maps_intersection m1 m2 first) ≡ common first (load j m1) (load j m2)
  unfolding maps_intersection
  load-maps_intersection j m1 m2 first d =
      ground (arith, load-intersect_into j m1 m2 first [] d, load_empty j)

-- ===== src/System/Maps.antt =====
-- `MapsUnion` and `MapsIntersection` of statefun/system/system.go.
pub mod Laws
use foliage_sdk.Common.{Bool, Option, none, some, List, [], ◌∷◌, if◌then◌else◌}
use foliage_sdk.Common.Dict.{Dict, load, assign}
use foliage_sdk.Common.Text.{Str}

module _ {ℓ} {T : Type ℓ} where
  -- The loop that copies a map into `merged`.
  unfoldable pub copy_into : Dict T → Dict T → Dict T
  copy_into [] merged = merged
  copy_into ((k, v) ∷ m) merged = copy_into m (assign k v merged)

  unfoldable pub maps_union : Dict T → Dict T → Dict T
  unfolding copy_into
  maps_union m1 m2 = copy_into m2 (copy_into m1 [])

  -- The body of the loop of `MapsIntersection`.
  abbrev pub keep_common : Option T → Str → T → Bool → Dict T → Dict T
  keep_common none k v1 first intersection = intersection
  keep_common (some v2) k v1 first intersection = assign k (if first then v1 else v2) intersection

  unfoldable pub intersect_into : Dict T → Dict T → Bool → Dict T → Dict T
  intersect_into [] m2 first intersection = intersection
  intersect_into ((k, v1) ∷ m1) m2 first intersection =
      intersect_into m1 m2 first (keep_common (load k m2) k v1 first intersection)

  unfoldable pub maps_intersection : Dict T → Dict T → Bool → Dict T
  unfolding intersect_into
  maps_intersection m1 m2 values_from_map1 = intersect_into m1 m2 values_from_map1 []

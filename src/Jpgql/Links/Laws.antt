-- ===== src/Jpgql/Links/Laws.antt =====
-- Which targets a filter finds (embedded/graph/jpgql/tools.go).
use foliage_sdk.Common.{
  ℕ, Bool, ◌&&◌, ◌||◌, Option, none, some, List, [], ◌∷◌, ◌≡◌, arith, any_of, Option-cases, inl,
  inr, ◌∙◌, sym, ap,
}
use foliage_sdk.Common.Dict.{Dict, load, load-assign}
use foliage_sdk.Common.Text.{Str, str_eq, str_eq_iff}
use foliage_sdk.Jpgql.Filter.{Feature, FilterData, matches}
use foliage_sdk.Jpgql.Links.{
  add_match, has_index, is_some, get_all_links, get_specific_link_indices, add_matches,
  get_object_ids_from_filter_data, ◌>>=◌,
}

load-add_match :
    (j : Str) (dnf : FilterData) (id : Str) (indices : List Str) (found : Dict ℕ)
    → is_some (load j (add_match dnf id indices found))
      ≡ (is_some (load j found) || (str_eq id j && matches (has_index indices) dnf))
unfolding add_match
load-add_match j dnf id indices found = ground (arith, load-assign j id 0 found, str_eq_iff id j)

abbrev indices_or_none : Option (List Str) → List Str
indices_or_none none = []
indices_or_none (some indices) = indices

module _ (get_keys : Str → List Str) (object_id : Str) where
  -- The link of a pair of type and target matches, by its indices in the cache.
  abbrev pub link_matches : FilterData → Str × Str → Bool
  link_matches dnf pair =
      matches
        (has_index (indices_or_none (get_specific_link_indices get_keys object_id pair.0 pair.1)))
        dnf

  add_matches_lem :
      (j : Str) (dnf : FilterData) (pairs : List (Str × Str)) (found result : Dict ℕ)
      → add_matches get_keys object_id dnf pairs found ≡ some result
      → is_some (load j result) ≡ (
          is_some (load j found)
          || any_of (λ (p : Str × Str). str_eq p.1 j && link_matches dnf p) pairs)
  unfolding add_matches
  add_matches_lem j dnf [] found result h = ground arith
  add_matches_lem j dnf ((link_type, id) ∷ pairs) found result h =
      elim (Option-cases (get_specific_link_indices get_keys object_id link_type id)) [
        | inl e ↦ absurd (ground arith)
        | inr (indices, e) ↦
            let rest =
              add_matches_lem j dnf pairs (add_match dnf id indices found) result (ground arith) in
            rw e (ground (arith, rest, load-add_match j dnf id indices found))
      ]

  -- `GetObjectIDsFromLinkTypeAndFilterData` of a filter that is not empty finds an object exactly if
  -- some link of the type leads to it and matches the filter. No key has too few tokens.
  pub get_object_ids_from_filter_data_lem :
      (link_type j : Str) (c : List Feature) (dnf : FilterData) (pairs : List (Str × Str))
      (result : Dict ℕ)
      → get_all_links get_keys object_id link_type ≡ some pairs
      → get_object_ids_from_filter_data get_keys object_id link_type (c ∷ dnf) ≡ some result
      → is_some (load j result)
        ≡ any_of (λ (p : Str × Str). str_eq p.1 j && link_matches (c ∷ dnf) p) pairs
  unfolding get_object_ids_from_filter_data load
  get_object_ids_from_filter_data_lem link_type j c dnf pairs result all h =
      add_matches_lem j (c ∷ dnf) pairs [] result
        (ap (λ o. o >>= λ pairs'. add_matches get_keys object_id (c ∷ dnf) pairs' []) (sym all) ∙ h)

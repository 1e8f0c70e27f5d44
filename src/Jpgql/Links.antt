-- ===== src/Jpgql/Links.antt =====
-- The search for link targets of embedded/graph/jpgql/tools.go. The answers of `GetKeysByPattern` are
-- a parameter; `none` is an index out of range, on a key with too few tokens.
pub mod Laws
use foliage_sdk.Common.{
  Bool, true, false, ℕ, Option, none, some, List, [], ◌∷◌, ◌≡◌, any_of, if◌then◌else◌,
}
use foliage_sdk.Common.Dict.{Dict, load, assign}
use foliage_sdk.Common.Text.{Str, codes, split, dot, str_eq}
use foliage_sdk.Cache.Key.Laws.{last_token}
use foliage_sdk.Cache.Store.{is_empty}
use foliage_sdk.Graph.Keys.{◌/◌, out_body, out_index, last_two_of}
use foliage_sdk.Jpgql.Filter.{
  FilterData, FilterResult, filter_of, filter_error, Expr, parse_filter, matches,
}

-- `AnyDepthStop`
pub record AnyDepthStop : Type 0 where
  pub link_type : Str
  pub filter_query : Str
  pub query_tail : Str

-- The query for the links of a type, or of every type.
unfoldable pub links_query : Str → Str → Str
links_query object_id link_type =
    if str_eq link_type (codes "*")
    then out_body object_id (codes ">")
    else out_body object_id (link_type / codes ">")

unfoldable pub add_targets : List Str → Dict ℕ → Dict ℕ
add_targets [] found = found
add_targets (key ∷ keys) found = add_targets keys (assign (last_token (split dot key)) 0 found)

infixl 5 ◌>>=◌
abbrev ◌>>=◌ : {A B : Type 0} → Option A → (A → Option B) → Option B
none >>= f = none
some a >>= f = f a

unfoldable pub pairs_of : List Str → Option (List (Str × Str))
pairs_of [] = some []
pairs_of (key ∷ keys) = do pair ← last_two_of key; pairs ← pairs_of keys; some (pair ∷ pairs)

unfoldable pub indices_of : List Str → Option (List Str)
indices_of [] = some []
indices_of (key ∷ keys) = do
  pair ← last_two_of key
  indices ← indices_of keys
  some ((pair.0 / pair.1) ∷ indices)

abbrev pub is_some : {A : Type 0} → Option A → Bool
is_some none = false
is_some (some a) = true

abbrev pub has_index : List Str → Str → Bool
has_index indices i = any_of (λ (j : Str). str_eq j i) indices

-- What one pair adds to the result.
unfoldable pub add_match : FilterData → Str → List Str → Dict ℕ → Dict ℕ
add_match dnf id indices found =
    if is_some (load id found)
    then found
    else if matches (has_index indices) dnf
    then assign id 0 found
    else found

-- Every value 1 of the second map is put into the first.
unfoldable pub add_stopped : Dict ℕ → Dict ℕ → Dict ℕ
add_stopped [] found = found
add_stopped ((id, v) ∷ stopped) found = add_stopped stopped (assign id 1 found)

module _ (get_keys : Str → List Str) where
  -- `GetObjectIDsFromLinkType`
  unfoldable pub get_object_ids_from_link_type : Str → Str → Dict ℕ
  get_object_ids_from_link_type object_id link_type =
      if is_empty link_type
      then (object_id, 0) ∷ []
      else add_targets (get_keys (links_query object_id link_type)) []

  -- `GetAllLinksFromSpecifiedLinkType`
  unfoldable pub get_all_links : Str → Str → Option (List (Str × Str))
  get_all_links object_id link_type =
      if is_empty link_type then some [] else pairs_of (get_keys (links_query object_id link_type))

  -- `GetSpecificLinkIndices`
  unfoldable pub get_specific_link_indices : Str → Str → Str → Option (List Str)
  get_specific_link_indices from link_type to =
      if is_empty link_type
      then some []
      else indices_of (get_keys (out_index from (link_type / (to / codes ">"))))

  -- The loop of `GetObjectIDsFromLinkTypeAndFilterData` over the pairs of type and target.
  unfoldable pub add_matches : Str → FilterData → List (Str × Str) → Dict ℕ → Option (Dict ℕ)
  add_matches object_id dnf [] found = some found
  add_matches object_id dnf ((link_type, id) ∷ pairs) found = do
    indices ← get_specific_link_indices object_id link_type id
    add_matches object_id dnf pairs (add_match dnf id indices found)

  -- `GetObjectIDsFromLinkTypeAndFilterData`
  unfoldable pub get_object_ids_from_filter_data : Str → Str → FilterData → Option (Dict ℕ)
  get_object_ids_from_filter_data object_id link_type [] =
      some (get_object_ids_from_link_type object_id link_type)
  get_object_ids_from_filter_data object_id link_type (c ∷ dnf) = do
    pairs ← get_all_links object_id link_type
    add_matches object_id (c ∷ dnf) pairs []

  module _ (parse : Str → Option Expr) where
    abbrev by_filter : Str → Str → FilterResult → Option (Dict ℕ)
    by_filter object_id link_type (filter_error e) = some []
    by_filter object_id link_type (filter_of dnf) =
        get_object_ids_from_filter_data object_id link_type dnf

    -- `GetObjectIDsFromLinkTypeAndLinkFilterQuery`
    unfoldable pub get_object_ids_from_filter_query : Str → Str → Str → Option (Dict ℕ)
    get_object_ids_from_filter_query object_id link_type query =
        if is_empty query
        then some (get_object_ids_from_link_type object_id link_type)
        else by_filter object_id link_type (parse_filter parse query)

    -- `GetObjectIDsFromLinkTypeAndLinkFilterQueryWithAnyDepthStop`
    unfoldable pub get_object_ids_with_any_depth_stop :
        Str → Str → Str → Option AnyDepthStop → Option (Dict ℕ)
    get_object_ids_with_any_depth_stop object_id link_type query none =
        get_object_ids_from_filter_query object_id link_type query
    get_object_ids_with_any_depth_stop object_id link_type query (some stop) = do
      found ← get_object_ids_from_filter_query object_id link_type query
      stopped ← get_object_ids_from_filter_query object_id stop.link_type stop.filter_query
      some (add_stopped stopped found)

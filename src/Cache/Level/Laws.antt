-- ===== src/Cache/Level/Laws.antt =====
-- Reads of the tree of statefun/cache/cache.go: children after a write, and the two walks.
use foliage_sdk.Common.{
  ℕ, Bool, Option, none, some, List, [], ◌∷◌, ◌≡◌, refl, arith, inl, inr, Option-cases,
  if◌then◌else◌,
}
use foliage_sdk.Common.Int.{ℤ}
use foliage_sdk.Common.Text.{Str, str_eq, str_eq_iff}
use foliage_sdk.Cache.Value.{
  Entry, StoreValue, ValueMap, store_value, nil, bind, entry, store, find_child, assign_child,
  delete_child, load_child,
}
use foliage_sdk.Cache.Level.{last_token_and_parent, last_key_value}

pub find-assign_child :
    (j k : Str) (v : StoreValue) (m : ValueMap)
    → find_child j (assign_child k v m) ≡ (if str_eq k j then some v else find_child j m)
unfolding find_child assign_child
find-assign_child j k v nil = refl
find-assign_child j k v (bind i w m) =
    ground (arith, str_eq_iff k j, str_eq_iff i k, str_eq_iff i j, find-assign_child j k v m)

pub find-delete_child :
    (j k : Str) (m : ValueMap)
    → find_child j (delete_child k m) ≡ (if str_eq k j then none else find_child j m)
unfolding find_child delete_child
find-delete_child j k nil = ground arith
find-delete_child j k (bind i w m) =
    ground (arith, str_eq_iff k j, str_eq_iff i k, str_eq_iff i j, find-delete_child j k m)

-- What can be seen of a node: all fields of its value. Subscribers and the time of the last
-- loss of consistency are left out.
pub record Seen : Type 0 where
  pub value : Option Str
  pub value_exists : Bool
  pub purge_state : ℕ
  pub value_update_time : ℤ
  pub sync_needed : Bool
  pub synced_with_kv : Bool

abbrev pub seen_of : Entry → Seen
seen_of e = record {
  value = e.value;
  value_exists = e.value_exists;
  purge_state = e.purge_state;
  value_update_time = e.value_update_time;
  sync_needed = e.sync_needed;
  synced_with_kv = e.synced_with_kv;
}

abbrev pub seen_node : Option StoreValue → Option Seen
seen_node none = none
seen_node (some csv) = some (seen_of (entry csv))

-- What a reader sees at a path of the tree.
unfoldable pub view : List Str → StoreValue → Option Seen
view path csv = seen_node (last_key_value path csv)

abbrev pub view_child : List Str → Option StoreValue → Option Seen
view_child path none = none
view_child path (some c) = view path c

pub view_here : (e : Entry) (m : ValueMap) → view [] (store_value e m) ≡ some (seen_of e)
unfolding view last_key_value
view_here e m = refl

-- A path is read a token at a time.
pub view_step :
    (t : Str) (path : List Str) (csv : StoreValue)
    → view (t ∷ path) csv ≡ view_child path (find_child t (store csv))
unfolding view last_key_value load_child
view_step t path csv = ground arith

abbrev pub child_at : Option (Str × StoreValue) → Option StoreValue
child_at none = none
child_at (some (t, parent)) = load_child t parent

-- To look up the last token under its parent is to walk all the tokens.
pub load_child-last_token_and_parent :
    (t : Str) (tokens : List Str) (csv : StoreValue)
    → child_at (last_token_and_parent (t ∷ tokens) csv) ≡ last_key_value (t ∷ tokens) csv
unfolding last_token_and_parent last_key_value load_child
load_child-last_token_and_parent t [] csv = ground arith
load_child-last_token_and_parent t (u ∷ tokens) csv = elim (Option-cases (load_child t csv)) [
  | inl e ↦ ground arith
  | inr (c, e) ↦ ground (arith, load_child-last_token_and_parent u tokens c)
]

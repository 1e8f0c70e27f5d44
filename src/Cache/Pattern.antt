-- ===== src/Cache/Pattern.antt =====
-- `GetKeysByPattern` of statefun/cache/cache.go.
pub mod Laws
use foliage_sdk.Common.{
  ℕ, Bool, true, false, not, ◌&&◌, ◌||◌, Option, none, some, List, [], ◌∷◌, ◌++◌, ◌==◌, ltb, length,
  take, ◌-◌, if◌then◌else◌,
}
use foliage_sdk.Common.Int.{ℤ, pos, ltb_ℤ}
use foliage_sdk.Common.Text.{Str, codes, dot, str_eq}
use foliage_sdk.Cache.Key.{to_store_key, from_store_key}
use foliage_sdk.Cache.Level.{at_parent, last_token_and_parent, last_existing_value, tokens_of}
use foliage_sdk.Cache.Store.{Store, is_empty}
use foliage_sdk.Cache.Value.{
  Entry, StoreValue, ValueMap, store_value, nil, bind, entry, store, load_child,
}

-- The map `keys`, as the list of its keys.
unfoldable pub has_key : Str → List Str → Bool
has_key k [] = false
has_key k (j ∷ keys) = str_eq j k || has_key k keys

unfoldable pub add_key : Str → List Str → List Str
add_key k keys = if has_key k keys then keys else k ∷ keys

-- What a watch of the bucket sends before its nil, by key and value.
abbrev pub Updates : Type 0
Updates = List (Str × Str)

-- `appendKeysFromKV`: the loop ends at the first value with fewer than nine bytes.
unfoldable pub append_keys : Str → Updates → List Str → List Str
append_keys prefix [] keys = keys
append_keys prefix ((store_key, value) ∷ updates) keys =
    let rest = append_keys prefix updates (add_key (from_store_key prefix store_key) keys) in
    if ltb (length value) 9 then keys else rest

-- `none` is an error of the watch.
abbrev pub append_keys_from_kv : Str → Option Updates → List Str → List Str
append_keys_from_kv prefix none keys = keys
append_keys_from_kv prefix (some updates) keys = append_keys prefix updates keys

unfoldable pub add_if_exists : Entry → Str → List Str → List Str
add_if_exists e key keys = if e.value_exists then add_key key keys else keys

-- The loop over the children for the token `*`.
unfoldable pub level_keys : Str → ValueMap → List Str → List Str
level_keys prefix nil keys = keys
level_keys prefix (bind k (store_value e m) rest) keys =
    level_keys prefix rest (add_if_exists e (prefix ++ k) keys)

-- The loop over all levels below for the token `>`.
unfoldable pub all_keys : Str → ValueMap → List Str → List Str
all_keys prefix nil keys = keys
all_keys prefix (bind k (store_value e m) rest) keys =
    all_keys prefix rest
      (all_keys (prefix ++ (k ++ (dot ∷ []))) m (add_if_exists e (prefix ++ k) keys))

abbrev pub is_lossy : Entry → Bool
is_lossy e = ltb_ℤ (pos 0) e.store_consistency_with_kv_loss_time

-- Some level of the tree is inconsistent with the bucket.
unfoldable pub is_lossy_below : ValueMap → Bool
is_lossy_below nil = false
is_lossy_below (bind k (store_value e m) rest) =
    let deeper = is_lossy_below m in
    let others = is_lossy_below rest in is_lossy e || deeper || others

unfoldable pub is_lossy_child : ValueMap → Bool
is_lossy_child nil = false
is_lossy_child (bind k (store_value e m) rest) = is_lossy e || is_lossy_child rest

abbrev pub restore : Entry → Entry
restore e = record e { store_consistency_with_kv_loss_time = pos 0 }

-- The loss times of all levels are reset.
unfoldable pub restore_below : ValueMap → ValueMap
restore_below nil = nil
restore_below (bind k (store_value e m) rest) =
    bind k (store_value (restore e) (restore_below m)) (restore_below rest)

-- The keys that are found, and what becomes of the node above the last token of the pattern.
unfoldable pub keys_at : Str → Str → Option Updates → Str → StoreValue → List Str × StoreValue
keys_at store_prefix pattern updates token (store_value e m) =
    let prefix = take (length pattern - 1) pattern in
    if str_eq token (codes "*")
    then (let keys = level_keys prefix m [] in
        let more = append_keys_from_kv store_prefix updates keys in
        if is_lossy e
        then (
          more,
          if length keys == length more && not (is_lossy_child m)
              then store_value (restore e) m
              else store_value e m,
        )
        else (keys, store_value e m))
    else if str_eq token (codes ">")
    then (let keys = all_keys prefix m [] in
        let more = append_keys_from_kv store_prefix updates keys in
        if is_lossy e || is_lossy_below m
        then (
          more,
          if length keys == length more
              then store_value (restore e) (restore_below m)
              else store_value e m,
        )
        else (keys, store_value e m))
    else (let keys : List Str = elim (load_child token (store_value e m)) [
      | some c ↦ pattern ∷ []
      | none ↦ []
    ] in
        (
          if is_lossy e then append_keys_from_kv store_prefix updates keys else keys,
          store_value e m,
        ))

-- No level corresponds to the pattern, or its last token is empty.
unfoldable pub keys_above : Str → Option Updates → StoreValue → List Str
keys_above store_prefix updates ancestor =
    if is_lossy (entry ancestor) then append_keys_from_kv store_prefix updates [] else []

module _ (kv_watch : Str → Option Updates) where
  -- `GetKeysByPattern`.
  unfoldable pub get_keys_by_pattern : Str → Store → Store × List Str
  get_keys_by_pattern pattern s =
      let store_prefix = s.cache_config.kv_store_prefix in
      let updates = kv_watch (to_store_key store_prefix pattern) in
      let above =
        keys_above store_prefix updates (last_existing_value (tokens_of pattern) s.root_value) in
      elim (last_token_and_parent (tokens_of pattern) s.root_value) [
        | none ↦ (s, above)
        | some (token, parent) ↦ if is_empty token then (s, above) else (
          record s {
            root_value =
                at_parent false (λ i. pos 0) (λ t p. (keys_at store_prefix pattern updates t p).1)
                  (tokens_of pattern) s.root_value;
          },
          (keys_at store_prefix pattern updates token parent).0,
        )
      ]

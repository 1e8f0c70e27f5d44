-- ===== src/Cache/Subscribe.antt =====
-- `SubscribeLevelCallback`, `UnsubscribeLevelCallback` and `GetValueAsJSON` of
-- statefun/cache/cache.go.
pub mod Laws
use foliage_sdk.Common.{Bool, true, false, Option, none, some, List, [], if◌then◌else◌}
use foliage_sdk.Common.Dict.{assign}
use foliage_sdk.Common.Dict
use foliage_sdk.Common.Int.{ℤ, pos}
use foliage_sdk.Common.Text.{Str}
use foliage_sdk.Cache.Level.{Clock, at_parent, tokens_of}
use foliage_sdk.Cache.Store.{
  Store, KvReply, Error, not_a_json, Fetched, value_of, failed, panic, get_value,
}
use foliage_sdk.Cache.Value.{StoreValue, store_value}

-- A new channel, to which nothing was sent, takes the place of an older one of the same id.
unfoldable pub add_subscriber : Str → Str → StoreValue → StoreValue
add_subscriber callback_id token (store_value e m) =
    store_value (record e { notify_updates = assign callback_id [] e.notify_updates }) m

unfoldable pub remove_subscriber : Str → Str → StoreValue → StoreValue
remove_subscriber callback_id token (store_value e m) =
    store_value (record e { notify_updates = Dict.delete callback_id e.notify_updates }) m

-- `SubscribeLevelCallback`.
unfoldable pub subscribe_level_callback : Clock → Str → Str → Store → Store
subscribe_level_callback clock key callback_id s = record s {
  root_value = at_parent true clock (add_subscriber callback_id) (tokens_of key) s.root_value;
}

-- `UnsubscribeLevelCallback`.
unfoldable pub unsubscribe_level_callback : Str → Str → Store → Store
unsubscribe_level_callback key callback_id s = record s {
  root_value =
      at_parent false (λ i. pos 0) (remove_subscriber callback_id) (tokens_of key) s.root_value;
}

-- `easyjson.JSONFromBytes` is a parameter, with the type of JSON values.
module _ (Json : Type 0) (json_from_bytes : Str → Option Json) where
  pub data FetchedJson : Type 0 where
    json_of : Json → FetchedJson
    json_failed : Error → FetchedJson
    json_panic : FetchedJson

  abbrev bytes_of : Option Str → Str
  bytes_of none = []
  bytes_of (some s) = s

  unfoldable pub parse_value : Str → Fetched → FetchedJson
  parse_value key (failed e) = json_failed e
  parse_value key panic = json_panic
  parse_value key (value_of v) = elim (json_from_bytes (bytes_of v)) [
    | some j ↦ json_of j
    | none ↦ json_failed (not_a_json key)
  ]

  -- `GetValueAsJSON`.
  unfoldable pub get_value_as_json : (Str → KvReply) → Clock → Str → Store → Store × FetchedJson
  get_value_as_json kv_get clock key s =
      let (s', fetched) = get_value kv_get clock key s in (s', parse_value key fetched)

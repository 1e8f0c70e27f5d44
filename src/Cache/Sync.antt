-- ===== src/Cache/Sync.antt =====
-- The two routines of `NewCacheStore` (statefun/cache/cache.go): what `storeUpdatesHandler` does with
-- an update of the bucket, and what `kvLazyWriter` does with a child that it meets.
pub mod Updates
pub mod Replication
pub mod Writer
pub mod Lru
use foliage_sdk.Common.{
  ℕ, zero, suc, Bool, true, false, not, ◌&&◌, Option, none, some, List, [], ◌∷◌, ◌==◌, ltb, length,
  ◌-◌, if◌then◌else◌,
}
use foliage_sdk.Common.Int.{ℤ, pos, ltb_ℤ, eqb_ℤ}
use foliage_sdk.Common.Text.{Str}
use foliage_sdk.Cache.Key.{from_store_key}
use foliage_sdk.Cache.Level.{Clock, tokens_of}
use foliage_sdk.Cache.Record.{KvRecord, empty, short, record_of, parse_record, final_bytes}
use foliage_sdk.Cache.Store.{Store, set_value, get_value_update_time}
use foliage_sdk.Cache.Value.{
  Entry, StoreValue, store_value, find_child, assign_child, try_purge_ready, try_purge_confirm,
}

-- A change of the node at a path (`getLastKeyCacheStoreValue`); a missing node changes nothing.
unfoldable pub at_value : (Entry → Entry) → List Str → StoreValue → StoreValue
at_value f [] (store_value e m) = store_value (f e) m
at_value f (t ∷ path) (store_value e m) = elim (find_child t m) [
  | none ↦ store_value e m
  | some c ↦ store_value e (assign_child t (at_value f path c) m)
]

-- The bucket holds the value of the cache.
unfoldable pub confirm_update : Entry → Entry
confirm_update e = (try_purge_confirm (record e { synced_with_kv = true })).0

-- The bucket has dropped the value.
unfoldable pub confirm_delete : Entry → Entry
confirm_delete e = (try_purge_confirm (try_purge_ready (record e { synced_with_kv = true })).0).0

abbrev at_key : (Entry → Entry) → Str → Store → Store
at_key f key s = record s { root_value = at_value f (tokens_of key) s.root_value }

-- An update whose record has a time, a flag and a value. The second result is the key that is
-- deleted from the bucket, if any.
unfoldable pub handle_record : Clock → Str → Str → ℤ → ℕ → Str → Store → Store × Option Str
handle_record clock store_key key kv_time flag value s =
    let cache_time = get_value_update_time key s in
    if ltb_ℤ cache_time kv_time
    then (if flag == 1
        then ((set_value clock key value false kv_time [] s).0, none)
        else (s, some store_key))
    else if eqb_ℤ kv_time cache_time
    then (at_key confirm_update key s, if flag == 0 then some store_key else none)
    else (s, none)

abbrev dispatch_record : Clock → Str → Str → KvRecord → Store → Store × Option Str
dispatch_record clock store_key key empty s = (at_key confirm_delete key s, none)
dispatch_record clock store_key key short s = (s, none)
dispatch_record clock store_key key (record_of time flag value) s =
    handle_record clock store_key key time flag value s

-- One entry that `storeUpdatesHandler` receives, by its key in the bucket and its bytes.
unfoldable pub handle_update : Clock → Str → Str → Store → Store × Option Str
handle_update clock store_key bytes s =
    dispatch_record clock store_key (from_store_key s.cache_config.kv_store_prefix store_key)
      (parse_record bytes) s

-- What `kvLazyWriter` takes from a child under its lock: the bytes to put and the time of the value
-- that they stand for (nil and 0 where nothing has to be synchronised), and whether the
-- consistency of the level is lost.
pub record Visit : Type 0 where
  pub child : Entry
  pub bytes : Option Str
  pub time : ℤ
  pub lost : Bool

unfoldable pub visit_child : ℤ → Entry → Visit
visit_child lru_treshold_time e =
    if e.sync_needed
    then record {
      child = e;
      bytes = some (final_bytes e);
      time = e.value_update_time;
      lost = false;
    }
    else if ltb_ℤ (pos 0) e.value_update_time
        && not (ltb_ℤ lru_treshold_time e.value_update_time)
        && e.purge_state == 0
    then record {
      child = (try_purge_confirm (try_purge_ready e).0).0;
      bytes = none;
      time = pos 0;
      lost = true;
    }
    else record { child = e; bytes = none; time = pos 0; lost = false }

abbrev pub bytes_or_nil : Option Str → Str
bytes_or_nil none = []
bytes_or_nil (some s) = s

-- The second half of the visit, after the lock was given up: the test of `syncNeeded` sees the child
-- as it is now. The result is what is put into the bucket, if anything.
unfoldable pub put_visited : Visit → Entry → Option Str
put_visited v now = if now.sync_needed then some (bytes_or_nil v.bytes) else none

-- The bucket took the bytes: the value is no longer to be written, unless it changed since.
unfoldable pub acknowledge : Visit → Entry → Entry
acknowledge v e = if eqb_ℤ v.time e.value_update_time then record e { sync_needed = false } else e

-- `sort.Slice` of the times, the latest first.
unfoldable pub insert_time : ℤ → List ℤ → List ℤ
insert_time t [] = t ∷ []
insert_time t (u ∷ times) = if ltb_ℤ t u then u ∷ insert_time t times else t ∷ u ∷ times

unfoldable pub sort_times : List ℤ → List ℤ
sort_times [] = []
sort_times (t ∷ times) = insert_time t (sort_times times)

unfoldable pub get_elem? : List ℤ → ℕ → Option ℤ
get_elem? [] i = none
get_elem? (t ∷ times) zero = some t
get_elem? (t ∷ times) (suc i) = get_elem? times i

-- The new `lruTresholdTime`; `none` is an index out of range.
unfoldable pub treshold_time : ℕ → List ℤ → Option ℤ
treshold_time lru_size times =
    let sorted = sort_times times in
    if ltb lru_size (length sorted)
    then (if lru_size == 0 then none else get_elem? sorted (lru_size - 1))
    else (if length sorted == 0 then none else get_elem? sorted (length sorted - 1))

-- ===== src/Cache/Sync/Replication.antt =====
-- Values that one cache writes and another takes over through the bucket: the record that
-- `kvLazyWriter` puts, as `storeUpdatesHandler` handles it (statefun/cache/cache.go).
use foliage_sdk.Common.{
  ℕ, true, false, Option, none, some, [], ◌≡◌, ◌≢◌, refl, ap, ◌∙◌, sym, arith, if◌then◌else◌,
}
use foliage_sdk.Common.Int.{ℤ, pos, negsuc, ltb_ℤ}
use foliage_sdk.Common.Text.{Str}
use foliage_sdk.Cache.Key.{is_valid_key, to_store_key}
use foliage_sdk.Cache.Key.Laws.{from_store_key-to_store_key}
use foliage_sdk.Cache.Level.{Clock}
use foliage_sdk.Cache.Record.{final_bytes, bytes_of}
use foliage_sdk.Cache.Record.Laws.{parse_record-final_bytes}
use foliage_sdk.System.Bytes.Laws.{IsInt64}
use foliage_sdk.Cache.Store.Values.{look}
use foliage_sdk.Cache.Value.{Entry}
use foliage_sdk.Cache.Store.{Store, get_value_update_time}
use foliage_sdk.Cache.Sync.{handle_record, handle_update}
use foliage_sdk.Cache.Sync.Updates.{summary, newer, summary-handle_record}

-- The update that a cache with the same prefix receives for a value of another one.
abbrev pub receive : Clock → Str → Entry → Store → Store × Option Str
receive clock key e s =
    handle_update clock (to_store_key s.cache_config.kv_store_prefix key) (final_bytes e) s

receive-handle_record :
    (clock : Clock) (key : Str) (e : Entry) (s : Store)
    → IsInt64 e.value_update_time
    → receive clock key e s
      ≡ handle_record clock
          (to_store_key s.cache_config.kv_store_prefix key)
          key
          e.value_update_time
          (if e.value_exists then 1 else 0)
          (if e.value_exists then bytes_of e.value else [])
          s
unfolding handle_update
receive-handle_record clock key e s h =
    rw (from_store_key-to_store_key s.cache_config.kv_store_prefix key)
      (rw (parse_record-final_bytes e h) refl)

pub summary-receive :
    (clock : Clock) (key : Str) (e : Entry) (t : ℕ) (s : Store)
    → is_valid_key key ≡ true
    → key ≢ []
    → e.value_exists ≡ true
    → e.value_update_time ≡ pos t
    → IsInt64 (pos t)
    → summary (look key (receive clock key e s).0)
      ≡ newer t (bytes_of e.value) (summary (look key s))
summary-receive clock key e t s valid ne there at range =
    ap (λ (r : Store × Option Str). summary (look key r.0))
      (receive-handle_record clock key e s (rw at range))
    ∙ rw (there, at)
        (summary-handle_record clock (to_store_key s.cache_config.kv_store_prefix key) key s t
          (bytes_of e.value) valid ne)

newer_comm :
    (t u : ℕ) (v w : Str) (held : Option (ℤ × Option Str))
    → t ≢ u
    → newer u w (newer t v held) ≡ newer t v (newer u w held)
unfolding newer
newer_comm t u v w none apart = ground arith
newer_comm t u v w (some (pos n, value)) apart = ground arith
newer_comm t u v w (some (negsuc n, value)) apart = ground arith

-- Two values of a key that other caches wrote at different times may arrive in either order: the
-- key has the same value and the same time in the end. The times are not negative.
pub receive_either_order :
    (c c' d d' : Clock) (key : Str) (e f : Entry) (t u : ℕ) (s : Store)
    → is_valid_key key ≡ true
    → key ≢ []
    → e.value_exists ≡ true
    → f.value_exists ≡ true
    → e.value_update_time ≡ pos t
    → f.value_update_time ≡ pos u
    → IsInt64 (pos t)
    → IsInt64 (pos u)
    → t ≢ u
    → summary (look key (receive c' key f (receive c key e s).0).0)
      ≡ summary (look key (receive d' key e (receive d key f s).0).0)
receive_either_order c c' d d' key e f t u s valid ne there there' at at' range range' apart =
    summary-receive c' key f u (receive c key e s).0 valid ne there' at' range'
    ∙ ap (newer u (bytes_of f.value)) (summary-receive c key e t s valid ne there at range)
    ∙ newer_comm t u (bytes_of e.value) (bytes_of f.value) (summary (look key s)) apart
    ∙ ap (newer t (bytes_of e.value)) (sym (summary-receive d key f u s valid ne there' at' range'))
    ∙ sym (summary-receive d' key e t (receive d key f s).0 valid ne there at range)

-- A deletion that is later than the value held here is not applied: the store stays as it is, so
-- the value is still read, and the record is deleted from the bucket.
pub receive_deletion :
    (clock : Clock) (key : Str) (e : Entry) (s : Store)
    → IsInt64 e.value_update_time
    → e.value_exists ≡ false
    → ltb_ℤ (get_value_update_time key s) e.value_update_time ≡ true
    → receive clock key e s ≡ (s, some (to_store_key s.cache_config.kv_store_prefix key))
unfolding handle_record
receive_deletion clock key e s range gone later =
    receive-handle_record clock key e s range ∙ rw (gone, later, handle_record) refl

-- ===== src/Function/ObjectLock/Laws.antt =====
-- statefun/function_type.go: the lock of an object is given back.
use foliage_sdk.Common.{ℕ, ◌<◌, ◌^◌, true, Option, none, some, ◌≡◌}
use foliage_sdk.Common.Int.{pos}
use foliage_sdk.Common.Text.{Str, codes}
use foliage_sdk.Cache.Key.{is_valid_key}
use foliage_sdk.System.Bytes.{int64_to_bytes}
use foliage_sdk.Graph.Context.{Context, document}
use foliage_sdk.Mutex.{mutex_key}
use foliage_sdk.Mutex.Kv.{Bucket, IsLinear, entry_of}
use foliage_sdk.Function.ObjectLock.{ObjectError, lock_id, object_mutex_unlock}

-- What the cache and easyjson promise: a document that is stored under a valid key is read back, and
-- so is a number below 2^53 that is put into an object.
pub record KeepsRevisions {J W : Type 0} (ctx : Context J W) : Type 0 where
  pub stored :
      (c : W) (key : Str) (j : J)
      → is_valid_key key ≡ true
      → ctx.get_value_as_json (ctx.set_value c key (document j)) key ≡ some j
  pub number :
      (j : J) (n : ℕ)
      → ctx.json.is_object j ≡ true
      → n < 2 ^ 53
      → ctx.json.as_number (
          ctx.json.get_by_path
            (ctx.json.set_by_path j (codes "__lock_rev_id") (ctx.json.of_number n))
            (codes "__lock_rev_id"))
        ≡ some n

module _ (kv : Bucket) (laws : IsLinear kv) (life_time_sec : ℕ) {J W : Type 0} (ctx : Context J W)
    (keeps : KeepsRevisions ctx) where
  -- The unlock succeeds, deletes the context of the lock and leaves the mutex free.
  abbrev pub Released : Str → kv.State × W × Option ObjectError → Type 0
  Released id p =
      let r = object_mutex_unlock kv life_time_sec ctx id p.0 p.1 in
      (r.2 ≡ none)
      × (r.1 ≡ ctx.delete_value p.1 (lock_id id))
      × (next : ℕ) × (kv.get (mutex_key (lock_id id)) r.0 ≡ entry_of (int64_to_bytes (pos 0)) next)

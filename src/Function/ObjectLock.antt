-- ===== src/Function/ObjectLock.antt =====
-- statefun/function_type.go: getContext and setContext, and the lock of an object that a handler takes by
-- ObjectMutexLock and gives back by ObjectMutexUnlock. The cache is the parameter Context.
pub mod Laws
mod Tests
use foliage_sdk.Common.{ℕ, Bool, false, Option, none, some, ◌++◌}
use foliage_sdk.Common.Text.{Str, codes}
use foliage_sdk.Graph.Context.{Context, document, nothing}
use foliage_sdk.Mutex.{
  Locked, revision, lock_failed, LockError, World, key_mutex_lock, key_mutex_unlock,
}
use foliage_sdk.Mutex.Kv.{Bucket}

pub data ObjectError : Type 0 where
  not_locked : Str → ObjectError
  by_mutex : LockError → ObjectError

-- fmt.Sprintf("%s-lock", id)
abbrev pub lock_id : Str → Str
lock_id id = id ++ codes "-lock"

module _ {J W : Type 0} (ctx : Context J W) where
  abbrev or_new : Option J → J
  or_new none = ctx.json.new_object
  or_new (some j) = j

  unfoldable pub get_context : W → Str → J
  get_context c key = or_new (ctx.get_value_as_json c key)

  unfoldable pub set_context : W → Str → Option J → W
  set_context c key none = ctx.set_value c key nothing
  set_context c key (some context) = ctx.set_value c key (document context)

-- The bucket of the mutexes and the cache.
module _ (kv : Bucket) (life_time_sec : ℕ) {J W : Type 0} (ctx : Context J W) where
  -- The context of the lock, with its revision.
  abbrev pub with_revision : W → Str → ℕ → J
  with_revision c id rev =
      ctx.json.set_by_path (get_context ctx c (lock_id id)) (codes "__lock_rev_id")
        (ctx.json.of_number rev)

  -- What follows KeyMutexLock.
  abbrev pub keep_revision :
      Str → W → Option (kv.State × Locked) → Option (kv.State × W × Option ObjectError)
  keep_revision id c none = none
  keep_revision id c (some (b, lock_failed e)) = some (b, c, some (by_mutex e))
  keep_revision id c (some (b, revision rev)) =
      some (b, set_context ctx c (lock_id id) (some (with_revision c id rev)), none)

  -- ObjectMutexLock; `none` is a call that has not returned yet.
  unfoldable pub object_mutex_lock :
      ℕ
      → World kv life_time_sec
      → Str
      → Bool
      → kv.State
      → W
      → Option (kv.State × W × Option ObjectError)
  object_mutex_lock fuel w id error_on_locked b c =
      keep_revision id c
        (key_mutex_lock kv life_time_sec fuel w 0 false (lock_id id) error_on_locked b)

  -- What follows KeyMutexUnlock.
  abbrev pub drop_context :
      Str → W → kv.State × Option LockError → kv.State × W × Option ObjectError
  drop_context id c (b, some e) = (b, c, some (by_mutex e))
  drop_context id c (b, none) = (b, ctx.delete_value c (lock_id id), none)

  abbrev pub unlock_by : Str → kv.State → W → Option ℕ → kv.State × W × Option ObjectError
  unlock_by id b c none = (b, c, some (not_locked (lock_id id)))
  unlock_by id b c (some rev) =
      drop_context id c (key_mutex_unlock kv life_time_sec (lock_id id) rev b)

  -- ObjectMutexUnlock
  unfoldable pub object_mutex_unlock : Str → kv.State → W → kv.State × W × Option ObjectError
  object_mutex_unlock id b c = unlock_by id b c (
      ctx.json.as_number
        (ctx.json.get_by_path (get_context ctx c (lock_id id)) (codes "__lock_rev_id")))

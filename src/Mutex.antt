-- ===== src/Mutex.antt =====
-- statefun/kv_mutices.go: mutexes that are entries of the NATS key/value bucket. The bucket is not
-- part of the repository: it is the parameter `Bucket`, with the laws that its documentation gives.
pub mod Kv
pub mod Memory
pub mod Laws
pub mod Progress
pub mod Race
mod Tests
use foliage_sdk.Common.{
  ℕ, zero, suc, Bool, true, false, Option, none, some, List, [], ◌∷◌, ◌++◌, ◌==◌, ◌*◌, ◌||◌,
  if◌then◌else◌,
}
use foliage_sdk.Common.Int.{ℤ, pos, ltb_ℤ, eqb_ℤ, ◌+ℤ◌}
use foliage_sdk.Common.Text.{Str, codes}
use foliage_sdk.System.Bytes.{int64_to_bytes, bytes_to_int64}
use Kv.{
  Bucket, GetReply, entry_of, not_found, get_error, WriteReply, written, wrong_sequence,
  write_error, WatchReply, first, first_nil, watch_error,
}

-- What the functions return in Go: a revision, or an error.
pub data LockError : Type 0 where
  mutex_locked : LockError
  already_unlocked : LockError
  kv_failed : Str → LockError

pub data Locked : Type 0 where
  revision : ℕ → Locked
  lock_failed : LockError → Locked

-- key + ".mutex"
abbrev pub mutex_key : Str → Str
mutex_key key = key ++ codes ".mutex"

-- lockTime + kvMutexLifeTimeSec * time.Second < now
unfoldable pub is_dead : ℕ → ℤ → ℤ → Bool
is_dead life_time_sec lock_time now = ltb_ℤ (lock_time +ℤ pos (life_time_sec * 1_000_000_000)) now

-- What a round of `KeyMutexLock` does after its `kv.Get`.
pub data Action : Type 0 where
  reset : Action
  mere_lock : ℕ → Action
  again_with_reset : Action
  refuse : Action
  wait : Action
  fail : Str → Action

unfoldable pub decide : Bool → Bool → ℕ → ℤ → GetReply → Action
decide reset_needed error_on_locked life_time_sec now not_found = reset
decide reset_needed error_on_locked life_time_sec now (get_error e) = fail e
decide reset_needed error_on_locked life_time_sec now (entry_of value rev) =
    let lock_time = bytes_to_int64 value in
    if reset_needed
    then reset
    else if eqb_ℤ lock_time (pos 0)
    then mere_lock rev
    else if is_dead life_time_sec lock_time now
    then again_with_reset
    else if error_on_locked
    then refuse
    else wait

abbrev failed_write : WriteReply → Str
failed_write (written rev) = []
failed_write wrong_sequence = codes "nats: wrong last sequence"
failed_write (write_error e) = e

-- The result of `mutexResetLock`: any error of the put is passed on.
abbrev pub reset_result : WriteReply → Locked
reset_result (written rev) = revision rev
reset_result wrong_sequence = lock_failed (kv_failed (failed_write wrong_sequence))
reset_result (write_error e) = lock_failed (kv_failed e)

-- The result of `mutexMereLock`: `none` where another lock was faster.
abbrev pub mere_result : WriteReply → Option Locked
mere_result (written rev) = some (revision rev)
mere_result wrong_sequence = none
mere_result (write_error e) = some (lock_failed (kv_failed e))

-- The error of `KeyMutexUnlock` after its update.
abbrev pub unlock_result : WriteReply → Option LockError
unlock_result (written rev) = none
unlock_result wrong_sequence = some (kv_failed (failed_write wrong_sequence))
unlock_result (write_error e) = some (kv_failed e)

-- The result of `KeyMutexLockUpdate` after its update.
abbrev pub update_result : WriteReply → Locked
update_result (written rev) = revision rev
update_result wrong_sequence = lock_failed (kv_failed (failed_write wrong_sequence))
update_result (write_error e) = lock_failed (kv_failed e)

-- `mutexWaitForUnlock` sees the mutex free, or its owner dead.
unfoldable pub stops_waiting : ℕ → ℤ → WatchReply → Bool
stops_waiting life_time_sec now (first value) =
    let lock_time = bytes_to_int64 value in
    eqb_ℤ lock_time (pos 0) || is_dead life_time_sec lock_time now
stops_waiting life_time_sec now first_nil = false
stops_waiting life_time_sec now watch_error = false

-- The mutexes of function types and of their ids are those of these keys.
unfoldable pub context_key : Str → Str → Str
context_key name id = name ++ (codes "." ++ id)

module _ (kv : Bucket) (life_time_sec : ℕ) where
  open kv use {State, get, put, update, watch}

  -- `mutexResetLock` and `mutexMereLock`.
  unfoldable pub mutex_reset_lock : Str → ℤ → State → State × Locked
  mutex_reset_lock key now b =
      let (b', reply) = put (mutex_key key) (int64_to_bytes now) b in (b', reset_result reply)

  unfoldable pub mutex_mere_lock : Str → ℤ → ℕ → State → State × Option Locked
  mutex_mere_lock key now rev b =
      let (b', reply) = update (mutex_key key) (int64_to_bytes now) rev b in (b', mere_result reply)

  -- The rest of the world: what others do to the bucket before the `i`-th access, and the time.
  pub record World : Type 0 where
    pub others : ℕ → State → State
    pub clock : ℕ → ℤ

  -- `mutexWaitForUnlock`, on fuel; the access that stops it and the state that it leaves.
  unfoldable pub mutex_wait_for_unlock : ℕ → World → ℕ → Str → State → Option (ℕ × State)
  mutex_wait_for_unlock zero w i key b = none
  mutex_wait_for_unlock (suc fuel) w i key b =
      let b' = w.others i b in
      let more = mutex_wait_for_unlock fuel w (suc i) key b' in
      if stops_waiting life_time_sec (w.clock i) (watch (mutex_key key) b')
      then some (suc i, b')
      else more

  -- The loop goes on unless the mere lock gave a result.
  abbrev pub return_or :
      (State → Option (State × Locked)) → State × Option Locked → Option (State × Locked)
  return_or again (b, some result) = some (b, result)
  return_or again (b, none) = again b

  -- The loop goes on once the wait is over, at the access that follows it.
  abbrev pub after_wait :
      (ℕ → State → Option (State × Locked)) → Option (ℕ × State) → Option (State × Locked)
  after_wait again none = none
  after_wait again (some (j, b)) = again j b

  -- A round after its `kv.Get` at access `i`, which saw the state `b`. A write is the next access.
  -- `again` is the rest of the loop, from an access on, and `waiting` is `mutexWaitForUnlock`.
  unfoldable pub act :
      World
      → ℕ
      → Str
      → Bool
      → State
      → (ℕ → Bool → State → Option (State × Locked))
      → (ℕ → State → Option (ℕ × State))
      → Action
      → Option (State × Locked)
  act w i key reset_needed b again waiting reset =
      some (mutex_reset_lock key (w.clock i) (w.others (suc i) b))
  act w i key reset_needed b again waiting (mere_lock rev) =
      return_or (again (suc (suc i)) reset_needed)
        (mutex_mere_lock key (w.clock i) rev (w.others (suc i) b))
  act w i key reset_needed b again waiting again_with_reset = again (suc i) true b
  act w i key reset_needed b again waiting refuse = some (b, lock_failed mutex_locked)
  act w i key reset_needed b again waiting wait =
      after_wait (λ j b'. again j reset_needed b') (waiting (suc i) b)
  act w i key reset_needed b again waiting (fail e) = some (b, lock_failed (kv_failed e))

  -- `KeyMutexLock`, on fuel: `none` is a call that has not returned yet.
  unfoldable pub key_mutex_lock :
      ℕ → World → ℕ → Bool → Str → Bool → State → Option (State × Locked)
  key_mutex_lock zero w i reset_needed key error_on_locked b = none
  key_mutex_lock (suc fuel) w i reset_needed key error_on_locked b =
      let b1 = w.others i b in
      act w i key reset_needed b1 (λ j r b'. key_mutex_lock fuel w j r key error_on_locked b')
        (λ j b'. mutex_wait_for_unlock fuel w j key b')
        (decide reset_needed error_on_locked life_time_sec (w.clock i) (get (mutex_key key) b1))

  -- `KeyMutexUnlock`. The revision of the caller is compared for a warning alone.
  unfoldable pub key_mutex_unlock : Str → ℕ → State → State × Option LockError
  key_mutex_unlock key lock_revision b = elim (get (mutex_key key) b) [
    | not_found ↦ (b, some (kv_failed (codes "nats: key not found")))
    | get_error e ↦ (b, some (kv_failed e))
    | entry_of value rev ↦
        if eqb_ℤ (bytes_to_int64 value) (pos 0)
        then (b, none)
        else (let (b', reply) = update (mutex_key key) (int64_to_bytes (pos 0)) rev b in
            (b', unlock_result reply))
  ]

  -- `KeyMutexLockUpdate`: the lock is held on.
  unfoldable pub key_mutex_lock_update : Str → ℕ → ℤ → State → State × Locked
  key_mutex_lock_update key lock_revision now b = elim (get (mutex_key key) b) [
    | not_found ↦ (b, lock_failed (kv_failed (codes "nats: key not found")))
    | get_error e ↦ (b, lock_failed (kv_failed e))
    | entry_of value rev ↦
        if eqb_ℤ (bytes_to_int64 value) (pos 0)
        then (b, lock_failed already_unlocked)
        else (let (b', reply) = update (mutex_key key) (int64_to_bytes now) rev b in
            (b', update_result reply))
  ]

  -- `ContextMutexLock`, `ContextMutexUnlock`, `FunctionTypeMutexLock` and `FunctionTypeMutexUnlock`, by
  -- the name of the function type.
  unfoldable pub context_mutex_lock : ℕ → World → Str → Str → Bool → State → Option (State × Locked)
  context_mutex_lock fuel w name id error_on_locked b =
      key_mutex_lock fuel w 0 false (context_key name id) error_on_locked b

  unfoldable pub context_mutex_unlock : Str → Str → ℕ → State → State × Option LockError
  context_mutex_unlock name id lock_revision b =
      key_mutex_unlock (context_key name id) lock_revision b

  unfoldable pub function_type_mutex_lock : ℕ → World → Str → Bool → State → Option (State × Locked)
  function_type_mutex_lock fuel w name error_on_locked b =
      key_mutex_lock fuel w 0 false name error_on_locked b

  unfoldable pub function_type_mutex_unlock : Str → ℕ → State → State × Option LockError
  function_type_mutex_unlock name lock_revision b = key_mutex_unlock name lock_revision b

-- ===== src/Function/ObjectLock/Tests.antt =====
-- Runs of ObjectMutexLock and ObjectMutexUnlock of statefun/function_type.go over a bucket in memory.
use foliage_sdk.Common.{ℕ, ◌+◌, Bool, true, false, Option, none, some, [], ◌∷◌, if◌then◌else◌}
use foliage_sdk.Common.Dict
use foliage_sdk.Common.Dict.{Dict, load, assign}
use foliage_sdk.Common.Int.{ℤ, pos, eqb_ℤ}
use foliage_sdk.Common.Text
use foliage_sdk.Common.Text.{Str, codes}
use foliage_sdk.Cache.Key
use foliage_sdk.Cache.Key.{is_valid_key}
use foliage_sdk.System.Bytes
use foliage_sdk.System.Bytes.{int64_to_bytes, bytes_to_int64}
use foliage_sdk.Graph.Context.{Context, Stored, document}
use foliage_sdk.Graph.Docs.{Doc, absent, text, with_field, field, docs}
use foliage_sdk.Mutex.{
  Locked, revision, mutex_key, is_dead, decide, World, mutex_mere_lock, mutex_reset_lock,
  key_mutex_lock, key_mutex_unlock, act, mutex_wait_for_unlock, stops_waiting,
}
use foliage_sdk.Mutex.Memory.{Memory, memory, update_at, update_entry}
use foliage_sdk.Function.ObjectLock.{
  lock_id, get_context, set_context, object_mutex_lock, object_mutex_unlock,
}

abbrev Cache : Type 0
Cache = Dict (Stored Doc)

abbrev as_document : Option (Stored Doc) → Option Doc
as_document (some (document j)) = some j
as_document _ = none

abbrev is_held : Option (Stored Doc) → Bool
is_held none = false
is_held (some v) = true

-- A number as a text of one code.
abbrev as_number : Doc → Option ℕ
as_number (text (n ∷ [])) = some n
as_number _ = none

abbrev cache : Context Doc Cache
cache = record {
  json = record docs { of_number = λ n. text (n ∷ []); as_number = as_number };
  get_value_as_json = λ w key. as_document (load key w);
  has_value = λ w key. is_held (load key w);
  get_keys = λ w pattern. [];
  get_int64 = λ w key. none;
  set_value = λ w key v. if is_valid_key key then assign key v w else w;
  delete_value = λ w key. Dict.delete key w;
  request = λ w op id payload. (none, w);
  object_mutex_lock = λ w. (true, w);
  object_mutex_unlock = λ w. w;
  get_object_context = λ w. absent;
  set_object_context = λ w j. w;
  now = λ w. 0;
}

abbrev alone : World memory 10
alone = record { others = λ i b. b; clock = λ i. pos 100 }

program : Unit {0}
unfolding Text.str_eq Key.is_valid_key Dict.load Dict.assign Dict.delete Bytes.int64_to_bytes
    Bytes.bytes_to_int64 Bytes.to_uint64 Bytes.from_uint64 Bytes.put_little_endian
    Bytes.get_little_endian update_at is_dead decide mutex_mere_lock mutex_reset_lock key_mutex_lock
    key_mutex_unlock act mutex_wait_for_unlock stops_waiting foliage_sdk.Common.Int.◌+ℤ◌
    update_entry get_context set_context object_mutex_lock object_mutex_unlock field
program = tt

-- The lock of "o" in an empty bucket, for the first time.
abbrev locked_bucket : Memory
locked_bucket = (mutex_key (lock_id (codes "o")), (int64_to_bytes (pos 100), 1)) ∷ []

abbrev locked_cache : Cache
locked_cache =
    (lock_id (codes "o"), document (with_field absent (codes "__lock_rev_id") (text (1 ∷ [])))) ∷ []

abbrev revision_of : Option (Memory × Locked) → ℕ
revision_of (some (b, revision n)) = n
revision_of _ = 0

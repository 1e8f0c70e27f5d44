-- ===== src/Mutex/Tests.antt =====
-- Runs of the mutexes (statefun/kv_mutices.go) over a bucket in memory.
use foliage_sdk.Common.{
  ℕ, Bool, true, false, Option, none, some, List, [], ◌∷◌, ◌≡◌, ◌+◌, refl, sym, if◌then◌else◌, ◌==◌,
  arith, inl, inr,
}
use foliage_sdk.Common.Dict
use foliage_sdk.Common.Dict.{load}
use foliage_sdk.Common.Int.{ℤ, pos, negsuc, eqb_ℤ}
use foliage_sdk.Common.Text.{Str, codes}
use foliage_sdk.Common.Text
use foliage_sdk.System.Bytes.{int64_to_bytes, bytes_to_int64}
use foliage_sdk.System.Bytes
use foliage_sdk.System.Bytes.Laws.{IsInt64}
use foliage_sdk.Mutex.Kv.{entry_of, not_found}
use foliage_sdk.Mutex.Memory.{Memory, memory, memory-IsLinear, update_at, update_entry}
use foliage_sdk.Mutex.{
  mutex_key, is_dead, decide, World, revision, lock_failed, mutex_locked, mutex_mere_lock,
  mutex_reset_lock, key_mutex_lock, key_mutex_unlock, act, mutex_wait_for_unlock, stops_waiting,
}
use foliage_sdk.Mutex.Laws.{lock_holds, Held}
use foliage_sdk.Mutex.Race.{lock_exclusive}
use foliage_sdk.Mutex.Progress.{lock_returns}

abbrev key : Str
key = codes "obj"

-- The mutex was released at revision 3.
abbrev free : Memory
free = (mutex_key key, (int64_to_bytes (pos 0), 3)) ∷ []

-- The mutex is held since time 50.
abbrev held : Memory
held = (mutex_key key, (int64_to_bytes (pos 50), 3)) ∷ []

abbrev alone : World memory 10
alone = record { others = λ i b. b; clock = λ i. pos (100 + i) }

program : Unit {0}
unfolding Text.str_eq Dict.load Dict.assign Bytes.int64_to_bytes Bytes.bytes_to_int64
    Bytes.to_uint64 Bytes.from_uint64 Bytes.put_little_endian Bytes.get_little_endian update_at
    is_dead decide mutex_mere_lock mutex_reset_lock key_mutex_lock key_mutex_unlock act
    mutex_wait_for_unlock stops_waiting foliage_sdk.Common.Int.◌+ℤ◌ update_entry
program = tt

free_entry : memory.get (mutex_key key) free ≡ entry_of (int64_to_bytes (pos 0)) 3
unfolding program
free_entry = refl

held_entry : memory.get (mutex_key key) held ≡ entry_of (int64_to_bytes (pos 50)) 3
unfolding program
held_entry = refl

lock_then_refuse :
    key_mutex_lock memory 10 1 alone 0 false key true held ≡ some (held, lock_failed mutex_locked)
unfolding program
lock_then_refuse = refl

after_lock : Memory
unfolding program
after_lock = (mutex_key key, (int64_to_bytes (pos 100), 4)) ∷ []

locks : key_mutex_lock memory 10 2 alone 0 false key true free ≡ some (after_lock, revision 4)
unfolding program after_lock
locks = refl

-- Another client, between whose look and write the mutex is taken.
abbrev late : World memory 10
unfolding after_lock
late = record { others = λ i b. if i == 1 then after_lock else b; clock = λ i. pos (200 + i) }

first_write : (mutex_mere_lock memory 10 key (pos 100) 3 free).0 ≡ after_lock
unfolding program after_lock
first_write = refl

in_range : IsInt64 (pos 100)
in_range = omega arith

not_outdated : is_dead 10 (pos 100) (pos 202) ≡ false
unfolding program
not_outdated = refl

lock_exclusive_example :
    (n : ℕ) × (key_mutex_lock memory 10 2 alone 0 false key true free
      ≡ some ((mutex_mere_lock memory 10 key (pos 100) 3 free).0, revision n))
    × (memory.get (mutex_key key) (mutex_mere_lock memory 10 key (pos 100) 3 free).0
        ≡ entry_of (int64_to_bytes (pos 100)) n)
    × (key_mutex_lock memory 10 3 late 0 false key true free
        ≡ some ((mutex_mere_lock memory 10 key (pos 100) 3 free).0, lock_failed mutex_locked))
unfolding late
lock_exclusive_example =
    lock_exclusive memory memory-IsLinear 10 alone late key true 1 1 3 free free_entry refl refl
      refl (sym first_write) refl in_range refl not_outdated

lock_holds_example : Held memory memory-IsLinear 10 alone key after_lock 4
lock_holds_example =
    lock_holds memory memory-IsLinear 10 2 alone 0 false key true free after_lock 4 locks

nothing_held : memory.get (mutex_key key) [] ≡ not_found
unfolding program
nothing_held = refl

lock_returns_example :
    (b' : Memory) × (n : ℕ) × (key_mutex_lock memory 10 2 alone 0 false key true []
      ≡ some (b', revision n))
lock_returns_example =
    lock_returns memory memory-IsLinear 10 alone (λ i b. refl) key true 0 0 [] (inl nothing_held)

live : eqb_ℤ (bytes_to_int64 (int64_to_bytes (pos 50))) (pos 0) ≡ false
unfolding program
live = refl

young : is_dead 10 (bytes_to_int64 (int64_to_bytes (pos 50))) (pos 100) ≡ false
unfolding program
young = refl

-- ===== src/Mutex/Laws.antt =====
-- What the mutexes of statefun/kv_mutices.go guarantee over a bucket that keeps its laws.
use foliage_sdk.Common.{
  ℕ, zero, suc, Bool, true, false, Option, none, some, ◌≡◌, refl, ap, ◌∙◌, arith,
}
use foliage_sdk.Common.Int.{ℤ, pos, eqb_ℤ}
use foliage_sdk.Common.Text.{Str}
use foliage_sdk.System.Bytes.{int64_to_bytes}
use foliage_sdk.System.Bytes.Laws.{IsInt64, bytes_to_int64-int64_to_bytes}
use foliage_sdk.Mutex.Kv.{
  Bucket, IsLinear, entry_of, WriteReply, written, wrong_sequence, write_error,
}
use foliage_sdk.Mutex.{
  Locked, revision, mutex_key, Action, reset, mere_lock, again_with_reset, refuse, wait, fail,
  decide, reset_result, mere_result, World, unlock_result, mutex_reset_lock, mutex_mere_lock,
  return_or, after_wait, act, mutex_wait_for_unlock, key_mutex_lock, key_mutex_unlock,
}

module _ (kv : Bucket) (laws : IsLinear kv) (life_time_sec : ℕ) where
  open kv use {State, get, put, update, watch}

  -- Of two clients that update the entry at the revision at which both saw it, the first to write
  -- gets the lock, and the second is refused and changes nothing.
  pub mere_lock_exclusive :
      (key value : Str) (now later : ℤ) (rev : ℕ) (b : State)
      → get (mutex_key key) b ≡ entry_of value rev
      → let b1 = (mutex_mere_lock kv life_time_sec key now rev b).0 in
        (next : ℕ) × ((mutex_mere_lock kv life_time_sec key now rev b).1 ≡ some (revision next))
        × (get (mutex_key key) b1 ≡ entry_of (int64_to_bytes now) next)
        × (mutex_mere_lock kv life_time_sec key later rev b1 ≡ (b1, none))
  unfolding mutex_mere_lock
  mere_lock_exclusive key value now later rev b h =
      let k = mutex_key key in
      let (next, reply, held, up) = laws.update_current k (int64_to_bytes now) value rev b h in
      (
        next,
        ap mere_result reply,
        held,
        ap (λ (r : State × WriteReply). (r.0, mere_result r.1))
            (laws.update_stale k (int64_to_bytes later) (int64_to_bytes now) next rev
              (update k (int64_to_bytes now) rev b).0 held (omega arith)),
      )

  -- Of two clients that both found no mutex, or a dead one, both get the lock: the reset does not
  -- compare revisions. The entry is the second's.
  reset_lock_not_exclusive :
      (key : Str) (now later : ℤ) (b : State)
      → let b1 = (mutex_reset_lock kv life_time_sec key now b).0 in
        let b2 = (mutex_reset_lock kv life_time_sec key later b1).0 in
        (m : ℕ) × (n : ℕ) × ((mutex_reset_lock kv life_time_sec key now b).1 ≡ revision m)
        × ((mutex_reset_lock kv life_time_sec key later b1).1 ≡ revision n)
        × (get (mutex_key key) b2 ≡ entry_of (int64_to_bytes later) n)
  unfolding mutex_reset_lock
  reset_lock_not_exclusive key now later b =
      let k = mutex_key key in
      let (m, first, held) = laws.put_written k (int64_to_bytes now) b in
      let (n, second, held') =
        laws.put_written k (int64_to_bytes later) (put k (int64_to_bytes now) b).0 in
      (m, n, ap reset_result first, ap reset_result second, held')

  -- A mutex that is held is released by an unlock, whatever revision the caller has. The entry is
  -- then free. The lock time is an int64 that is not 0.
  pub unlock_releases :
      (key : Str) (now : ℤ) (rev any : ℕ) (b : State)
      → get (mutex_key key) b ≡ entry_of (int64_to_bytes now) rev
      → IsInt64 now
      → eqb_ℤ now (pos 0) ≡ false
      → ((key_mutex_unlock kv life_time_sec key any b).1 ≡ none)
        × (next : ℕ) × (get (mutex_key key) (key_mutex_unlock kv life_time_sec key any b).0
            ≡ entry_of (int64_to_bytes (pos 0)) next)
  unfolding key_mutex_unlock
  unlock_releases key now rev any b h range live =
      let k = mutex_key key in
      let (next, reply, held, up) =
        laws.update_current k (int64_to_bytes (pos 0)) (int64_to_bytes now) rev b h in
      let time = bytes_to_int64-int64_to_bytes now range in
      rw (h, key_mutex_unlock) (rw time (rw live (ap unlock_result reply, next, held)))

  -- The mutex is held, with the revision `n`, since the time that some reading of the clock gave.
  abbrev pub Held : World kv life_time_sec → Str → State → ℕ → Type 0
  Held w key b n = (j : ℕ) × (get (mutex_key key) b ≡ entry_of (int64_to_bytes (w.clock j)) n)

  reset_holds :
      (w : World kv life_time_sec) (key : Str) (j n : ℕ) (b b' : State)
      → some (mutex_reset_lock kv life_time_sec key (w.clock j) b) ≡ some (b', revision n)
      → Held w key b' n
  unfolding mutex_reset_lock
  reset_holds w key j n b b' h =
      let (m, reply, held) = laws.put_written (mutex_key key) (int64_to_bytes (w.clock j)) b in
      (j, ground (arith, reply, held, h))

  mere_inv : (r : WriteReply) (n : ℕ) → mere_result r ≡ some (revision n) → r ≡ written n
  mere_inv (written m) n e = cc
  mere_inv wrong_sequence n e = absurd (cc)
  mere_inv (write_error x) n e = absurd (cc)

  mere_holds :
      (w : World kv life_time_sec) (key : Str) (j rev n : ℕ) (b : State)
      → (mutex_mere_lock kv life_time_sec key (w.clock j) rev b).1 ≡ some (revision n)
      → Held w key (mutex_mere_lock kv life_time_sec key (w.clock j) rev b).0 n
  unfolding mutex_mere_lock
  mere_holds w key j rev n b h =
      (j, laws.update_written (mutex_key key) (int64_to_bytes (w.clock j)) rev n b (mere_inv _ n h))

  -- The rest of a loop keeps the promise.
  abbrev Promises : World kv life_time_sec → Str → (State → Option (State × Locked)) → Type 0
  Promises w key loop = (b b' : State) (n : ℕ) → loop b ≡ some (b', revision n) → Held w key b' n

  return_or_holds :
      (w : World kv life_time_sec) (key : Str) (again : State → Option (State × Locked))
      (j rev n : ℕ) (b b' : State) (r : State × Option Locked)
      → mutex_mere_lock kv life_time_sec key (w.clock j) rev b ≡ r
      → Promises w key again
      → return_or kv life_time_sec again r ≡ some (b', revision n)
      → Held w key b' n
  return_or_holds w key again j rev n b b' (b1, none) e promise h = promise b1 b' n h
  return_or_holds w key again j rev n b b' (b1, some result) e promise h =
      let (i, held) =
        mere_holds w key j rev n b
          (ap (λ (x : State × Option Locked). x.1) e ∙ ground (arith, h)) in
      (i, ap (get (mutex_key key)) (ground (arith, h, e)) ∙ held)

  act_holds :
      (w : World kv life_time_sec) (i : ℕ) (key : Str) (reset_needed : Bool) (b : State)
      (again : ℕ → Bool → State → Option (State × Locked))
      (waiting : ℕ → State → Option (ℕ × State)) (a : Action)
      → ((j : ℕ) (r : Bool) → Promises w key (again j r))
      → (b' : State) (n : ℕ)
      → act kv life_time_sec w i key reset_needed b again waiting a ≡ some (b', revision n)
      → Held w key b' n
  unfolding act
  act_holds w i key reset_needed b again waiting reset promise b' n h = reset_holds w key i n _ b' h
  act_holds w i key reset_needed b again waiting (mere_lock rev) promise b' n h =
      return_or_holds w key (again (suc (suc i)) reset_needed) i rev n (w.others (suc i) b) b' _
        refl (promise (suc (suc i)) reset_needed) h
  act_holds w i key reset_needed b again waiting again_with_reset promise b' n h =
      promise (suc i) true b b' n h
  act_holds w i key reset_needed b again waiting refuse promise b' n h = absurd (cc)
  act_holds w i key reset_needed b again waiting wait promise b' n h =
      wait_holds (waiting (suc i) b) h
    where
      wait_holds :
          (o : Option (ℕ × State))
          → after_wait kv life_time_sec (λ j b'. again j reset_needed b') o ≡ some (b', revision n)
          → Held w key b' n
      wait_holds none e = absurd (cc)
      wait_holds (some (j, c)) e = promise j reset_needed c b' n e
  act_holds w i key reset_needed b again waiting (fail e) promise b' n h = absurd (cc)

  -- Whatever others do to the bucket meanwhile, and however long it takes: when `KeyMutexLock`
  -- returns a revision, the mutex is held with that revision.
  pub lock_holds :
      (fuel : ℕ) (w : World kv life_time_sec) (i : ℕ) (reset_needed : Bool) (key : Str)
      (error_on_locked : Bool) (b b' : State) (n : ℕ)
      → key_mutex_lock kv life_time_sec fuel w i reset_needed key error_on_locked b
        ≡ some (b', revision n)
      → Held w key b' n
  unfolding key_mutex_lock
  lock_holds zero w i reset_needed key error_on_locked b b' n h = absurd (cc)
  lock_holds (suc fuel) w i reset_needed key error_on_locked b b' n h =
      act_holds w i key reset_needed (w.others i b)
        (λ j r c. key_mutex_lock kv life_time_sec fuel w j r key error_on_locked c)
        (λ j c. mutex_wait_for_unlock kv life_time_sec fuel w j key c)
        (decide reset_needed error_on_locked life_time_sec (w.clock i)
          (get (mutex_key key) (w.others i b)))
        (λ j r c c' m. lock_holds fuel w j r key error_on_locked c c' m) b' n h

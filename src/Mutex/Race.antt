-- ===== src/Mutex/Race.antt =====
-- Two calls of KeyMutexLock that race for a mutex (statefun/kv_mutices.go).
use foliage_sdk.Common.{ℕ, suc, Bool, true, false, some, ◌≡◌, ◌∙◌, refl, arith}
use foliage_sdk.Common.Int.{pos, eqb_ℤ}
use foliage_sdk.Common.Text.{Str}
use foliage_sdk.System.Bytes.{int64_to_bytes}
use foliage_sdk.System.Bytes.Laws.{IsInt64, bytes_to_int64-int64_to_bytes}
use foliage_sdk.Mutex.Kv.{Bucket, IsLinear, entry_of}
use foliage_sdk.Mutex.{
  mutex_locked, revision, lock_failed, mutex_key, is_dead, Action, mere_lock, refuse, decide, World,
  mutex_mere_lock, return_or, act, mutex_wait_for_unlock, key_mutex_lock,
}
use foliage_sdk.Mutex.Laws.{mere_lock_exclusive}

module _ (kv : Bucket) (laws : IsLinear kv) (life_time_sec : ℕ) where
  open kv use {State, get}

  module _ (w : World kv life_time_sec) (key : Str) (error_on_locked : Bool) where
    round :
        (fuel i : ℕ) (b seen : State) (a : Action)
        → w.others i b ≡ seen
        → decide false error_on_locked life_time_sec (w.clock i) (get (mutex_key key) seen) ≡ a
        → key_mutex_lock kv life_time_sec (suc fuel) w i false key error_on_locked b
          ≡ act kv life_time_sec w i key false seen
              (λ j r c. key_mutex_lock kv life_time_sec fuel w j r key error_on_locked c)
              (λ j c. mutex_wait_for_unlock kv life_time_sec fuel w j key c)
              a
    unfolding key_mutex_lock
    round fuel i b seen a s e = rw (s, e) refl

    -- A round that sees the mutex free tries to take it at the revision that it saw.
    free_round :
        (fuel i rev : ℕ) (b seen : State)
        → w.others i b ≡ seen
        → get (mutex_key key) seen ≡ entry_of (int64_to_bytes (pos 0)) rev
        → key_mutex_lock kv life_time_sec (suc fuel) w i false key error_on_locked b
          ≡ return_or kv life_time_sec
              (λ c.
                key_mutex_lock kv life_time_sec fuel w (suc (suc i)) false key error_on_locked c)
              (mutex_mere_lock kv life_time_sec key (w.clock i) rev (w.others (suc i) seen))
    unfolding act decide
    free_round fuel i rev b seen s h =
        round fuel i b seen (mere_lock rev) s
          (rw h (rw (bytes_to_int64-int64_to_bytes (pos 0) (omega arith)) refl))

  -- A round that sees the mutex held by a live owner gives up at once, where the caller asked for that.
  held_round :
      (w v : World kv life_time_sec) (key : Str) (fuel i j n : ℕ) (b seen : State)
      → w.others i b ≡ seen
      → get (mutex_key key) seen ≡ entry_of (int64_to_bytes (v.clock j)) n
      → IsInt64 (v.clock j)
      → eqb_ℤ (v.clock j) (pos 0) ≡ false
      → is_dead life_time_sec (v.clock j) (w.clock i) ≡ false
      → key_mutex_lock kv life_time_sec (suc fuel) w i false key true b
        ≡ some (seen, lock_failed mutex_locked)
  unfolding act decide
  held_round w v key fuel i j n b seen s h range not_zero live =
      round w key true fuel i b seen refuse s
        (rw h (rw (bytes_to_int64-int64_to_bytes (v.clock j) range) (rw (not_zero, live) refl)))

  -- Two calls of KeyMutexLock find a mutex free at the same revision, and the first writes before the
  -- second does. The first returns with a revision and holds the mutex since its time; the second is
  -- refused by the bucket, looks again, finds the mutex locked and returns that error, and leaves the
  -- bucket as the first call has left it. It was asked to return an error on a locked mutex, nobody else
  -- writes, and at its second look the first call's time, an int64 that is not 0, is not outdated.
  pub lock_exclusive :
      (w1 w2 : World kv life_time_sec) (key : Str) (error_on_locked : Bool) (fuel1 fuel2 rev : ℕ)
      (b : State)
      → get (mutex_key key) b ≡ entry_of (int64_to_bytes (pos 0)) rev
      → let b1 = (mutex_mere_lock kv life_time_sec key (w1.clock 0) rev b).0 in
        w1.others 0 b ≡ b
        → w1.others 1 b ≡ b
        → w2.others 0 b ≡ b
        → w2.others 1 b ≡ b1
        → w2.others 2 b1 ≡ b1
        → IsInt64 (w1.clock 0)
        → eqb_ℤ (w1.clock 0) (pos 0) ≡ false
        → is_dead life_time_sec (w1.clock 0) (w2.clock 2) ≡ false
        → (n : ℕ) × (key_mutex_lock kv life_time_sec (suc fuel1) w1 0 false key error_on_locked b
            ≡ some (b1, revision n))
          × (get (mutex_key key) b1 ≡ entry_of (int64_to_bytes (w1.clock 0)) n)
          × (key_mutex_lock kv life_time_sec (suc (suc fuel2)) w2 0 false key true b
              ≡ some (b1, lock_failed mutex_locked))
  lock_exclusive w1 w2 key error_on_locked fuel1 fuel2 rev b free first_look first_write second_look
        second_write third_look range not_zero live =
      let (n, taken, held, refused) =
        mere_lock_exclusive kv laws life_time_sec key (int64_to_bytes (pos 0)) (w1.clock 0)
          (w2.clock 0) rev b free in
      (
        n,
        free_round w1 key error_on_locked fuel1 0 rev b b first_look free
            ∙ rw (first_write, taken) refl,
        held,
        free_round w2 key true (suc fuel2) 0 rev b b second_look free
            ∙ rw (second_write, refused)
                (held_round w2 w1 key fuel2 2 0 n _ _ third_look held range not_zero live),
      )

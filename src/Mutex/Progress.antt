-- ===== src/Mutex/Progress.antt =====
-- When `KeyMutexLock` returns if nobody else writes (statefun/kv_mutices.go).
use foliage_sdk.Common.{
  ℕ, suc, Bool, true, false, Option, some, ◌≡◌, refl, inl, inr, Bool-cases, ◌⊎◌,
}
use foliage_sdk.Common.Int.{ℤ, pos, eqb_ℤ}
use foliage_sdk.Common.Text.{Str}
use foliage_sdk.System.Bytes.{int64_to_bytes, bytes_to_int64}
use foliage_sdk.Mutex.Kv.{Bucket, IsLinear, entry_of, not_found}
use foliage_sdk.Mutex.{
  mutex_locked, Locked, revision, lock_failed, mutex_key, is_dead, Action, reset, mere_lock,
  again_with_reset, refuse, decide, World, mutex_reset_lock, mutex_mere_lock, return_or, act,
  mutex_wait_for_unlock, key_mutex_lock,
}

module _ (kv : Bucket) (laws : IsLinear kv) (life_time_sec : ℕ) where
  open kv use {State, get, put, update}

  -- The mutex is absent, free, or held by an owner that is dead by the time of access `i`.
  abbrev pub IsFree : World kv life_time_sec → ℕ → Str → State → Type 0
  IsFree w i key b =
      (get (mutex_key key) b ≡ not_found)
      ⊎ ((value : Str) × (rev : ℕ) × (get (mutex_key key) b ≡ entry_of value rev)
          × ((eqb_ℤ (bytes_to_int64 value) (pos 0) ≡ true)
              ⊎ (is_dead life_time_sec (bytes_to_int64 value) (w.clock i) ≡ true)))

  -- Nobody else writes to the bucket.
  abbrev pub IsQuiet : World kv life_time_sec → Type 0
  IsQuiet w = (i : ℕ) (b : State) → w.others i b ≡ b

  abbrev Returns : Option (State × Locked) → Type 0
  Returns o = (b' : State) × (n : ℕ) × (o ≡ some (b', revision n))

  reset-Returns :
      (key : Str) (now : ℤ) (b : State)
      → Returns (some (mutex_reset_lock kv life_time_sec key now b))
  unfolding mutex_reset_lock
  reset-Returns key now b =
      let (n, reply, held) = laws.put_written (mutex_key key) (int64_to_bytes now) b in
      ((put (mutex_key key) (int64_to_bytes now) b).0, n, rw reply refl)

  mere-Returns :
      (key value : Str) (now : ℤ) (rev : ℕ) (b : State) (again : State → Option (State × Locked))
      → get (mutex_key key) b ≡ entry_of value rev
      → Returns (return_or kv life_time_sec again (mutex_mere_lock kv life_time_sec key now rev b))
  unfolding mutex_mere_lock
  mere-Returns key value now rev b again h =
      let (n, reply, held, up) =
        laws.update_current (mutex_key key) (int64_to_bytes now) value rev b h in
      ((update (mutex_key key) (int64_to_bytes now) rev b).0, n, rw reply refl)

  module _ (w : World kv life_time_sec) (quiet : IsQuiet w) (key : Str)
      (error_on_locked : Bool) where
    -- A round that sees `reply` decides on it.
    round :
        (fuel i : ℕ) (reset_needed : Bool) (b : State) (a : Action)
        → decide reset_needed error_on_locked life_time_sec (w.clock i) (get (mutex_key key) b) ≡ a
        → key_mutex_lock kv life_time_sec (suc fuel) w i reset_needed key error_on_locked b
          ≡ act kv life_time_sec w i key reset_needed b
              (λ j r c. key_mutex_lock kv life_time_sec fuel w j r key error_on_locked c)
              (λ j c. mutex_wait_for_unlock kv life_time_sec fuel w j key c)
              a
    unfolding key_mutex_lock
    round fuel i reset_needed b a e = rw (quiet i b) (rw e refl)

    reset_round :
        (fuel i : ℕ) (reset_needed : Bool) (b : State)
        → decide reset_needed error_on_locked life_time_sec (w.clock i) (get (mutex_key key) b)
          ≡ reset
        → Returns
            (key_mutex_lock kv life_time_sec (suc fuel) w i reset_needed key error_on_locked b)
    unfolding act
    reset_round fuel i reset_needed b e =
        rw (round fuel i reset_needed b reset e)
          (reset-Returns key (w.clock i) (w.others (suc i) b))

    decide_reset :
        (now : ℤ) (value : Str) (rev : ℕ)
        → decide true error_on_locked life_time_sec now (entry_of value rev) ≡ reset
    unfolding decide
    decide_reset now value rev = refl

    decide_absent :
        (r : Bool) (now : ℤ) → decide r error_on_locked life_time_sec now not_found ≡ reset
    unfolding decide
    decide_absent r now = refl

    decide_free :
        (now : ℤ) (value : Str) (rev : ℕ)
        → eqb_ℤ (bytes_to_int64 value) (pos 0) ≡ true
        → decide false error_on_locked life_time_sec now (entry_of value rev) ≡ mere_lock rev
    unfolding decide
    decide_free now value rev h = rw h refl

    decide_dead :
        (now : ℤ) (value : Str) (rev : ℕ)
        → eqb_ℤ (bytes_to_int64 value) (pos 0) ≡ false
        → is_dead life_time_sec (bytes_to_int64 value) now ≡ true
        → decide false error_on_locked life_time_sec now (entry_of value rev) ≡ again_with_reset
    unfolding decide
    decide_dead now value rev h dead = rw (h, dead) refl

    free_round :
        (fuel i : ℕ) (value : Str) (rev : ℕ) (b : State)
        → get (mutex_key key) b ≡ entry_of value rev
        → eqb_ℤ (bytes_to_int64 value) (pos 0) ≡ true
        → Returns (key_mutex_lock kv life_time_sec (suc fuel) w i false key error_on_locked b)
    unfolding act
    free_round fuel i value rev b h free =
        rw (round fuel i false b (mere_lock rev) (rw h (decide_free (w.clock i) value rev free))) (
          mere-Returns key value (w.clock i) rev (w.others (suc i) b)
            (λ c. key_mutex_lock kv life_time_sec fuel w (suc (suc i)) false key error_on_locked c)
            (rw (quiet (suc i) b) h))

    dead_round :
        (fuel i : ℕ) (value : Str) (rev : ℕ) (b : State)
        → get (mutex_key key) b ≡ entry_of value rev
        → eqb_ℤ (bytes_to_int64 value) (pos 0) ≡ false
        → is_dead life_time_sec (bytes_to_int64 value) (w.clock i) ≡ true
        → Returns (key_mutex_lock kv life_time_sec (suc (suc fuel)) w i false key error_on_locked b)
    unfolding act
    dead_round fuel i value rev b h live dead =
        rw
          (round (suc fuel) i false b again_with_reset
            (rw h (decide_dead (w.clock i) value rev live dead)))
          (reset_round fuel (suc i) true b (rw h (decide_reset (w.clock (suc i)) value rev)))

    -- If nobody else writes and the mutex is absent, free or dead, `KeyMutexLock` returns a
    -- revision within two rounds.
    pub lock_returns :
        (fuel i : ℕ) (b : State)
        → IsFree w i key b
        → (b' : State) × (n : ℕ) × (key_mutex_lock kv life_time_sec
              (suc (suc fuel))
              w
              i
              false
              key
              error_on_locked
              b
            ≡ some (b', revision n))
    lock_returns fuel i b (inl absent) =
        reset_round (suc fuel) i false b (rw absent (decide_absent false (w.clock i)))
    lock_returns fuel i b (inr (value, rev, h, inl free)) =
        free_round (suc fuel) i value rev b h free
    lock_returns fuel i b (inr (value, rev, h, inr dead)) =
        elim (Bool-cases (eqb_ℤ (bytes_to_int64 value) (pos 0))) [
          | inl free ↦ free_round (suc fuel) i value rev b h free
          | inr live ↦ dead_round fuel i value rev b h live dead
        ]

    decide_live :
        (now : ℤ) (value : Str) (rev : ℕ)
        → error_on_locked ≡ true
        → eqb_ℤ (bytes_to_int64 value) (pos 0) ≡ false
        → is_dead life_time_sec (bytes_to_int64 value) now ≡ false
        → decide false error_on_locked life_time_sec now (entry_of value rev) ≡ refuse
    unfolding decide
    decide_live now value rev e live young = rw (live, young, e) refl

    -- If nobody else writes and the mutex is held by an owner that is alive, `KeyMutexLock` with
    -- `errorOnLocked` returns at once that the mutex is locked, and changes nothing.
    lock_refused :
        (fuel i : ℕ) (value : Str) (rev : ℕ) (b : State)
        → error_on_locked ≡ true
        → get (mutex_key key) b ≡ entry_of value rev
        → eqb_ℤ (bytes_to_int64 value) (pos 0) ≡ false
        → is_dead life_time_sec (bytes_to_int64 value) (w.clock i) ≡ false
        → key_mutex_lock kv life_time_sec (suc fuel) w i false key error_on_locked b
          ≡ some (b, lock_failed mutex_locked)
    unfolding act
    lock_refused fuel i value rev b e h live young =
        round fuel i false b refuse (rw h (decide_live (w.clock i) value rev e live young))

-- ===== src/Function/Slots.antt =====
-- statefun/function_type.go: how many goroutines of a function type run.
use foliage_sdk.Common.{
  ℕ, suc, ◌-◌, ◌≤◌, false, some, List, ◌≡◌, refl, sym, ap, ◌∙◌, length, leb, arith,
}
use foliage_sdk.Function.Handlers.{
  Routine, Fun, update_routine, put_in, spawn, receive_next, end_message, close, new_function_type,
}
use foliage_sdk.Function.Runs.{Event, run, run-keeps}
use foliage_sdk.Function.Keeps.{Kept, step-keeps}
use foliage_sdk.Function.Routines.{length-update, length-remove}

spawned_within :
    (cap n l : ℕ) → (n ≡ l) × (n ≤ cap) → leb cap n ≡ false → (suc n ≡ suc l) × (suc n ≤ cap)
spawned_within cap n l h b = (ap suc h.0, ground arith)

ended_within : (cap n l l' : ℕ) → (n ≡ l) × (n ≤ cap) → l ≡ suc l' → (n - 1 ≡ l') × (n - 1 ≤ cap)
ended_within cap n l l' h e = (omega (arith, h.0, e), omega (arith, h.1))

module _ {M : Type 0} (cap : ℕ) where
  -- Every goroutine has a slot, and the slots are at most as many as the limit.
  pub IsWithin : Fun M → Type 0
  IsWithin f = (f.slots ≡ length f.routines) × (f.slots ≤ cap)

  updated-IsWithin :
      (k : ℕ) (g : Routine M → Routine M) (f : Fun M)
      → IsWithin f
      → IsWithin (record f { routines = update_routine k g f.routines })
  unfolding IsWithin
  updated-IsWithin k g f h = (h.0 ∙ sym (length-update k g f.routines), h.1)

  IsWithin-kept : Kept (some cap) IsWithin
  unfolding IsWithin spawn
  IsWithin-kept = record {
    timed = λ now id k f e h. h;
    taken_in = λ m k f h. updated-IsWithin k (put_in m) f h;
    spawned = λ id f e b n h. spawned_within cap f.slots (length f.routines) h b;
    held = λ id f e h. h;
    received = λ k f h. updated-IsWithin k receive_next f h;
    message_ended = λ k f h. updated-IsWithin k end_message f h;
    ended = λ k r f e c h. ended_within cap _ _ _ h (length-remove k f.routines r e);
    chosen = λ id f t e h. h;
    forgotten = λ id k f c e h. updated-IsWithin k close f h;
  }

  -- In every run of a new function type whose limit is `cap`, at most `cap` goroutines run, those whose
  -- channel is closed and that still have messages to handle included.
  pub routines_bounded :
      (size lifetime_ms : ℕ) (events : List (Event M))
      → length (run (some cap) size lifetime_ms events (new_function_type M)).routines ≤ cap
  unfolding IsWithin
  routines_bounded size lifetime_ms events =
      let (e, h) =
        run-keeps (some cap) size lifetime_ms IsWithin
          (step-keeps (some cap) size lifetime_ms IsWithin IsWithin-kept) events
          (new_function_type M) (refl, omega arith) in
      omega (arith, e, h)

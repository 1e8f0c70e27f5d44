-- ===== src/Function/Stuck.antt =====
-- statefun/function_type.go: an id whose mutex was not given back.
use mathlib.Core.Path.{subst}
use foliage_sdk.Common.Dict.{load}
use foliage_sdk.Common.{
  ℕ, Bool, true, false, ◌||◌, Option, none, List, ◌≡◌, sym, ap, arith, if◌then◌else◌,
}
use foliage_sdk.Common.Text.{Str, str_eq_refl}
use foliage_sdk.Function.Handlers.{
  Msg, Fun, blocked, is_held, send_msg, send_to, offer, at_limit, refuse_at_limit, spawn,
}
use foliage_sdk.Function.Runs.{Event, run, run-keeps}
use foliage_sdk.Function.Keeps.{Kept, step-keeps}

later : (a b : Bool) → b ≡ true → (a || b) ≡ true
later a b h = ground arith

module _ {M : Type 0} (limit : Option ℕ) (size lifetime_ms : ℕ) (id : Str) where
  IsStuck : Fun M → Type 0
  IsStuck f = is_held id f.held ≡ true

  IsStuck-kept : Kept limit IsStuck
  unfolding IsStuck spawn
  IsStuck-kept = record {
    timed = λ now i k f e h. h;
    taken_in = λ m k f h. h;
    spawned = λ i f e b n h. h;
    held = λ i f e h. later _ _ h;
    received = λ k f h. h;
    message_ended = λ k f h. h;
    ended = λ k r f e c h. h;
    chosen = λ i f t e h. h;
    forgotten = λ i k f c e h. h;
  }

  send_msg-blocked :
      (now : ℕ) (m : Msg M) (f : Fun M)
      → is_held id f.held ≡ true
      → send_msg limit size now id m f ≡ (blocked, f)
  unfolding send_msg
  send_msg-blocked now m f h = ground (arith, h)

  run-IsStuck :
      (events : List (Event M)) (f : Fun M)
      → is_held id f.held ≡ true
      → is_held id (run limit size lifetime_ms events f).held ≡ true
  unfolding IsStuck
  run-IsStuck events f h =
      run-keeps limit size lifetime_ms IsStuck
        (step-keeps limit size lifetime_ms IsStuck IsStuck-kept) events f h

  refused-IsStuck :
      (now : ℕ) (m : Msg M) (f : Fun M)
      → is_held id f.held ≡ false
      → load id f.channels ≡ none
      → at_limit limit f.slots ≡ true
      → is_held id (send_msg limit size now id m f).1.held ≡ true
  unfolding send_msg
  refused-IsStuck now m f h e l =
      subst
        (λ b.
          is_held id
            (if b then (blocked, f) else send_to limit size now id m (load id f.channels) f).1.held
          ≡ true)
        (sym h)
        (subst (λ o. is_held id (send_to limit size now id m o f).1.held ≡ true) (sym e)
          (subst
            (λ b.
              is_held id
                (if b
                  then refuse_at_limit id m f
                  else offer size now id m f.next_key (spawn limit id f)).1.held
              ≡ true)
            (sym l) (ap (λ b. b || is_held id f.held) (str_eq_refl id))))

  -- A message to an id that has no goroutine, at the limit: its refusal keeps the id's mutex, so
  -- whatever happens next, goroutines that end included, every later message to the id waits for the
  -- mutex and changes nothing.
  pub send_msg-stuck :
      (events : List (Event M)) (now later_now : ℕ) (m later_m : Msg M) (f : Fun M)
      → is_held id f.held ≡ false
      → load id f.channels ≡ none
      → at_limit limit f.slots ≡ true
      → send_msg limit size later_now id later_m
          (run limit size lifetime_ms events (send_msg limit size now id m f).1)
        ≡ (blocked, run limit size lifetime_ms events (send_msg limit size now id m f).1)
  send_msg-stuck events now later_now m later_m f h e l =
      send_msg-blocked later_now later_m _ (run-IsStuck events _ (refused-IsStuck now m f h e l))

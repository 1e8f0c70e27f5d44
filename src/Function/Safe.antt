-- ===== src/Function/Safe.antt =====
-- statefun/function_type.go: no write to a channel and no close of one panics, and gc does not wait for a
-- mutex that is not given back.
use foliage_sdk.Common.{
  true-false, some_inj, none-some, ℕ, Bool, true, false, Option, none, some, List, ◌≡◌, refl, sym,
  ap, ◌∙◌, length, ltb, ◌==◌, ==_iff, if◌then◌else◌, arith,
}
use foliage_sdk.Common.Dict.{load}
use foliage_sdk.Common.Text.{Str}
use foliage_sdk.Function.Handlers.{
  Msg, Routine, Fun, Outcome, refused, collected, blocked, panicked, find_routine, new_routine,
  offer_to, offer, spawn, at_limit, send_to, send_msg, close_routine, collect_channel, collect_id,
  collect, new_function_type, is_held,
}
use foliage_sdk.Function.Runs.{Event, run}
use foliage_sdk.Function.Keeps.{on_test}
use foliage_sdk.Function.Live.{Runs, AreLive}
use foliage_sdk.Function.Sound.{run-IsSound}

abbrev pub is_panic : Outcome → Bool
is_panic panicked = true
is_panic _ = false

module _ {M : Type 0} where
  IsCalm : Outcome × Fun M → Type 0
  IsCalm x = is_panic x.0 ≡ false

  calm : (o : Outcome) (f : Fun M) → is_panic o ≡ false → IsCalm (o, f)
  unfolding IsCalm
  calm o f h = h

  offer_to-IsCalm :
      (size : ℕ) (m : Msg M) (k : ℕ) (id : Str) (f : Fun M) (o : Option (Routine M))
      → (r : Routine M) × (o ≡ some r) × (r.is_open ≡ true) × (r.id ≡ id)
      → IsCalm (offer_to size m k o f)
  offer_to-IsCalm size m k id f none (r, e, o, i) = none-some e
  offer_to-IsCalm size m k id f (some r') (r, e, o, i) =
      on_test IsCalm r'.is_open _ _
        (λ _.
          on_test IsCalm (ltb (length r'.queue) size) _ _ (λ _. calm _ _ refl) (λ _. calm _ _ refl))
        (λ c. true-false (ap (λ (x : Routine M). x.is_open) (some_inj e) ∙ o) c)

  offer-IsCalm :
      (size now : ℕ) (m : Msg M) (k : ℕ) (id : Str) (f : Fun M)
      → Runs k id f.routines
      → IsCalm (offer size now id m k f)
  unfolding offer
  offer-IsCalm size now m k id f h = offer_to-IsCalm size m k id _ _ h

  spawn-Runs :
      (limit : Option ℕ) (id : Str) (f : Fun M) → Runs f.next_key id (spawn limit id f).routines
  unfolding spawn find_routine
  spawn-Runs limit id f = (
    new_routine f.next_key id,
    same (f.next_key == f.next_key) ((==_iff f.next_key f.next_key).1 refl),
    refl,
    refl,
  )
    where
      same :
          (b : Bool)
          → b ≡ true
          → (if b then some (new_routine f.next_key id) else find_routine f.next_key f.routines)
            ≡ some (new_routine f.next_key id)
      same b e = ground (arith, e)

  send_to-IsCalm :
      (limit : Option ℕ) (size now : ℕ) (id : Str) (m : Msg M) (o : Option ℕ) (f : Fun M)
      → m.has_refusal_callback ≡ true
      → AreLive f
      → load id f.channels ≡ o
      → IsCalm (send_to limit size now id m o f)
  unfolding AreLive
  send_to-IsCalm limit size now id m (some k) f c a e = offer-IsCalm size now m k id f (a id k e).1
  send_to-IsCalm limit size now id m none f c a e =
      on_test IsCalm (at_limit limit f.slots) _ _
        (λ _. calm _ _ (ap (λ b. is_panic (if b then refused else panicked)) c))
        (λ _. offer-IsCalm size now m f.next_key id (spawn limit id f) (spawn-Runs limit id f))

  -- In every run of a new function type, a call of sendMsg for a message that has a callback for refusal
  -- does not panic: no message is written to a closed channel.
  pub send_msg-no_panic :
      (limit : Option ℕ) (size lifetime_ms : ℕ) (events : List (Event M)) (now : ℕ) (id : Str)
      (m : Msg M)
      → m.has_refusal_callback ≡ true
      → is_panic
          (send_msg limit size now id m (run limit size lifetime_ms events (new_function_type M))).0
        ≡ false
  unfolding send_msg IsCalm
  send_msg-no_panic limit size lifetime_ms events now id m c =
      let f = run limit size lifetime_ms events (new_function_type M) in
      on_test IsCalm (is_held id f.held) _ _ (λ _. calm blocked f refl)
        (λ _.
          send_to-IsCalm limit size now id m _ f c (run-IsSound limit size lifetime_ms events).live
            refl)

  collect_channel-collected :
      (id : Str) (o : Option ℕ) (f : Fun M)
      → AreLive f
      → load id f.channels ≡ o
      → (k : ℕ) × (o ≡ some k)
      → (collect_channel id o f).0 ≡ collected
  unfolding AreLive
  collect_channel-collected id none f a e (k, h) = none-some h
  collect_channel-collected id (some k) f a e h =
      let (r, found, is_open, i) = (a id k e).1 in
      ap (λ o. (close_routine id k o f).0) found
      ∙ on_test (λ (x : Outcome × Fun M). x.0 ≡ collected) r.is_open _ _ (λ _. refl)
          (λ c. true-false is_open c)

  -- In every run of a new function type, when gc takes the mutex of the id that it chose, it closes the
  -- id's channel, which is there and open: it does not panic, nor wait for a mutex that is not given back.
  pub collect-collected :
      (limit : Option ℕ) (size lifetime_ms : ℕ) (events : List (Event M)) (id : Str)
      → (run limit size lifetime_ms events (new_function_type M)).chosen ≡ some id
      → (collect (run limit size lifetime_ms events (new_function_type M))).0 ≡ collected
  unfolding collect
  collect-collected limit size lifetime_ms events id c =
      let f = run limit size lifetime_ms events (new_function_type M) in
      let s = run-IsSound limit size lifetime_ms events in
      ap (λ o. (collect_id o f).0) c
      ∙ on_test (λ (x : Outcome × Fun M). x.0 ≡ collected) (is_held id f.held) _ _
          (λ h. none-some (sym (s.is_free id h) ∙ (s.was_chosen id c).1))
          (λ _. collect_channel-collected id _ f s.live refl (s.was_chosen id c))

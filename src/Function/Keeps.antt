-- ===== src/Function/Keeps.antt =====
-- statefun/function_type.go: what every change of the state of a function type keeps, every step keeps.
use mathlib.Core.Path.{subst}
use foliage_sdk.Common.{
  ℕ, Bool, true, false, Option, none, some, List, ◌∷◌, ◌≡◌, refl, sym, ap, ◌∙◌, if◌then◌else◌,
}
use foliage_sdk.Common.Dict.{load, assign, load-assign}
use foliage_sdk.Common.Text.{Str, str_eq_refl}
use foliage_sdk.Function.Handlers.{
  Msg, Routine, Fun, Outcome, is_held, find_routine, update_routine, remove_routine, put_in,
  offer_to, offer, spawn, at_limit, send_to, send_msg, receive_next, end_message, slots_before,
  is_done, end_if_done, end_routine, has_expired, choose_if, choose, close_routine, collect_channel,
  collect_id, forget, collect,
}
use foliage_sdk.Function.Runs.{Event, sends, receives, ends_message, ends, chooses, collects, step}

-- The two sides of a test.
pub on_test {ℓ} :
    {A : Type ℓ} (Q : A → Type 0) (b : Bool) (x y : A)
    → (b ≡ true → Q x)
    → (b ≡ false → Q y)
    → Q (if b then x else y)
on_test Q true x y h k = h refl
on_test Q false x y h k = k refl

module _ {M : Type 0} (limit : Option ℕ) (P : Fun M → Type 0) where
  -- The changes of the state, each under the tests that lead to it.
  pub record Kept : Type 0 where
    pub timed :
        (now : ℕ) (id : Str) (k : ℕ) (f : Fun M)
        → load id f.channels ≡ some k
        → P f
        → P (record f { last_msg_time = assign id now f.last_msg_time })
    pub taken_in :
        (m : Msg M) (k : ℕ) (f : Fun M)
        → P f
        → P (record f { routines = update_routine k (put_in m) f.routines })
    pub spawned :
        (id : Str) (f : Fun M)
        → load id f.channels ≡ none
        → at_limit limit f.slots ≡ false
        → is_held id f.held ≡ false
        → P f
        → P (spawn limit id f)
    pub held :
        (id : Str) (f : Fun M)
        → load id f.channels ≡ none
        → P f
        → P (record f { held = id ∷ f.held })
    pub received :
        (k : ℕ) (f : Fun M)
        → P f
        → P (record f { routines = update_routine k receive_next f.routines })
    pub message_ended :
        (k : ℕ) (f : Fun M)
        → P f
        → P (record f { routines = update_routine k end_message f.routines })
    pub ended :
        (k : ℕ) (r : Routine M) (f : Fun M)
        → find_routine k f.routines ≡ some r
        → r.is_open ≡ false
        → P f
        → P (record f {
          routines = remove_routine k f.routines;
          slots = slots_before limit f.slots;
        })
    pub chosen :
        (id : Str) (f : Fun M) (t : ℕ)
        → load id f.last_msg_time ≡ some t
        → P f
        → P (record f { chosen = some id })
    pub forgotten :
        (id : Str) (k : ℕ) (f : Fun M)
        → f.chosen ≡ some id
        → load id f.channels ≡ some k
        → P f
        → P (forget id k f)

is_done-closed :
    {M : Type 0} (b : Bool) (o : Option (Msg M)) (q : List (Msg M))
    → is_done b o q ≡ true
    → b ≡ false
is_done-closed false o q h = refl
is_done-closed true o q h = sym h

pub spawn-channel :
    {M : Type 0} (limit : Option ℕ) (id : Str) (f : Fun M)
    → load id (spawn limit id f).channels ≡ some f.next_key
unfolding spawn
spawn-channel limit id f =
    load-assign id id f.next_key f.channels
    ∙ ap (λ b. if b then some f.next_key else load id f.channels) (str_eq_refl id)

module _ {M : Type 0} (limit : Option ℕ) (size lifetime_ms : ℕ) (P : Fun M → Type 0)
    (kept : Kept limit P) where
  offer_to-keeps :
      (m : Msg M) (k : ℕ) (o : Option (Routine M)) (f : Fun M) → P f → P (offer_to size m k o f).1
  offer_to-keeps m k none f h = h
  offer_to-keeps m k (some r) f h =
      on_test (λ (x : Outcome × Fun M). P x.1) r.is_open _ _
        (λ _. on_test (λ (x : Outcome × Fun M). P x.1) _ _ _ (λ _. kept.taken_in m k f h) (λ _. h))
        (λ _. h)

  offer-keeps :
      (now : ℕ) (id : Str) (m : Msg M) (k : ℕ) (f : Fun M)
      → load id f.channels ≡ some k
      → P f
      → P (offer size now id m k f).1
  unfolding offer
  offer-keeps now id m k f e h = offer_to-keeps m k _ _ (kept.timed now id k f e h)

  send_to-keeps :
      (now : ℕ) (id : Str) (m : Msg M) (o : Option ℕ) (f : Fun M)
      → load id f.channels ≡ o
      → is_held id f.held ≡ false
      → P f
      → P (send_to limit size now id m o f).1
  send_to-keeps now id m (some k) f e n h = offer-keeps now id m k f e h
  send_to-keeps now id m none f e n h =
      on_test (λ (x : Outcome × Fun M). P x.1) (at_limit limit f.slots) _ _
        (λ _. kept.held id f e h)
        (λ b.
          offer-keeps now id m f.next_key (spawn limit id f) (spawn-channel limit id f)
            (kept.spawned id f e b n h))

  send_msg-keeps :
      (now : ℕ) (id : Str) (m : Msg M) (f : Fun M) → P f → P (send_msg limit size now id m f).1
  unfolding send_msg
  send_msg-keeps now id m f h =
      on_test (λ (x : Outcome × Fun M). P x.1) (is_held id f.held) _ _ (λ _. h)
        (λ n. send_to-keeps now id m (load id f.channels) f refl n h)

  end_if_done-keeps :
      (k : ℕ) (o : Option (Routine M)) (f : Fun M)
      → find_routine k f.routines ≡ o
      → P f
      → P (end_if_done limit k o f)
  end_if_done-keeps k none f e h = h
  end_if_done-keeps k (some r) f e h =
      on_test P (is_done r.is_open r.busy r.queue) _ _
        (λ d. kept.ended k r f e (is_done-closed r.is_open r.busy r.queue d) h) (λ _. h)

  choose-keeps : (now : ℕ) (id : Str) (f : Fun M) → P f → P (choose lifetime_ms now id f)
  unfolding choose
  choose-keeps now id f h = by_cases (load id f.last_msg_time) f.chosen refl refl
    where
      by_cases :
          (o : Option ℕ) (c : Option Str)
          → load id f.last_msg_time ≡ o
          → f.chosen ≡ c
          → P (record f { chosen = choose_if id (has_expired lifetime_ms now o) c })
      by_cases none c e e' = subst (λ c'. P (record f { chosen = c' })) e' h
      by_cases (some t) (some i) e e' = by_test (has_expired lifetime_ms now (some t))
        where
          by_test : (b : Bool) → P (record f { chosen = choose_if id b (some i) })
          by_test true = subst (λ c'. P (record f { chosen = c' })) e' h
          by_test false = subst (λ c'. P (record f { chosen = c' })) e' h
      by_cases (some t) none e e' = by_test (has_expired lifetime_ms now (some t))
        where
          by_test : (b : Bool) → P (record f { chosen = choose_if id b none })
          by_test true = kept.chosen id f t e h
          by_test false = subst (λ c'. P (record f { chosen = c' })) e' h

  close_routine-keeps :
      (id : Str) (k : ℕ) (o : Option (Routine M)) (f : Fun M)
      → f.chosen ≡ some id
      → load id f.channels ≡ some k
      → P f
      → P (close_routine id k o f).1
  close_routine-keeps id k none f c e h = h
  close_routine-keeps id k (some r) f c e h =
      on_test (λ (x : Outcome × Fun M). P x.1) r.is_open _ _ (λ _. kept.forgotten id k f c e h)
        (λ _. h)

  collect_channel-keeps :
      (id : Str) (o : Option ℕ) (f : Fun M)
      → f.chosen ≡ some id
      → load id f.channels ≡ o
      → P f
      → P (collect_channel id o f).1
  collect_channel-keeps id none f c e h = h
  collect_channel-keeps id (some k) f c e h = close_routine-keeps id k _ f c e h

  collect_id-keeps : (o : Option Str) (f : Fun M) → f.chosen ≡ o → P f → P (collect_id o f).1
  collect_id-keeps none f c h = h
  collect_id-keeps (some id) f c h =
      on_test (λ (x : Outcome × Fun M). P x.1) (is_held id f.held) _ _ (λ _. h)
        (λ _. collect_channel-keeps id _ f c refl h)

  pub step-keeps : (e : Event M) (f : Fun M) → P f → P (step limit size lifetime_ms e f)
  unfolding step end_routine collect
  step-keeps (sends now id m) f h = send_msg-keeps now id m f h
  step-keeps (receives k) f h = kept.received k f h
  step-keeps (ends_message k) f h = kept.message_ended k f h
  step-keeps (ends k) f h = end_if_done-keeps k _ f refl h
  step-keeps (chooses now id) f h = choose-keeps now id f h
  step-keeps collects f h = collect_id-keeps f.chosen f refl h

-- ===== src/Function/Sound.antt =====
-- statefun/function_type.go: the maps of a function type agree with each other and with its goroutines.
use foliage_sdk.Common.{
  some_inj, none-some, ℕ, true, false, ◌||◌, Option, none, some, List, ◌∷◌, ◌≡◌, refl, sym, ap, ◌∙◌,
  Bool-cases, inl, inr, arith,
}
use foliage_sdk.Common.Dict.{Dict, load, assign}
use foliage_sdk.Common.Text.{Str, str_eq, str_eq_iff}
use foliage_sdk.Function.Handlers.{
  Routine, Fun, find_routine, update_routine, remove_routine, put_in, spawn, receive_next,
  end_message, slots_before, forget, new_function_type, is_held,
}
use foliage_sdk.Function.Runs.{Event, run, run-keeps}
use foliage_sdk.Function.Keeps.{Kept, step-keeps}
use foliage_sdk.Function.Live.{
  assigned, deleted, Keeps, put_in-Keeps, receive_next-Keeps, end_message-Keeps, AreLive,
  updated-AreLive, spawned-AreLive, remove-Runs, close-Runs,
}

still_there :
    (i id : Str) (n : ℕ) (m : Dict ℕ)
    → (k : ℕ) × (load id m ≡ some k)
    → (k : ℕ) × (load id (assign i n m) ≡ some k)
still_there i id n m (k, e) = elim (Bool-cases (str_eq i id)) [
  | inl b ↦ (n, assigned i id n m true b)
  | inr b ↦ (k, assigned i id n m false b ∙ e)
]

module _ {M : Type 0} where
  abbrev HasChannel : Str → Fun M → Type 0
  HasChannel id f = (k : ℕ) × (load id f.channels ≡ some k)

  -- An id that has a time, or was chosen by gc, has a channel; an id whose mutex was not given back has
  -- none.
  pub record IsSound (f : Fun M) : Type 0 where
    pub live : AreLive f
    pub timed : (id : Str) (t : ℕ) → load id f.last_msg_time ≡ some t → HasChannel id f
    pub was_chosen : (id : Str) → f.chosen ≡ some id → HasChannel id f
    pub is_free : (id : Str) → is_held id f.held ≡ true → load id f.channels ≡ none

  updated-IsSound :
      (j : ℕ) (g : Routine M → Routine M) (f : Fun M)
      → Keeps g
      → IsSound f
      → IsSound (record f { routines = update_routine j g f.routines })
  updated-IsSound j g f h s = record {
    live = updated-AreLive j g f h s.live;
    timed = s.timed;
    was_chosen = s.was_chosen;
    is_free = s.is_free;
  }

  timed-IsSound :
      (now : ℕ) (i : Str) (k : ℕ) (f : Fun M)
      → load i f.channels ≡ some k
      → IsSound f
      → IsSound (record f { last_msg_time = assign i now f.last_msg_time })
  unfolding AreLive
  timed-IsSound now i k f e s = record {
    live = s.live;
    timed = λ id t h. elim (Bool-cases (str_eq i id)) [
      | inl b ↦ (k, ap (λ j. load j f.channels) (sym ((str_eq_iff i id).0 b)) ∙ e)
      | inr b ↦ s.timed id t (sym (assigned i id now f.last_msg_time false b) ∙ h)
    ];
    was_chosen = s.was_chosen;
    is_free = s.is_free;
  }

  spawned-IsSound :
      (limit : Option ℕ) (i : Str) (f : Fun M)
      → is_held i f.held ≡ false
      → IsSound f
      → IsSound (spawn limit i f)
  unfolding spawn
  spawned-IsSound limit i f n s = record {
    live = spawned-AreLive limit i f s.live;
    timed = λ id t h. still_there i id f.next_key f.channels (s.timed id t h);
    was_chosen = λ id h. still_there i id f.next_key f.channels (s.was_chosen id h);
    is_free = λ id h. assigned i id f.next_key f.channels false (other id h) ∙ s.is_free id h;
  }
    where
      other : (id : Str) → is_held id f.held ≡ true → str_eq i id ≡ false
      other id h = grind (arith, str_eq_iff i id, n, h)

  held-IsSound :
      (i : Str) (f : Fun M)
      → load i f.channels ≡ none
      → IsSound f
      → IsSound (record f { held = i ∷ f.held })
  unfolding AreLive
  held-IsSound i f e s = record {
    live = s.live;
    timed = s.timed;
    was_chosen = s.was_chosen;
    is_free = λ id h. elim (Bool-cases (str_eq i id)) [
      | inl b ↦ ap (λ j. load j f.channels) (sym ((str_eq_iff i id).0 b)) ∙ e
      | inr b ↦ s.is_free id (ap (λ b'. b' || is_held id f.held) (sym b) ∙ h)
    ];
  }

  ended-IsSound :
      (limit : Option ℕ) (k : ℕ) (r : Routine M) (f : Fun M)
      → find_routine k f.routines ≡ some r
      → r.is_open ≡ false
      → IsSound f
      → IsSound
          (record f { routines = remove_routine k f.routines; slots = slots_before limit f.slots })
  unfolding AreLive
  ended-IsSound limit k r f e c s = record {
    live =
        λ id k' h. let (n, runs) = s.live id k' h in (n, remove-Runs k k' id f.routines r e c runs);
    timed = s.timed;
    was_chosen = s.was_chosen;
    is_free = s.is_free;
  }

  forgotten-IsSound :
      (i : Str) (k : ℕ) (f : Fun M)
      → load i f.channels ≡ some k
      → IsSound f
      → IsSound (forget i k f)
  unfolding AreLive
  forgotten-IsSound i k f e s = record {
    live = λ id k' h. elim (Bool-cases (str_eq i id)) [
      | inl b ↦ none-some (sym (deleted i id f.channels true b) ∙ h)
      | inr b ↦
          (let (n, runs) = s.live id k' (sym (deleted i id f.channels false b) ∙ h) in
            (n, close-Runs k k' i id f.routines (s.live i k e).1 b runs))
    ];
    timed = λ id t h. elim (Bool-cases (str_eq i id)) [
      | inl b ↦ none-some (sym (deleted i id f.last_msg_time true b) ∙ h)
      | inr b ↦
          (let (k', e') = s.timed id t (sym (deleted i id f.last_msg_time false b) ∙ h) in
            (k', deleted i id f.channels false b ∙ e'))
    ];
    was_chosen = λ id h. none-some h;
    is_free = λ id h. elim (Bool-cases (str_eq i id)) [
      | inl b ↦ deleted i id f.channels true b
      | inr b ↦ deleted i id f.channels false b ∙ s.is_free id h
    ];
  }

  IsSound-kept : (limit : Option ℕ) → Kept limit IsSound
  unfolding AreLive
  IsSound-kept limit = record {
    timed = timed-IsSound;
    taken_in = λ m k f h. updated-IsSound k (put_in m) f (put_in-Keeps m) h;
    spawned = λ i f e b n h. spawned-IsSound limit i f n h;
    held = held-IsSound;
    received = λ k f h. updated-IsSound k receive_next f receive_next-Keeps h;
    message_ended = λ k f h. updated-IsSound k end_message f end_message-Keeps h;
    ended = ended-IsSound limit;
    chosen = λ id f t e h. record {
      live = h.live;
      timed = h.timed;
      was_chosen = λ i e'.
          (let (k, found) = h.timed id t e in
            (k, ap (λ j. load j f.channels) (sym (some_inj e')) ∙ found));
      is_free = h.is_free;
    };
    forgotten = λ id k f c e h. forgotten-IsSound id k f e h;
  }

  new-IsSound : IsSound (new_function_type M)
  unfolding AreLive load
  new-IsSound = record {
    live = λ id k h. none-some h;
    timed = λ id t h. none-some h;
    was_chosen = λ id h. none-some h;
    is_free = λ id h. refl;
  }

  pub run-IsSound :
      (limit : Option ℕ) (size lifetime_ms : ℕ) (events : List (Event M))
      → IsSound (run limit size lifetime_ms events (new_function_type M))
  run-IsSound limit size lifetime_ms events =
      run-keeps limit size lifetime_ms IsSound
        (step-keeps limit size lifetime_ms IsSound (IsSound-kept limit)) events
        (new_function_type M) new-IsSound

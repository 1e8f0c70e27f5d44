-- ===== src/Function/Names.antt =====
-- statefun/function_type.go: every goroutine, and so every channel, has a name of its own.
use foliage_sdk.Common.{
  ℕ, Option, none, List, [], ◌∷◌, ◌≡◌, ◌≤◌, refl, ◌==◌, ==_iff, arith, ap, ◌∙◌, ◌<◌,
}
use foliage_sdk.Common.Text.{Str}
use foliage_sdk.Function.Handlers.{
  Routine, Fun, find_routine, update_routine, remove_routine, put_in, new_routine, spawn,
  receive_next, end_message, close, new_function_type,
}
use foliage_sdk.Function.Runs.{Event, step}
use foliage_sdk.Function.Keeps.{Kept, on_test, step-keeps}
use foliage_sdk.Function.Live.{receive_next-Keeps, end_message-Keeps}

module _ {M : Type 0} where
  abbrev pub IsAbsent : ℕ → List (Routine M) → Type 0
  IsAbsent k rs = find_routine k rs ≡ none

  pub update-IsAbsent :
      (j k : ℕ) (g : Routine M → Routine M) (rs : List (Routine M))
      → ((r : Routine M) → (g r).key ≡ r.key)
      → IsAbsent k rs
      → IsAbsent k (update_routine j g rs)
  unfolding find_routine update_routine
  update-IsAbsent j k g [] h e = refl
  update-IsAbsent j k g (r ∷ rs) h e =
      grind (arith, update-IsAbsent j k g rs h, ==_iff r.key k, ==_iff (g r).key k, h r, e)

  remove-IsAbsent :
      (j k : ℕ) (rs : List (Routine M)) → IsAbsent k rs → IsAbsent k (remove_routine j rs)
  unfolding find_routine remove_routine
  remove-IsAbsent j k [] e = refl
  remove-IsAbsent j k (r ∷ rs) e = grind (arith, remove-IsAbsent j k rs, e)

  pub AreDistinct : List (Routine M) → Type 0
  AreDistinct [] = Unit
  AreDistinct (r ∷ rs) = IsAbsent r.key rs × AreDistinct rs

  update-AreDistinct :
      (j : ℕ) (g : Routine M → Routine M) (rs : List (Routine M))
      → ((r : Routine M) → (g r).key ≡ r.key)
      → AreDistinct rs
      → AreDistinct (update_routine j g rs)
  unfolding AreDistinct update_routine
  update-AreDistinct j g [] h d = tt
  update-AreDistinct j g (r ∷ rs) h d = (
    on_test (λ (r' : Routine M). IsAbsent r'.key (update_routine j g rs)) (r.key == j) (g r) r
        (λ _. ap (λ k. find_routine k (update_routine j g rs)) (h r) ∙ absent) (λ _. absent),
    update-AreDistinct j g rs h d.1,
  )
    where
      absent : IsAbsent r.key (update_routine j g rs)
      absent = update-IsAbsent j r.key g rs h d.0

  remove-AreDistinct :
      (j : ℕ) (rs : List (Routine M)) → AreDistinct rs → AreDistinct (remove_routine j rs)
  unfolding AreDistinct remove_routine
  remove-AreDistinct j [] d = tt
  remove-AreDistinct j (r ∷ rs) d =
      on_test AreDistinct (r.key == j) rs (r ∷ remove_routine j rs) (λ _. d.1)
        (λ _. (remove-IsAbsent j r.key rs d.0, remove-AreDistinct j rs d.1))

  -- The name of a goroutine that has ended is the name of none.
  pub removed-IsAbsent :
      (k : ℕ) (rs : List (Routine M)) → AreDistinct rs → IsAbsent k (remove_routine k rs)
  unfolding AreDistinct find_routine remove_routine
  removed-IsAbsent k [] d = refl
  removed-IsAbsent k (r ∷ rs) d = grind (arith, removed-IsAbsent k rs d.1, ==_iff r.key k, d.0)

  -- The names are distinct, and those from next_key on are not in use.
  pub record AreNamed (f : Fun M) : Type 0 where
    pub distinct : AreDistinct f.routines
    pub fresh : (k : ℕ) → f.next_key ≤ k → IsAbsent k f.routines

  updated-AreNamed :
      (j : ℕ) (g : Routine M → Routine M) (f : Fun M)
      → ((r : Routine M) → (g r).key ≡ r.key)
      → AreNamed f
      → AreNamed (record f { routines = update_routine j g f.routines })
  updated-AreNamed j g f h n = record {
    distinct = update-AreDistinct j g f.routines h n.distinct;
    fresh = λ k l. update-IsAbsent j k g f.routines h (n.fresh k l);
  }

  spawned-IsAbsent :
      (id : Str) (n k : ℕ) (rs : List (Routine M))
      → n < k
      → IsAbsent k rs
      → IsAbsent k (new_routine n id ∷ rs)
  unfolding find_routine
  spawned-IsAbsent id n k rs l e = ground (arith, ==_iff n k, l, e)

  spawned-AreNamed :
      (limit : Option ℕ) (id : Str) (f : Fun M) → AreNamed f → AreNamed (spawn limit id f)
  unfolding AreDistinct spawn
  spawned-AreNamed limit id f n = record {
    distinct = (n.fresh f.next_key (omega arith), n.distinct);
    fresh = λ k l. spawned-IsAbsent id f.next_key k f.routines l (n.fresh k (omega (arith, l)));
  }

  AreNamed-kept : (limit : Option ℕ) → Kept limit AreNamed
  AreNamed-kept limit = record {
    timed = λ now id k f e n. record { distinct = n.distinct; fresh = n.fresh };
    taken_in = λ m k f n. updated-AreNamed k (put_in m) f (λ r. refl) n;
    spawned = λ id f e b h n. spawned-AreNamed limit id f n;
    held = λ id f e n. record { distinct = n.distinct; fresh = n.fresh };
    received = λ k f n. updated-AreNamed k receive_next f receive_next-Keeps.key_kept n;
    message_ended = λ k f n. updated-AreNamed k end_message f end_message-Keeps.key_kept n;
    ended = λ k r f e c n. record {
      distinct = remove-AreDistinct k f.routines n.distinct;
      fresh = λ k' l. remove-IsAbsent k k' f.routines (n.fresh k' l);
    };
    chosen = λ id f t e n. record { distinct = n.distinct; fresh = n.fresh };
    forgotten = λ id k f c e n.
        (let closed = updated-AreNamed k close f (λ r. refl) n in
          record { distinct = closed.distinct; fresh = closed.fresh });
  }

  pub new-AreNamed : AreNamed (new_function_type M)
  unfolding AreDistinct find_routine
  new-AreNamed = record { distinct = tt; fresh = λ k l. refl }

  pub step-AreNamed :
      (limit : Option ℕ) (size lifetime_ms : ℕ) (e : Event M) (f : Fun M)
      → AreNamed f
      → AreNamed (step limit size lifetime_ms e f)
  step-AreNamed limit size lifetime_ms =
      step-keeps limit size lifetime_ms AreNamed (AreNamed-kept limit)

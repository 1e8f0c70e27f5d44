-- ===== src/Function/Accepted.antt =====
-- statefun/function_type.go: what sendMsg adds to what the goroutine of a channel has to handle.
use mathlib.Core.Path.{subst}
use mathlib.Core.List.{append-nil, append_assoc}
use foliage_sdk.Common.{
  ℕ, ◌==◌, ==_iff, Bool, true, false, Bool-cases, inl, inr, Option, none, some, List, [], ◌∷◌, ◌++◌,
  ◌≡◌, refl, sym, ap, ◌∙◌, if◌then◌else◌, ltb, length, arith,
}
use foliage_sdk.Common.Dict.{load, assign}
use foliage_sdk.Common.Text.{Str}
use foliage_sdk.Function.Handlers.{
  Msg, Routine, Fun, Outcome, accepted, refused, panicked, put_in, spawn, find_routine,
  update_routine, offer_to, offer, send_to, send_msg, at_limit, is_held,
}
use foliage_sdk.Function.Keeps.{on_test}
use foliage_sdk.Function.Names.{AreNamed}
use foliage_sdk.Function.Routines.{find-update_ne, find-update_eq}
use foliage_sdk.Function.Pending.{pending, pending_of, handling}

-- The channel of an id, or the next one that is made.
abbrev pub target_of : ℕ → Option ℕ → ℕ
target_of next none = next
target_of next (some k) = k

module _ {M : Type 0} where
  -- The message, if the call has accepted it and it is for the channel in question.
  abbrev pub taken : Outcome → Bool → Msg M → List (Msg M)
  taken accepted true m = m ∷ []
  taken _ _ m = []

  -- What a call of sendMsg does to a channel: it has the message at its end if it is accepted for it.
  abbrev pub Sent : ℕ → Bool → Msg M → Fun M → Outcome × Fun M → Type 0
  Sent k b m f x = pending k f ++ taken x.0 b m ≡ pending k x.1

  put_in-Sent :
      (j k : ℕ) (m : Msg M) (f : Fun M) (r : Routine M)
      → find_routine j f.routines ≡ some r
      → Sent k
          (j == k)
          m
          f
          (accepted, record f { routines = update_routine j (put_in m) f.routines })
  put_in-Sent j k m f r e = elim (Bool-cases (j == k)) [
    | inl eq ↦
        subst
          (λ (j' : ℕ).
            find_routine j' f.routines ≡ some r
            → pending k f ++ taken accepted (j == k) m
              ≡ pending_of (find_routine k (update_routine j' (put_in m) f.routines)))
          (sym ((==_iff j k).0 eq))
          (λ e'.
            rw (eq, e', find-update_eq k (put_in m) f.routines r (λ x. refl) e')
              (append_assoc (handling r.busy) r.queue (m ∷ [])))
          e
    | inr ne ↦ rw (ne, find-update_ne j k (put_in m) f.routines (λ x. refl) ne) (append-nil _)
  ]

  offer_to-Sent :
      (size j k : ℕ) (m : Msg M) (o : Option (Routine M)) (f : Fun M)
      → find_routine j f.routines ≡ o
      → Sent k (j == k) m f (offer_to size m j o f)
  offer_to-Sent size j k m none f e = (append-nil _)
  offer_to-Sent size j k m (some r) f e =
      on_test (Sent k (j == k) m f) r.is_open _ _
        (λ _.
          on_test (Sent k (j == k) m f) (ltb (length r.queue) size) _ _
            (λ _. put_in-Sent j k m f r e) (λ _. (append-nil _)))
        (λ _. (append-nil _))

  spawn-pending :
      (limit : Option ℕ) (id : Str) (k : ℕ) (f : Fun M)
      → AreNamed f
      → pending k (spawn limit id f) ≡ pending k f
  unfolding spawn find_routine
  spawn-pending limit id k f n = elim (Bool-cases (f.next_key == k)) [
    | inl eq ↦ rw eq (ap pending_of (sym (n.fresh k (omega (arith, (==_iff f.next_key k).0 eq)))))
    | inr ne ↦ rw ne refl
  ]

  send_to-Sent :
      (limit : Option ℕ) (size now : ℕ) (id : Str) (m : Msg M) (k : ℕ) (o : Option ℕ) (f : Fun M)
      → AreNamed f
      → Sent k (target_of f.next_key o == k) m f (send_to limit size now id m o f)
  unfolding offer
  send_to-Sent limit size now id m k (some j) f n =
      offer_to-Sent size j k m (find_routine j f.routines)
        (record f { last_msg_time = assign id now f.last_msg_time }) refl
  send_to-Sent limit size now id m k none f n =
      on_test (Sent k (f.next_key == k) m f) (at_limit limit f.slots) _ _
        (λ _. at_the_limit m.has_refusal_callback)
        (λ _.
          ap
            (λ l.
              l ++ taken (offer size now id m f.next_key (spawn limit id f)).0 (f.next_key == k) m)
            (sym (spawn-pending limit id k f n))
          ∙ offer_to-Sent size f.next_key k m _
              (record (spawn limit id f) {
                last_msg_time = assign id now (spawn limit id f).last_msg_time;
              })
              refl)
    where
      at_the_limit :
          (b : Bool)
          → pending k f ++ taken (if b then refused else panicked) (f.next_key == k) m ≡ pending k f
      at_the_limit true = append-nil _
      at_the_limit false = append-nil _

  pub send_msg-Sent :
      (limit : Option ℕ) (size now : ℕ) (id : Str) (m : Msg M) (k : ℕ) (f : Fun M)
      → AreNamed f
      → Sent k (target_of f.next_key (load id f.channels) == k) m f (send_msg limit size now id m f)
  unfolding send_msg
  send_msg-Sent limit size now id m k f n =
      on_test (Sent k (target_of f.next_key (load id f.channels) == k) m f) (is_held id f.held) _ _
        (λ _. append-nil _) (λ _. send_to-Sent limit size now id m k (load id f.channels) f n)

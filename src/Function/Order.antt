-- ===== src/Function/Order.antt =====
-- statefun/function_type.go: a goroutine handles the messages of its channel in the order they came in.
use mathlib.Core.List.{append-nil, append_assoc}
use foliage_sdk.Common.{ℕ, ◌==◌, Option, List, [], ◌∷◌, ◌++◌, ◌≡◌, sym, ap, ◌∙◌, if◌then◌else◌}
use foliage_sdk.Common.Dict.{load}
use foliage_sdk.Function.Handlers.{
  Msg, Fun, receive_next, new_function_type, find_routine, choose, send_msg,
}
use foliage_sdk.Function.Runs.{
  Event, sends, receives, ends_message, ends, chooses, collects, step, run,
}
use foliage_sdk.Function.Live.{receive_next-Keeps}
use foliage_sdk.Function.Pending.{
  pending, in_hand, update-pending, receive_next-pending, end_message-pending, end_routine-pending,
  collect-pending,
}
use foliage_sdk.Function.Accepted.{taken, target_of, send_msg-Sent}
use foliage_sdk.Function.Names.{AreNamed, new-AreNamed, step-AreNamed}

module _ {M : Type 0} (limit : Option ℕ) (size lifetime_ms : ℕ) where
  -- The message that an event puts into the channel `k`, and the one whose handling it ends there.
  abbrev pub accepted_now : ℕ → Event M → Fun M → List (Msg M)
  accepted_now k (sends now id m) f =
      taken (send_msg limit size now id m f).0 (target_of f.next_key (load id f.channels) == k) m
  accepted_now k _ f = []

  abbrev pub finished_now : ℕ → Event M → Fun M → List (Msg M)
  finished_now k (ends_message j) f = if j == k then in_hand (find_routine k f.routines) else []
  finished_now k _ f = []

  -- In a run: the messages that sendMsg has accepted into the channel `k`, and those whose handling by
  -- its goroutine has ended, each in its order.
  unfoldable pub accepted_by : ℕ → List (Event M) → Fun M → List (Msg M)
  accepted_by k [] f = []
  accepted_by k (e ∷ es) f =
      accepted_now k e f ++ accepted_by k es (step limit size lifetime_ms e f)

  unfoldable pub finished_by : ℕ → List (Event M) → Fun M → List (Msg M)
  finished_by k [] f = []
  finished_by k (e ∷ es) f =
      finished_now k e f ++ finished_by k es (step limit size lifetime_ms e f)

  step-pending :
      (k : ℕ) (e : Event M) (f : Fun M)
      → AreNamed f
      → pending k f ++ accepted_now k e f
        ≡ finished_now k e f ++ pending k (step limit size lifetime_ms e f)
  unfolding step choose
  step-pending k (sends now id m) f n = send_msg-Sent limit size now id m k f n
  step-pending k (receives j) f n =
      append-nil _
      ∙ sym (
          update-pending j k receive_next f.routines receive_next-Keeps.key_kept
            receive_next-pending)
  step-pending k (ends_message j) f n = append-nil _ ∙ end_message-pending j k f
  step-pending k (ends j) f n = append-nil _ ∙ sym (end_routine-pending limit j k f n)
  step-pending k (chooses now id) f n = append-nil _
  step-pending k collects f n = append-nil _ ∙ sym (collect-pending k f)

  run-pending :
      (k : ℕ) (events : List (Event M)) (f : Fun M)
      → AreNamed f
      → pending k f ++ accepted_by k events f
        ≡ finished_by k events f ++ pending k (run limit size lifetime_ms events f)
  unfolding run accepted_by finished_by
  run-pending k [] f n = append-nil _
  run-pending k (e ∷ es) f n =
      sym (append_assoc (pending k f) (accepted_now k e f) _)
      ∙ ap (λ l. l ++ accepted_by k es (step limit size lifetime_ms e f)) (step-pending k e f n)
      ∙ append_assoc (finished_now k e f) _ _
      ∙ ap (λ l. finished_now k e f ++ l)
          (run-pending k es (step limit size lifetime_ms e f)
            (step-AreNamed limit size lifetime_ms e f n))
      ∙ sym (append_assoc (finished_now k e f) _ _)

  -- In every run of a new function type and for every channel: the messages that sendMsg has accepted
  -- into it are those whose handling has ended, then the one that is handled, then those that wait, each
  -- in its order. So a channel's messages are handled in the order in which they were accepted, none is
  -- lost, and none is handled twice; a goroutine that has ended has handled all of them.
  pub handled_in_order :
      (events : List (Event M)) (k : ℕ)
      → accepted_by k events (new_function_type M)
        ≡ finished_by k events (new_function_type M)
          ++ pending k (run limit size lifetime_ms events (new_function_type M))
  unfolding find_routine
  handled_in_order events k = run-pending k events (new_function_type M) new-AreNamed

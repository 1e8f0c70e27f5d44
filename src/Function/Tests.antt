-- ===== src/Function/Tests.antt =====
-- Runs of a function type of statefun/function_type.go.
use foliage_sdk.Common.{
  ℕ, ◌≤◌, true, false, Option, none, some, List, [], ◌∷◌, ◌≡◌, ◌++◌, refl, length,
}
use foliage_sdk.Common.Dict.{load, assign, delete}
use foliage_sdk.Common.Text.{Str, codes, str_eq}
use foliage_sdk.Graph.Docs.{Doc, absent, text, docs}
use foliage_sdk.Function.Config.{new_config, capacity}
use foliage_sdk.Function.Handlers.{
  Msg, Routine, Fun, collected, blocked, find_routine, update_routine, remove_routine, offer, spawn,
  send_msg, receive_next, end_message, end_routine, choose, collect, new_function_type,
}
use foliage_sdk.Function.Runs.{
  Event, sends, receives, ends_message, ends, chooses, collects, step, run,
}
use foliage_sdk.Function.Pending.{pending}
use foliage_sdk.Function.Order.{accepted_by, finished_by, handled_in_order}
use foliage_sdk.Function.Slots.{routines_bounded}
use foliage_sdk.Function.Stuck.{send_msg-stuck}
use foliage_sdk.Function.Safe.{is_panic, send_msg-no_panic, collect-collected}
use foliage_sdk.Function.Reply.{
  Message, Processor, ReplyCall, with_reply, acknowledged, handle_msg, has_reply_after,
  reply_query_id, by_reply, signal-loses_reply,
}

abbrev message : ℕ → Msg ℕ
message n = record { content = n; has_refusal_callback = true }

-- The default configuration has a limit.
limited : capacity (new_config absent).max_id_handlers ≡ some 20
unfolding new_config capacity
limited = refl

abbrev one : Option ℕ
one = some 1

-- Two messages to "a"; the first is handled, the second is being handled.
abbrev two_messages : List (Event ℕ)
two_messages =
    sends 0 (codes "a") (message 1)
    ∷ sends 0 (codes "a") (message 2)
    ∷ receives 0
    ∷ ends_message 0
    ∷ receives 0
    ∷ []

handled_in_order_example :
    accepted_by one 64 1 0 two_messages (new_function_type ℕ)
    ≡ finished_by one 64 1 0 two_messages (new_function_type ℕ)
      ++ pending 0 (run one 64 1 two_messages (new_function_type ℕ))
handled_in_order_example = handled_in_order one 64 1 two_messages 0

-- The first message has been handled, and the second is handled.
two_accepted :
    accepted_by one 64 1 0 two_messages (new_function_type ℕ) ≡ message 1 ∷ message 2 ∷ []
unfolding accepted_by step send_msg offer spawn load assign str_eq find_routine update_routine
    receive_next end_message
two_accepted = refl

one_finished : finished_by one 64 1 0 two_messages (new_function_type ℕ) ≡ message 1 ∷ []
unfolding finished_by step send_msg offer spawn load assign str_eq find_routine update_routine
    receive_next end_message
one_finished = refl

routines_bounded_example : length (run one 64 1 two_messages (new_function_type ℕ)).routines ≤ 1
routines_bounded_example = routines_bounded 1 64 1 two_messages

-- One goroutine is the limit, and "a" has it.
abbrev at_one : Fun ℕ
at_one = run one 64 1 (sends 0 (codes "a") (message 1) ∷ []) (new_function_type ℕ)

-- The goroutine of "a" handles its message, and is collected and ends.
abbrev freed : List (Event ℕ)
freed = receives 0 ∷ ends_message 0 ∷ chooses 2000000 (codes "a") ∷ collects ∷ ends 0 ∷ []

slots_freed : (run one 64 1 freed (send_msg one 64 0 (codes "b") (message 2) at_one).1).slots ≡ 0
unfolding run step send_msg offer spawn load assign delete str_eq find_routine update_routine
    receive_next end_message choose collect end_routine remove_routine
slots_freed = refl

send_msg-stuck_example :
    send_msg one 64 1
      (codes "b")
      (message 3)
      (run one 64 1 freed (send_msg one 64 0 (codes "b") (message 2) at_one).1)
    ≡ (blocked, run one 64 1 freed (send_msg one 64 0 (codes "b") (message 2) at_one).1)
unfolding run step send_msg offer spawn load assign str_eq find_routine update_routine
send_msg-stuck_example =
    send_msg-stuck one 64 1 (codes "b") freed 0 1 (message 2) (message 3) at_one refl refl refl

send_msg-no_panic_example :
    is_panic
      (send_msg one 64 5
        (codes "a")
        (message 3)
        (run one 64 1 two_messages (new_function_type ℕ))).0
    ≡ false
send_msg-no_panic_example = send_msg-no_panic one 64 1 two_messages 5 (codes "a") (message 3) refl

abbrev chosen_a : List (Event ℕ)
chosen_a = sends 0 (codes "a") (message 1) ∷ chooses 2000000 (codes "a") ∷ []

a_chosen : (run one 64 1 chosen_a (new_function_type ℕ)).chosen ≡ some (codes "a")
unfolding run step send_msg offer spawn load assign str_eq find_routine update_routine choose
a_chosen = refl

collect-collected_example : (collect (run one 64 1 chosen_a (new_function_type ℕ))).0 ≡ collected
collect-collected_example = collect-collected one 64 1 chosen_a (codes "a") a_chosen

-- gc closes the channel of "a" while a message waits in it; the next message to "a" starts another
-- goroutine, and both handle a message of "a" at the same time, the later one first.
abbrev overlap : List (Event ℕ)
overlap =
    sends 0 (codes "a") (message 1)
    ∷ chooses 2000000 (codes "a")
    ∷ collects
    ∷ sends 0 (codes "a") (message 2)
    ∷ receives 1
    ∷ receives 0
    ∷ []

busy_ids : List (Routine ℕ) → List (Str × Option (Msg ℕ))
busy_ids [] = []
busy_ids (r ∷ rs) = (r.id, r.busy) ∷ busy_ids rs

overlapping :
    busy_ids (run none 64 1 overlap (new_function_type ℕ)).routines
    ≡ (codes "a", some (message 2)) ∷ (codes "a", some (message 1)) ∷ []
unfolding busy_ids run step send_msg offer spawn load assign delete str_eq find_routine
    update_routine receive_next end_message choose collect
overlapping = refl

-- A request, and then a signal of no caller.
abbrev a_request : Message Doc
a_request = record {
  caller_typename = codes "t";
  caller_id = codes "i";
  payload = none;
  options = none;
  has_request_callback = true;
  has_ack_callback = false;
}

abbrev a_signal : Message Doc
a_signal = record {
  caller_typename = [];
  caller_id = [];
  payload = none;
  options = none;
  has_request_callback = false;
  has_ack_callback = true;
}

abbrev reply_text : Processor Doc → List (ReplyCall Doc)
reply_text p = with_reply (text (codes "done")) ∷ []

signal-loses_reply_example :
    (reply_query_id
        (handle_msg docs reply_text absent a_signal
          (has_reply_after docs reply_text absent (a_request ∷ []) false)).0
      ≡ by_reply)
    × ((handle_msg docs reply_text absent a_signal
          (has_reply_after docs reply_text absent (a_request ∷ []) false)).1
        ≡ acknowledged ∷ [])
signal-loses_reply_example =
    signal-loses_reply docs reply_text absent a_request [] a_signal false refl refl

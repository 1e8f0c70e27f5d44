-- ===== src/Function/Handlers.antt =====
-- statefun/function_type.go: sendMsg, idHandlerRoutine and gc on the state of a function type. A call of
-- sendMsg, and the body of gc for one id, hold the id's mutex and are one step each; each receive of a
-- goroutine, the end of its handling of a message, and its own end are steps of their own.
use foliage_sdk.Common.{
  ℕ, suc, ◌+◌, ◌-◌, ◌*◌, Bool, true, false, ◌||◌, Option, none, some, List, [], ◌∷◌, ◌++◌, length,
  ltb, leb, ◌==◌, if◌then◌else◌,
}
use foliage_sdk.Common.Dict.{Dict, load, assign, delete}
use foliage_sdk.Common.Text.{Str, str_eq}

-- FunctionTypeMsg, with what is in it as `M`, and whether RefusalCallback is set.
pub record Msg (M : Type 0) : Type 0 where
  pub content : M
  pub has_refusal_callback : Bool

-- A goroutine of idHandlerRoutine, with its channel: the messages in the channel, the one that is
-- handled, and whether the channel is open.
pub record Routine (M : Type 0) : Type 0 where
  pub key : ℕ
  pub id : Str
  pub queue : List (Msg M)
  pub busy : Option (Msg M)
  pub is_open : Bool

-- FunctionType: `channels` names the routine of an id's channel, `slots` is the number of elements in
-- instancesControlChannel, `held` are the ids whose mutex was not given back, and `chosen` is the id
-- whose mutex gc is about to take.
pub record Fun (M : Type 0) : Type 0 where
  pub channels : Dict ℕ
  pub last_msg_time : Dict ℕ
  pub slots : ℕ
  pub routines : List (Routine M)
  pub held : List Str
  pub next_key : ℕ
  pub chosen : Option Str

-- NewFunctionType
abbrev pub new_function_type : (M : Type 0) → Fun M
new_function_type M = record {
  channels = [];
  last_msg_time = [];
  slots = 0;
  routines = [];
  held = [];
  next_key = 0;
  chosen = none;
}

-- How a call ends.
pub data Outcome : Type 0 where
  accepted : Outcome
  refused : Outcome
  collected : Outcome
  -- The call waits for a mutex that no one gives back.
  blocked : Outcome
  -- A nil callback is called, or a closed channel is written to or closed.
  panicked : Outcome

abbrev pub is_held : Str → List Str → Bool
is_held id [] = false
is_held id (h ∷ held) = str_eq h id || is_held id held

-- A slot is taken if there is a limit.
abbrev pub slots_after : Option ℕ → ℕ → ℕ
slots_after none n = n
slots_after (some cap) n = suc n

-- The send to instancesControlChannel would block.
abbrev pub at_limit : Option ℕ → ℕ → Bool
at_limit none n = false
at_limit (some cap) n = leb cap n

abbrev pub slots_before : Option ℕ → ℕ → ℕ
slots_before none n = n
slots_before (some cap) n = n - 1

-- The test of gc for one id, before it takes the mutex.
abbrev pub has_expired : ℕ → ℕ → Option ℕ → Bool
has_expired lifetime_ms now none = false
has_expired lifetime_ms now (some t) = ltb (t + lifetime_ms * 1000000) now

abbrev pub choose_if : Str → Bool → Option Str → Option Str
choose_if id true none = some id
choose_if id _ chosen = chosen

module _ {M : Type 0} where
  unfoldable pub find_routine : ℕ → List (Routine M) → Option (Routine M)
  find_routine k [] = none
  find_routine k (r ∷ rs) = if r.key == k then some r else find_routine k rs

  unfoldable pub update_routine : ℕ → (Routine M → Routine M) → List (Routine M) → List (Routine M)
  update_routine k g [] = []
  update_routine k g (r ∷ rs) = (if r.key == k then g r else r) ∷ update_routine k g rs

  unfoldable pub remove_routine : ℕ → List (Routine M) → List (Routine M)
  remove_routine k [] = []
  remove_routine k (r ∷ rs) = let rest = remove_routine k rs in if r.key == k then rs else r ∷ rest

  abbrev pub put_in : Msg M → Routine M → Routine M
  put_in m r = record r { queue = r.queue ++ (m ∷ []) }

  -- The message is put into the channel of a routine if there is room.
  abbrev pub offer_to : ℕ → Msg M → ℕ → Option (Routine M) → Fun M → Outcome × Fun M
  offer_to size m k none f = (panicked, f)
  offer_to size m k (some r) f =
      if r.is_open
      then (if ltb (length r.queue) size
          then (accepted, record f { routines = update_routine k (put_in m) f.routines })
          else (refused, f))
      else (panicked, f)

  unfoldable pub offer : ℕ → ℕ → Str → Msg M → ℕ → Fun M → Outcome × Fun M
  offer size now id m k f =
      offer_to size m k (find_routine k f.routines)
        (record f { last_msg_time = assign id now f.last_msg_time })

  abbrev pub new_routine : ℕ → Str → Routine M
  new_routine k id = record { key = k; id = id; queue = []; busy = none; is_open = true }

  -- A goroutine is started for the id, with a channel of its own.
  unfoldable pub spawn : Option ℕ → Str → Fun M → Fun M
  spawn limit id f = record f {
    channels = assign id f.next_key f.channels;
    slots = slots_after limit f.slots;
    routines = new_routine f.next_key id ∷ f.routines;
    next_key = suc f.next_key;
  }

  -- The return at the limit: the callback is called without a test, and the mutex is not unlocked.
  abbrev pub refuse_at_limit : Str → Msg M → Fun M → Outcome × Fun M
  refuse_at_limit id m f =
      (if m.has_refusal_callback then refused else panicked, record f { held = id ∷ f.held })

  abbrev pub send_to : Option ℕ → ℕ → ℕ → Str → Msg M → Option ℕ → Fun M → Outcome × Fun M
  send_to limit size now id m (some k) f = offer size now id m k f
  send_to limit size now id m none f =
      if at_limit limit f.slots
      then refuse_at_limit id m f
      else offer size now id m f.next_key (spawn limit id f)

  -- sendMsg, with the limit, the size of a channel and the time
  unfoldable pub send_msg : Option ℕ → ℕ → ℕ → Str → Msg M → Fun M → Outcome × Fun M
  send_msg limit size now id m f =
      if is_held id f.held then (blocked, f) else send_to limit size now id m (load id f.channels) f

  -- A goroutine receives the next message of its channel.
  abbrev pub next_message : Routine M → Option (Msg M) → List (Msg M) → Routine M
  next_message r none (m ∷ ms) = record r { busy = some m; queue = ms }
  next_message r _ _ = r

  unfoldable pub receive_next : Routine M → Routine M
  receive_next r = next_message r r.busy r.queue

  -- handleMsgForID returns.
  abbrev pub handled_of : Routine M → Option (Msg M) → Routine M
  handled_of r none = r
  handled_of r (some m) = record r { busy = none }

  unfoldable pub end_message : Routine M → Routine M
  end_message r = handled_of r r.busy

  abbrev pub is_done : Bool → Option (Msg M) → List (Msg M) → Bool
  is_done false none [] = true
  is_done _ _ _ = false

  abbrev pub end_if_done : Option ℕ → ℕ → Option (Routine M) → Fun M → Fun M
  end_if_done limit k none f = f
  end_if_done limit k (some r) f =
      if is_done r.is_open r.busy r.queue
      then record f { routines = remove_routine k f.routines; slots = slots_before limit f.slots }
      else f

  -- A goroutine whose channel is closed and empty ends, and gives its slot back.
  unfoldable pub end_routine : Option ℕ → ℕ → Fun M → Fun M
  end_routine limit k f = end_if_done limit k (find_routine k f.routines) f

  unfoldable pub choose : ℕ → ℕ → Str → Fun M → Fun M
  choose lifetime_ms now id f = record f {
    chosen = choose_if id (has_expired lifetime_ms now (load id f.last_msg_time)) f.chosen;
  }

  abbrev pub close : Routine M → Routine M
  close r = record r { is_open = false }

  abbrev pub forget : Str → ℕ → Fun M → Fun M
  forget id k f = record f {
    channels = delete id f.channels;
    last_msg_time = delete id f.last_msg_time;
    routines = update_routine k close f.routines;
    chosen = none;
  }

  abbrev pub close_routine : Str → ℕ → Option (Routine M) → Fun M → Outcome × Fun M
  close_routine id k none f = (panicked, f)
  close_routine id k (some r) f = if r.is_open then (collected, forget id k f) else (panicked, f)

  abbrev pub collect_channel : Str → Option ℕ → Fun M → Outcome × Fun M
  collect_channel id none f = (panicked, f)
  collect_channel id (some k) f = close_routine id k (find_routine k f.routines) f

  abbrev pub collect_id : Option Str → Fun M → Outcome × Fun M
  collect_id none f = (refused, f)
  collect_id (some id) f =
      if is_held id f.held then (blocked, f) else collect_channel id (load id f.channels) f

  -- The body of gc's loop under the mutex of the id that was chosen.
  unfoldable pub collect : Fun M → Outcome × Fun M
  collect f = collect_id f.chosen f

-- ===== src/Function/Reply.antt =====
-- statefun/function_type.go: handleMsgForID. What a goroutine keeps between two messages, and how the
-- reply to a request comes about.
use foliage_sdk.Common.{
  Bool, true, false, ◌||◌, Option, none, some, List, [], ◌∷◌, ◌++◌, ◌≡◌, refl, ap, if◌then◌else◌,
  arith,
}
use foliage_sdk.Common.Text.{Str, codes}
use foliage_sdk.Graph.Context.{JsonLib}

-- The calls that a handler makes on Reply.
pub data ReplyCall (J : Type 0) : Type 0 where
  cancel_default : ReplyCall J
  with_reply : J → ReplyCall J

-- FunctionTypeMsg
pub record Message (J : Type 0) : Type 0 where
  pub caller_typename : Str
  pub caller_id : Str
  pub payload : Option J
  pub options : Option J
  pub has_request_callback : Bool
  pub has_ack_callback : Bool

-- The fields of StatefunContextProcessor that are assigned for every message; `has_reply` is whether
-- Reply is set, which only a request does.
pub record Processor (J : Type 0) : Type 0 where
  pub has_reply : Bool
  pub payload : J
  pub options : J
  pub caller_typename : Str
  pub caller_id : Str

-- The callbacks that are called.
pub data Effect (J : Type 0) : Type 0 where
  acknowledged : Effect J
  replied_with : J → Effect J
  -- The wait for a reply times out, and a value is set in a document that is nil.
  no_reply_in_time : Effect J

module _ {J : Type 0} (json : JsonLib J) where
  -- The channel for one reply, after the calls.
  unfoldable pub after_calls : List (ReplyCall J) → Option J → Option J
  after_calls [] channel = channel
  after_calls (cancel_default ∷ calls) channel = after_calls calls none
  after_calls (with_reply d ∷ calls) channel = after_calls calls (some d)

  abbrev payload_or_empty : Option J → J
  payload_or_empty none = json.new_object
  payload_or_empty (some d) = d

  abbrev merged_options : J → Option J → J
  merged_options own none = own
  merged_options own (some o) = json.deep_merge own o

  -- The processor for a message; `own` are the options of the function type.
  unfoldable pub prepare : J → Message J → Bool → Processor J
  prepare own msg had_reply = record {
    has_reply = msg.has_request_callback || had_reply;
    payload = payload_or_empty msg.payload;
    options = merged_options own msg.options;
    caller_typename = msg.caller_typename;
    caller_id = msg.caller_id;
  }

  abbrev reply_of : Option J → List (Effect J)
  reply_of none = no_reply_in_time ∷ []
  reply_of (some d) = replied_with d ∷ []

  -- handleMsgForID: the new processor, and the callbacks in their order. `logic` is the calls of the
  -- handler on Reply.
  unfoldable pub handle_msg :
      (Processor J → List (ReplyCall J)) → J → Message J → Bool → Processor J × List (Effect J)
  handle_msg logic own msg had_reply =
      let p = prepare own msg had_reply in
      (
        p,
        (if msg.has_ack_callback then acknowledged ∷ [] else [])
            ++ (if msg.has_request_callback
                then reply_of (after_calls (logic p) (some json.new_object))
                else []),
      )

  -- Whether Reply is set after the messages that a goroutine has handled.
  unfoldable pub has_reply_after :
      (Processor J → List (ReplyCall J)) → J → List (Message J) → Bool → Bool
  has_reply_after logic own [] had_reply = had_reply
  has_reply_after logic own (msg ∷ msgs) had_reply =
      has_reply_after logic own msgs ((handle_msg logic own msg had_reply).0).has_reply

  -- The last call on Reply decides.
  pub after_calls-last :
      (calls : List (ReplyCall J)) (d : J) (channel : Option J)
      → (after_calls (calls ++ (with_reply d ∷ [])) channel ≡ some d)
        × (after_calls (calls ++ (cancel_default ∷ [])) channel ≡ none)
  unfolding after_calls
  after_calls-last [] d channel = (refl, refl)
  after_calls-last (cancel_default ∷ calls) d channel = after_calls-last calls d none
  after_calls-last (with_reply c ∷ calls) d channel = after_calls-last calls d (some c)

abbrev or_unique : Str → Option Str → Str
or_unique unique_id none = unique_id
or_unique unique_id (some s) = s

-- GetQueryID of embedded/graph/common, with what GetUniqueStrID answers.
unfoldable get_query_id : {J : Type 0} → JsonLib J → Str → Processor J → Str
get_query_id json unique_id p =
    or_unique unique_id (json.as_string (json.get_by_path p.payload (codes "query_id")))

-- Where ReplyQueryID of embedded/graph/common sends the result of a query.
pub data Target : Type 0 where
  by_reply : Target
  by_signal : Target
  by_nothing : Target

abbrev is_empty : Str → Bool
is_empty [] = true
is_empty (c ∷ s) = false

unfoldable pub reply_query_id : {J : Type 0} → Processor J → Target
reply_query_id p =
    if p.has_reply
    then by_reply
    else if is_empty p.caller_typename || is_empty p.caller_id
    then by_signal
    else by_nothing

module _ {J : Type 0} (json : JsonLib J) (logic : Processor J → List (ReplyCall J)) (own : J) where
  true_or : (a b : Bool) → b ≡ true → (a || b) ≡ true
  true_or a b h = ground arith

  kept_after :
      (msgs : List (Message J)) (b : Bool) → b ≡ true → has_reply_after json logic own msgs b ≡ true
  unfolding has_reply_after handle_msg prepare
  kept_after [] b h = h
  kept_after (msg ∷ msgs) b h = kept_after msgs _ (true_or msg.has_request_callback b h)

  request_sets :
      (first : Message J) (msgs : List (Message J)) (b : Bool)
      → first.has_request_callback ≡ true
      → has_reply_after json logic own (first ∷ msgs) b ≡ true
  unfolding has_reply_after handle_msg prepare
  request_sets first msgs b h = kept_after msgs _ (ap (λ r. r || b) h)

  -- A goroutine that has handled a request, and then receives a signal: the result of a query goes to
  -- the Reply of the request, though that has been answered, and not to the topic of the results, even
  -- if the signal has no caller; and no callback of the signal's message carries it.
  pub signal-loses_reply :
      (first : Message J) (msgs : List (Message J)) (last : Message J) (b : Bool)
      → first.has_request_callback ≡ true
      → last.has_request_callback ≡ false
      → (reply_query_id
            (handle_msg json logic own last (has_reply_after json logic own (first ∷ msgs) b)).0
          ≡ by_reply)
        × ((handle_msg json logic own last (has_reply_after json logic own (first ∷ msgs) b)).1
            ≡ (if last.has_ack_callback then acknowledged ∷ [] else []))
  unfolding reply_query_id handle_msg prepare
  signal-loses_reply first msgs last b h k = (
    found (has_reply_after json logic own (first ∷ msgs) b) (request_sets first msgs b h),
    acks_only last.has_ack_callback last.has_request_callback _ k,
  )
    where
      found : (had : Bool) → had ≡ true → reply_query_id (prepare json own last had) ≡ by_reply
      found true e = set last.has_request_callback
        where
          set :
              (c : Bool)
              → reply_query_id (record (prepare json own last true) { has_reply = c || true })
                ≡ by_reply
          set true = refl
          set false = refl
      found false e = ground (arith, e)

      acks_only :
          (a c : Bool) (replies : List (Effect J))
          → c ≡ false
          → (if a then acknowledged ∷ [] else []) ++ (if c then replies else [])
            ≡ (if a then acknowledged ∷ [] else [])
      acks_only true false replies e = refl
      acks_only false false replies e = refl
      acks_only a true replies e = ground (arith, e)

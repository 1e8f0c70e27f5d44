-- ===== src/Graph/OpStack.antt =====
-- The stack of operations of embedded/graph/crud/ll_crud.go, which a reply carries on demand, and the
-- replies of the handlers.
pub mod Laws
pub mod Results
use foliage_sdk.Common.{Bool, true, false, Option, none, some, List, [], ◌∷◌, ◌++◌, if◌then◌else◌}
use foliage_sdk.Common.Text.{Str, codes}
use foliage_sdk.Graph.Context.{Context, Action, pure, ◌>>=◌}

-- The stack, or a nil pointer.
abbrev pub OpStack : Type 0 → Type 0
OpStack J = Option (List J)

-- The calls of easyjson for arrays, and a request that passes on the options of its caller.
pub record StackCalls (J W : Type 0) : Type 0 where
  pub of_array : List J → J
  pub elements : J → Option (List J)
  pub request_with : Option J → W → Str → Str → J → Option J × W

-- What a handler puts into its result: a status, if it sets one, a text and the stack.
pub record Answer (J : Type 0) : Type 0 where
  pub status : Option Str
  pub content : Str
  pub stack : OpStack J

abbrev pub succeeded : {J : Type 0} → OpStack J → Answer J
succeeded stack = record { status = some (codes "ok"); content = []; stack = stack }

abbrev pub failed : {J : Type 0} → Str → OpStack J → Answer J
failed error_string stack = record {
  status = some (codes "failed");
  content = error_string;
  stack = stack;
}

abbrev or_false : Option Bool → Bool
or_false none = false
or_false (some b) = b

-- mergeOpStack, for the recipient.
unfoldable pub merge_op_stack : {J : Type 0} → OpStack J → OpStack J → OpStack J
merge_op_stack (some ops) (some donor) = some (ops ++ donor)
merge_op_stack recipient _ = recipient

-- The slice that opStack.AddToArray leaves.
abbrev pub add_op : {J : Type 0} → OpStack J → J → OpStack J
add_op none op = none
add_op (some ops) op = some (ops ++ op ∷ [])

module _ {J W : Type 0} (ctx : Context J W) where
  -- getOpStackFromOptions
  unfoldable pub get_op_stack_from_options : Option J → OpStack J
  get_op_stack_from_options none = none
  get_op_stack_from_options (some options) =
      if or_false (ctx.json.as_bool (ctx.json.get_by_path options (codes "return_op_stack")))
      then some []
      else none

  abbrev put_text : Str → Str → J → J
  put_text path s j = ctx.json.set_by_path j path (ctx.json.of_string s)

  abbrev put_body : Str → Option J → J → J
  put_body path none j = j
  put_body path (some body) j = ctx.json.set_by_path j path body

  abbrev put_bodies : Option J → Option J → J → J
  put_bodies old_body new_body j =
      put_body (codes "new_body") new_body (put_body (codes "old_body") old_body j)

  unfoldable pub vertex_op : Str → Str → Option J → Option J → J
  vertex_op op_name vertex_id old_body new_body =
      put_bodies old_body new_body
        (put_text (codes "id") vertex_id (put_text (codes "op") op_name ctx.json.new_object))

  -- addVertexOpToOpStack
  unfoldable pub add_vertex_op : OpStack J → Str → Str → Option J → Option J → OpStack J
  add_vertex_op stack op_name vertex_id old_body new_body =
      add_op stack (vertex_op op_name vertex_id old_body new_body)

  unfoldable pub link_op : Str → Str → Str → Str → Option J → Option J → J
  link_op op_name from to lt old_body new_body = put_bodies old_body new_body (
      put_text (codes "type") lt (
        put_text (codes "to_id") to
          (put_text (codes "from_id") from (put_text (codes "op") op_name ctx.json.new_object))))

  -- addLinkOpToOpStack
  unfoldable pub add_link_op : OpStack J → Str → Str → Str → Str → Option J → Option J → OpStack J
  add_link_op stack op_name from to lt old_body new_body =
      add_op stack (link_op op_name from to lt old_body new_body)

module _ {J W : Type 0} (ctx : Context J W) (calls : StackCalls J W) where
  -- addOpStackToResult
  unfoldable pub add_op_stack_to_result : J → OpStack J → J
  add_op_stack_to_result result none = result
  add_op_stack_to_result result (some ops) =
      if ctx.json.is_object result
      then ctx.json.set_by_path result (codes "op_stack") (calls.of_array ops)
      else result

  abbrev put_status : Option Str → J → J
  put_status none result = result
  put_status (some s) result = put_text ctx (codes "status") s result

  -- The result that is passed to ReplyQueryID.
  unfoldable pub result_of : Answer J → J
  result_of a =
      add_op_stack_to_result
        (put_text ctx (codes "result") a.content (put_status a.status ctx.json.new_object)) a.stack

  -- Merges the stack of a reply, if there is a reply.
  unfoldable pub merge_reply : OpStack J → Option J → OpStack J
  merge_reply stack none = stack
  merge_reply stack (some res) =
      merge_op_stack stack (calls.elements (ctx.json.get_by_path res (codes "op_stack")))

  -- A loop whose rounds each merge the stack of a reply.
  unfoldable pub merge_each :
      {A : Type 0} → List A → (A → Action J W (Option J)) → OpStack J → Action J W (OpStack J)
  merge_each [] f stack = pure stack
  merge_each (a ∷ rest) f stack = f a >>= (λ res. merge_each rest f (merge_reply stack res))

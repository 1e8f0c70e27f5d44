-- ===== src/Graph/Vertex.antt =====
-- LLAPIVertexCreate, LLAPIVertexUpdate and LLAPIVertexDelete of embedded/graph/crud/ll_crud.go.
pub mod Laws
use foliage_sdk.Common.{Option, none, some, [], ◌++◌, if◌then◌else◌}
use foliage_sdk.Common.Text.{Str, codes, str_eq}
use foliage_sdk.Graph.Keys.{out_body, name_gen, in_link, last_two_of}
use foliage_sdk.Graph.Context.{
  Context, document, Action, pure, raise, reads, changes, ◌>>=◌, ◌>>◌, send_by, set, delete,
  no_traversal,
}
use foliage_sdk.Graph.OpStack.{
  OpStack, StackCalls, Answer, succeeded, failed, get_op_stack_from_options, add_vertex_op,
  merge_reply, merge_each,
}

-- The options of the call, the name and the id of the function that is called, and the query's id.
module _ {J W : Type 0} (ctx : Context J W) (calls : StackCalls J W) (options : Option J)
    (typename query_id self : Str) where
  abbrev put_text : Str → Str → J → J
  put_text path s j = ctx.json.set_by_path j path (ctx.json.of_string s)

  abbrev or_text : Str → Option Str → Str
  or_text d none = d
  or_text d (some s) = s

  unfoldable pub delete_existing_vertex : Action J W (Option J)
  delete_existing_vertex =
      send_by (calls.request_with options) (codes "functions.graph.api.vertex.delete") self
        (put_text (codes "query_id") query_id ctx.json.new_object)

  -- LLAPIVertexCreate
  unfoldable pub vertex_create : J → Action J W (Answer J)
  vertex_create payload = do
    let body = ctx.json.get_by_path payload (codes "body")
    let object_body = if ctx.json.is_object body then body else ctx.json.new_object
    there ← reads (λ w. ctx.has_value w self)
    res ← if there then delete_existing_vertex else pure none
    set ctx self (document object_body)
    pure (
        succeeded (
          add_vertex_op ctx (merge_reply ctx calls (get_op_stack_from_options ctx options) res)
            typename self none (some object_body)))

  -- The new body of a vertex; the mode is "merge" if it is not "replace".
  abbrev pub updated : J → J → J → J
  updated payload old body =
      if str_eq
        (or_text (codes "merge") (ctx.json.as_string (ctx.json.get_by_path payload (codes "mode"))))
        (codes "replace")
      then body
      else ctx.json.deep_merge old body

  abbrev pub missing_body : Str
  missing_body = codes "ERROR LLAPIVertexUpdate " ++ (self ++ codes ": body:json is missing;")

  -- LLAPIVertexUpdate; an operation is added also when nothing is updated.
  unfoldable pub vertex_update : J → Action J W (Answer J)
  vertex_update payload = do
    let body = ctx.json.get_by_path payload (codes "body")
    let stack = get_op_stack_from_options ctx options
    old_body ← reads ctx.get_object_context
    if ctx.json.is_object body
        then (changes
              (λ w. ctx.set_object_context w (updated payload (ctx.get_object_context w) body))
            >> pure (
                succeeded (
                  add_vertex_op ctx stack typename self (some old_body)
                    (some (updated payload old_body body)))))
        else pure (
            failed missing_body
              (add_vertex_op ctx stack typename self (some old_body) (some old_body)))

  abbrev pub delete_link_payload : Str → Str → J
  delete_link_payload lt to = put_text (codes "link_type") lt (
      put_text (codes "descendant_uuid") to
        (put_text (codes "query_id") query_id ctx.json.new_object))

  -- A request for the deletion of a link of this vertex.
  unfoldable pub delete_link : Str → Str → Str → Action J W (Option J)
  delete_link from lt to =
      send_by (calls.request_with options) (codes "functions.graph.api.link.delete") from
        (delete_link_payload lt to)

  unfoldable pub delete_out_link : Option (Str × Str) → Action J W (Option J)
  delete_out_link none = raise no_traversal
  delete_out_link (some (lt, to)) = delete_link self lt to

  unfoldable pub delete_in_link : Option (Str × Str) → Action J W (Option J)
  delete_in_link none = raise no_traversal
  delete_in_link (some (from, lt)) = delete_link from lt self

  -- The body is read if there is a stack for it.
  abbrev pub body_for : OpStack J → W → Option J
  body_for none w = none
  body_for (some ops) w = some (ctx.get_object_context w)

  -- LLAPIVertexDelete; an index out of range ends it.
  unfoldable pub vertex_delete : Action J W (Answer J)
  vertex_delete = do
    out_keys ← reads (λ w. ctx.get_keys w (out_body self (codes ">")))
    out_stack ←
        merge_each ctx calls out_keys (λ key. delete_out_link (last_two_of key))
          (get_op_stack_from_options ctx options)
    in_keys ← reads (λ w. ctx.get_keys w (in_link self (codes ">")))
    stack ← merge_each ctx calls in_keys (λ key. delete_in_link (last_two_of key)) out_stack
    delete ctx (name_gen self)
    old_body ← reads (body_for stack)
    delete ctx self
    pure (succeeded (add_vertex_op ctx stack typename self old_body none))

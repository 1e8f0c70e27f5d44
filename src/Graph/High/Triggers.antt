-- ===== src/Graph/High/Triggers.antt =====
-- embedded/graph/crud/hl_crud.go: the triggers that the stack of operations of a reply fires.
pub mod Laws
pub mod Silence
use foliage_sdk.Common.{
  Bool, true, false, ◌&&◌, Option, none, some, List, [], ◌∷◌, ◌++◌, map, if◌then◌else◌,
}
use foliage_sdk.Common.Text.{Str, codes, str_eq}
use foliage_sdk.Graph.Context.{
  Context, Request, Result, ok, err, no_value, Action, reads, signal, ◌>>=◌, for_each,
}
use foliage_sdk.Graph.High.{Calls, text_at, text_or, put, put_text, request_stack}
use foliage_sdk.Graph.High.Links.{
  find_object_type, is_vertex_an_object, get_types_link_body, get_reference_link_type,
}

-- The index into llAPIVertexCUDNames, llAPILinkCUDNames and the names of the triggers.
pub data Cud : Type 0 where
  create update delete : Cud

abbrev pub vertex_name : Cud → Str
vertex_name create = codes "functions.graph.api.vertex.create"
vertex_name update = codes "functions.graph.api.vertex.update"
vertex_name delete = codes "functions.graph.api.vertex.delete"

abbrev pub link_name : Cud → Str
link_name create = codes "functions.graph.api.link.create"
link_name update = codes "functions.graph.api.link.update"
link_name delete = codes "functions.graph.api.link.delete"

abbrev pub elem_name : Cud → Str
elem_name create = codes "create"
elem_name update = codes "update"
elem_name delete = codes "delete"

abbrev pub is_some_text : Str → Bool
is_some_text [] = false
is_some_text (c ∷ s) = true

abbrev or_no_texts : Option (List Str) → List Str
or_no_texts none = []
or_no_texts (some ss) = ss

module _ {J W : Type 0} (ctx : Context J W) (calls : Calls J W) where
  abbrev triggers_or_none : Result J → J
  triggers_or_none (err e) = ctx.json.new_object
  triggers_or_none (ok body) =
      if ctx.json.path_exists body (codes "triggers")
      then ctx.json.get_by_path body (codes "triggers")
      else ctx.json.new_object

  abbrev as_result : Option J → Result J
  as_result none = err no_value
  as_result (some body) = ok body

  -- getObjectTypeTriggers
  unfoldable pub get_object_type_triggers : W → Str → J
  get_object_type_triggers w object_id =
      triggers_or_none (as_result (ctx.get_value_as_json w (find_object_type ctx w object_id)))

  -- getObjectsLinkTypeTriggers
  unfoldable pub get_objects_link_type_triggers : W → Str → Str → J
  get_objects_link_type_triggers w from to =
      triggers_or_none
        (get_types_link_body ctx w (find_object_type ctx w from) (find_object_type ctx w to))

  -- The functions that are listed for an operation.
  abbrev pub functions_of : J → Cud → List Str
  functions_of triggers k =
      or_no_texts (ctx.json.as_strings (ctx.json.get_by_path triggers (elem_name k)))

  -- Copies a body of an operation, if it is there.
  abbrev put_if_there : Str → J → J → J
  put_if_there path op j =
      if ctx.json.path_exists op path then put ctx path (ctx.json.get_by_path op path) j else j

  abbrev put_bodies : J → J → J
  put_bodies op j = put_if_there (codes "new_body") op (put_if_there (codes "old_body") op j)

  abbrev pub object_message : J → Str → Cud → Str → Request J
  object_message op id k f = record {
    op = f;
    id = id;
    payload =
        put ctx (codes "trigger.object." ++ elem_name k) (put_bodies op ctx.json.new_object)
          ctx.json.new_object;
  }

  abbrev pub link_message : J → Str → Str → Str → Cud → Str → Request J
  link_message op from to lt k f = record {
    op = f;
    id = from;
    payload =
        put ctx (codes "trigger.link." ++ elem_name k)
          (put_bodies op
            (put_text ctx (codes "type") lt (put_text ctx (codes "to") to ctx.json.new_object)))
          ctx.json.new_object;
  }

  -- executeObjectTriggers, for the bodies of an operation
  unfoldable pub execute_object_triggers : W → J → Str → Cud → List (Request J)
  execute_object_triggers w op id k =
      let triggers = get_object_type_triggers w id in
      if calls.is_non_empty_object triggers
      then map (λ (f : Str). object_message op id k f) (functions_of triggers k)
      else []

  abbrev is_reference : Str → Result Str → Bool
  is_reference lt (err e) = false
  is_reference lt (ok lt') = str_eq lt' lt

  -- executeLinkTriggers, for the bodies of an operation
  unfoldable pub execute_link_triggers : W → J → Str → Str → Str → Cud → List (Request J)
  execute_link_triggers w op from to lt k =
      let triggers = get_objects_link_type_triggers w from to in
      if calls.is_non_empty_object triggers
        && is_reference lt (get_reference_link_type ctx w from to)
      then map (λ (f : Str). link_message op from to lt k f) (functions_of triggers k)
      else []

  abbrev pub op_text : J → Str → Str
  op_text op path = text_or [] (text_at ctx op path)

  abbrev pub is_object_op : W → J → Cud → Bool
  is_object_op w op k =
      str_eq (op_text op (codes "op")) (vertex_name k)
      && (is_some_text (op_text op (codes "id"))
          && is_vertex_an_object ctx w (op_text op (codes "id")))

  abbrev pub is_link_op : W → J → Cud → Bool
  is_link_op w op k =
      str_eq (op_text op (codes "op")) (link_name k)
      && (is_some_text (op_text op (codes "type"))
          && (is_some_text (op_text op (codes "from_id"))
              && (is_some_text (op_text op (codes "to_id"))
                  && (is_vertex_an_object ctx w (op_text op (codes "from_id"))
                      && is_vertex_an_object ctx w (op_text op (codes "to_id"))))))

  -- The body of the loop over the three operations.
  unfoldable pub execute_op : W → J → Cud → List (Request J)
  execute_op w op k =
      (if is_object_op w op k then execute_object_triggers w op (op_text op (codes "id")) k else [])
      ++ (if is_link_op w op k
          then execute_link_triggers w op (op_text op (codes "from_id"))
              (op_text op (codes "to_id")) (op_text op (codes "type")) k
          else [])

  unfoldable pub execute_ops : W → List J → List (Request J)
  execute_ops w [] = []
  execute_ops w (op ∷ ops) =
      (if is_some_text (op_text op (codes "op"))
        then execute_op w op create ++ (execute_op w op update ++ execute_op w op delete)
        else [])
      ++ execute_ops w ops

  abbrev pub or_no_ops : Option (List J) → List J
  or_no_ops none = []
  or_no_ops (some ops) = ops

  -- executeTriggersFromLLOpStack: the messages that it signals, in their order.
  unfoldable pub triggers_from_op_stack : W → J → List (Request J)
  triggers_from_op_stack w op_stack = execute_ops w (or_no_ops (calls.elements op_stack))

  -- What the handlers do with the reply of a request.
  unfoldable pub fire : J → Action J W (Unit {0})
  fire result =
      reads (λ w.
        if ctx.json.path_exists result (codes "op_stack")
        then triggers_from_op_stack w (ctx.json.get_by_path result (codes "op_stack"))
        else [])
      >>= (λ messages. for_each messages signal)

  -- A request whose stack of operations fires triggers.
  unfoldable pub request_firing : Str → Str → J → Action J W (Unit {0})
  request_firing op id j = request_stack ctx calls op id j >>= fire

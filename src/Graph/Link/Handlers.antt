-- ===== src/Graph/Link/Handlers.antt =====
-- LLAPILinkCreate, LLAPILinkUpdate and LLAPILinkDelete of embedded/graph/crud/ll_crud.go: the handlers.
use foliage_sdk.Common.{Option, none, some, [], ◌∷◌, ◌++◌, if◌then◌else◌}
use foliage_sdk.Common.Int.{ℤ}
use foliage_sdk.Common.Text.{Str, codes}
use foliage_sdk.Graph.Context.{
  Context, nothing, Action, pure, reads, ◌>>=◌, ◌>>◌, send_by, set, delete,
}
use foliage_sdk.Graph.Link.{
  body_key, in_key, defined_name, text_at, put_text, or_unique, name_link, store_link, tell_end,
  delete_there, new_body, update_there,
}
use foliage_sdk.Graph.OpStack.{
  OpStack, StackCalls, Answer, succeeded, failed, get_op_stack_from_options, add_link_op,
  merge_reply,
}

-- An error for a field that is missing.
abbrev pub missing : {A : Type 0} → Str → Str → Option A → Str
missing start field (some a) = []
missing start field none = start ++ field ++ codes " is missing;"

-- The parameters of the parent, the options of the call, the name, the id and the caller's id of the
-- function that is called, and the query's id.
module _ {J W : Type 0} (ctx : Context J W) (print_name : ℤ → Str) (unique_str_id : W → Str)
    (before_separator : Str → Str) (calls : StackCalls J W) (options : Option J)
    (typename query_id self caller : Str) where
  abbrev text_of : J → Str → Option Str
  text_of j path = text_at ctx print_name unique_str_id before_separator j path

  abbrev pub op_stack : OpStack J
  op_stack = get_op_stack_from_options ctx options

  -- The names of a link, for the handler that deletes it.
  abbrev pub names_of_link : Str → Str → J
  names_of_link lt to =
      put_text ctx print_name unique_str_id before_separator (codes "link_type") lt (
        put_text ctx print_name unique_str_id before_separator (codes "descendant_uuid") to (
          put_text ctx print_name unique_str_id before_separator (codes "query_id") query_id
            ctx.json.new_object))

  abbrev pub body_of : J → Option J
  body_of payload =
      let body = ctx.json.get_by_path payload (codes "link_body") in
      if ctx.json.is_object body then some body else none

  -- What the end of a link does, with the key of the link at it. Without a caller no status is set.
  abbrev pub change_in_key : (Str → Action J W (Unit {0})) → Str → Str → Action J W (Answer J)
  change_in_key change [] lt = pure (record { status = none; content = []; stack = none })
  change_in_key change (c ∷ id) lt =
      change (in_key (before_separator self) (c ∷ id) lt) >> pure (succeeded none)

  unfoldable pub at_end : Str → (Str → Action J W (Unit {0})) → Option Str → Action J W (Answer J)
  at_end handler change (some lt) = change_in_key change caller lt
  at_end handler change none = pure (
      failed
        (handler
          ++ codes " "
          ++ before_separator self
          ++ codes ": in_link_type:string must be a non empty string")
        none)

  unfoldable pub delete_existing : Str → Str → Action J W (Option J)
  delete_existing lt to =
      send_by (calls.request_with options) (codes "functions.graph.api.link.delete") self
        (names_of_link lt to)

  -- What the start of a link does for LLAPILinkCreate; a failure carries no stack.
  unfoldable pub create_out : J → Option J → Action J W (Answer J)
  create_out payload none =
      pure (
        failed (codes "ERROR LLAPILinkCreate " ++ self ++ codes ": link_body:json is missing;")
          none)
  create_out payload (some link_body) = do
    lt ←
        or_unique ctx print_name unique_str_id before_separator
          (text_of payload (codes "link_type"))
    to ←
        or_unique ctx print_name unique_str_id before_separator
          (text_of payload (codes "descendant_uuid"))
    there ← reads (λ w. ctx.has_value w (body_key self lt to))
    res ← if there then delete_existing lt to else pure none
    body_and_name ←
        name_link ctx print_name unique_str_id before_separator self link_body
          (defined_name (text_of link_body (codes "name")))
    store_link ctx print_name unique_str_id before_separator self lt to body_and_name
    tell_end ctx print_name unique_str_id before_separator typename (codes "===create_in_link")
        query_id self lt to
    pure (
        succeeded (
          add_link_op ctx (merge_reply ctx calls op_stack res) typename self to lt none
            (some body_and_name.0)))

  -- LLAPILinkCreate
  unfoldable pub link_create : J → Action J W (Answer J)
  link_create payload =
      if ctx.json.path_exists payload (codes "in_link_type")
      then at_end (codes "LLAPILinkCreate") (λ key. set ctx key nothing)
          (defined_name (text_of payload (codes "in_link_type")))
      else create_out payload (body_of payload)

  unfoldable pub delete_found : Str → Str → Action J W (Answer J)
  delete_found lt to = do
    link_body ←
        delete_there ctx print_name unique_str_id before_separator typename query_id self lt to
    pure (succeeded (add_link_op ctx op_stack typename self to lt link_body none))

  -- What the start of a link does for LLAPILinkDelete.
  unfoldable pub delete_out : Option Str → Option Str → Action J W (Answer J)
  delete_out (some lt) (some to) = do
    there ← reads (λ w. ctx.has_value w (body_key self lt to))
    if there
        then delete_found lt to
        else pure (record {
          status = some (codes "ok");
          content = codes "Link does not exist";
          stack = op_stack;
        })
  delete_out lt to =
      let start = codes "ERROR LLAPILinkDelete " ++ self ++ codes ": " in
      pure (
        failed
          (missing start (codes "link_type:string") lt
            ++ missing start (codes "descendant_uuid:string") to)
          op_stack)

  -- LLAPILinkDelete
  unfoldable pub link_delete : J → Action J W (Answer J)
  link_delete payload =
      if ctx.json.path_exists payload (codes "in_link_type")
      then at_end (codes "LLAPILinkDelete") (delete ctx)
          (defined_name (text_of payload (codes "in_link_type")))
      else delete_out (text_of payload (codes "link_type"))
          (text_of payload (codes "descendant_uuid"))

  -- The link is created if it is not there.
  unfoldable pub update_found : Str → Str → J → J → Option J → Action J W (Answer J)
  update_found lt to payload link_body (some old) = do
    body ←
        update_there ctx print_name unique_str_id before_separator self lt to old
          (new_body ctx print_name unique_str_id before_separator payload old link_body)
    pure (succeeded (add_link_op ctx op_stack typename self to lt (some old) (some body)))
  update_found lt to payload link_body none = do
    res ←
        send_by (calls.request_with options) (codes "functions.graph.api.link.create") self
          (ctx.json.set_by_path (names_of_link lt to) (codes "link_body") link_body)
    pure (succeeded (merge_reply ctx calls op_stack res))

  unfoldable pub update_out : J → Option J → Option Str → Option Str → Action J W (Answer J)
  update_out payload (some link_body) (some lt) (some to) = do
    old ← reads (λ w. ctx.get_value_as_json w (body_key self lt to))
    update_found lt to payload link_body old
  update_out payload link_body lt to =
      let start = codes "ERROR LLAPILinkUpdate " ++ self ++ codes ": " in
      pure (
        failed
          (missing start (codes "link_body:json") link_body
            ++ missing start (codes "link_type:string") lt
            ++ missing start (codes "descendant_uuid:string") to)
          op_stack)

  -- LLAPILinkUpdate
  unfoldable pub link_update : J → Action J W (Answer J)
  link_update payload =
      update_out payload (body_of payload) (text_of payload (codes "link_type"))
        (text_of payload (codes "descendant_uuid"))

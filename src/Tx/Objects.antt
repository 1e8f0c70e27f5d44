-- ===== src/Tx/Objects.antt =====
-- embedded/graph/tx/statefun.go: the handlers of a transaction for objects and the links between them,
-- and the table of the handlers.
use foliage_sdk.Common.{not, Option, none, some, List, [], ◌∷◌, ◌++◌}
use foliage_sdk.Common.Text.{Str, codes}
use foliage_sdk.Graph.Context.{
  Context, Action, pure, raise, reads, ◌>>=◌, ◌>>◌, when, missing_links,
}
use foliage_sdk.Tx.Helper.{
  answer, generate_prefix, link_body_key, or_default, string_at, set_string, set_json, argument,
  request_checked, fetch_json, clone_object_from_main_graph_to_tx, clone_link_from_main_graph_to_tx,
  find_object_type, generate_deleted_meta,
}
use foliage_sdk.Tx.Types.{
  copy, copy_if_there, is_empty, body_only, to_and_body, create_type, update_type, delete_type,
  create_types_link, update_types_link, delete_types_link,
}

module _ {J W : Type 0} (ctx : Context J W) (tx_id : Str) (payload : J) where
  -- CreateObject
  unfoldable pub create_object : Action J W (Unit {0})
  create_object =
      let prefix = generate_prefix tx_id in
      let obj_id = or_default [] (string_at ctx payload (codes "id")) in
      request_checked ctx (codes "functions.cmdb.api.object.create") (prefix ++ obj_id) (
        copy ctx tx_id payload (codes "body") (
          copy ctx tx_id payload (codes "origin_type")
            (set_string ctx (codes "prefix") prefix ctx.json.new_object)))

  -- typeKeys[0]
  abbrev pub first_key : Str → List Str → Action J W Str
  first_key pattern [] = raise (missing_links pattern)
  first_key pattern (key ∷ keys) = pure key

  -- The object is created in the transaction with the body that it has in the main graph.
  unfoldable pub create_tx_object : Str → Action J W (Unit {0})
  create_tx_object object_id = do
    origin_body ← fetch_json ctx object_id
    let link_pattern = link_body_key object_id (codes "__type") (codes ">")
    type_keys ← reads (λ w. ctx.get_keys w link_pattern)
    type_key ← first_key link_pattern type_keys
    request_checked ctx (codes "functions.cmdb.tx.object.create") tx_id (
        set_json ctx (codes "body") origin_body (
          set_string ctx (codes "origin_type") type_key
            (set_string ctx (codes "id") object_id ctx.json.new_object)))

  abbrev pub set_mode : Option Str → J → J
  set_mode none j = j
  set_mode (some mode) j = set_string ctx (codes "mode") mode j

  -- UpdateObject
  unfoldable pub update_object : Action J W (Unit {0})
  update_object = do
    object_id ← argument ctx payload (codes "id")
    let prefix = generate_prefix tx_id
    let tx_object = prefix ++ object_id
    keys ← reads (λ w.
        ctx.get_keys w (link_body_key (prefix ++ codes "objects") (codes "__object") tx_object))
    when (is_empty keys) (create_tx_object object_id)
    request_checked ctx (codes "functions.cmdb.api.object.update") tx_object (
        set_mode (string_at ctx payload (codes "mode"))
          (copy ctx tx_id payload (codes "body") ctx.json.new_object))

  -- DeleteObject
  unfoldable pub delete_object : Action J W (Unit {0})
  delete_object = do
    object_id ← argument ctx payload (codes "id")
    meta ← reads (generate_deleted_meta ctx)
    request_checked ctx (codes "functions.cmdb.api.object.update")
        (generate_prefix tx_id ++ object_id) (body_only ctx tx_id payload meta)

  -- CreateObjectsLink
  unfoldable pub create_objects_link : Action J W (Unit {0})
  create_objects_link = do
    from ← argument ctx payload (codes "from")
    to ← argument ctx payload (codes "to")
    let prefix = generate_prefix tx_id
    request_checked ctx (codes "functions.cmdb.api.objects.link.create") (prefix ++ from) (
        copy ctx tx_id payload (codes "body")
          (set_string ctx (codes "to") (prefix ++ to) ctx.json.new_object))

  unfoldable pub clone_missing_object : Str → Str → Str → Action J W (Unit {0})
  clone_missing_object src dst origin_type = do
    there ← reads (λ w. ctx.has_value w dst)
    when (not there) (clone_object_from_main_graph_to_tx ctx tx_id src dst origin_type)

  unfoldable pub clone_objects_link : Str → Str → Str → Str → Str → Action J W (Unit {0})
  clone_objects_link from to from_type to_type lt = do
    let prefix = generate_prefix tx_id
    clone_missing_object from (prefix ++ from) from_type
    clone_missing_object to (prefix ++ to) to_type
    clone_link_from_main_graph_to_tx ctx from lt to (prefix ++ from) lt (prefix ++ to)

  -- UpdateObjectsLink
  unfoldable pub update_objects_link : Action J W (Unit {0})
  update_objects_link = do
    from ← argument ctx payload (codes "from")
    to ← argument ctx payload (codes "to")
    from_type ← reads (λ w. find_object_type ctx w from)
    to_type ← reads (λ w. find_object_type ctx w to)
    types_link_body ← fetch_json ctx (link_body_key from_type (codes "__type") to_type)
    let tx_from = generate_prefix tx_id ++ from
    let tx_to = generate_prefix tx_id ++ to
    let object_link_type = or_default [] (string_at ctx types_link_body (codes "link_type"))
    there ← reads (λ w. ctx.has_value w (link_body_key tx_from object_link_type tx_to))
    when (not there) (clone_objects_link from to from_type to_type object_link_type)
    request_checked ctx (codes "functions.cmdb.api.objects.link.update") tx_from (
        copy_if_there ctx tx_id payload (codes "body")
          (set_string ctx (codes "to") tx_to ctx.json.new_object))

  -- DeleteObjectsLink
  unfoldable pub delete_objects_link : Action J W (Unit {0})
  delete_objects_link = do
    from ← argument ctx payload (codes "from")
    to ← argument ctx payload (codes "to")
    meta ← reads (generate_deleted_meta ctx)
    let prefix = generate_prefix tx_id
    request_checked ctx (codes "functions.cmdb.api.objects.link.update") (prefix ++ from)
        (to_and_body ctx tx_id payload (prefix ++ to) meta)

-- The functions that RegisterAllFunctionTypes registers and that change a transaction.
pub data Handler : Type 0 where
  type_create type_update type_delete object_create object_update object_delete : Handler
  types_link_create types_link_update types_link_delete : Handler
  objects_link_create objects_link_update objects_link_delete : Handler

unfoldable pub run : {J W : Type 0} → Context J W → Str → J → Handler → Action J W (Unit {0})
run ctx tx payload type_create = create_type ctx tx payload
run ctx tx payload type_update = update_type ctx tx payload
run ctx tx payload type_delete = delete_type ctx tx payload
run ctx tx payload object_create = create_object ctx tx payload
run ctx tx payload object_update = update_object ctx tx payload
run ctx tx payload object_delete = delete_object ctx tx payload
run ctx tx payload types_link_create = create_types_link ctx tx payload
run ctx tx payload types_link_update = update_types_link ctx tx payload
run ctx tx payload types_link_delete = delete_types_link ctx tx payload
run ctx tx payload objects_link_create = create_objects_link ctx tx payload
run ctx tx payload objects_link_update = update_objects_link ctx tx payload
run ctx tx payload objects_link_delete = delete_objects_link ctx tx payload

-- A handler with its reply.
unfoldable pub handle : {J W : Type 0} → Context J W → Str → J → Handler → Action J W (Unit {0})
handle ctx tx payload h = answer ctx (run ctx tx payload h)

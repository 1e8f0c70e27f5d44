-- ===== src/Tx/Types.antt =====
-- embedded/graph/tx/statefun.go: the handlers of a transaction for types and the links between them.
pub mod Laws
use foliage_sdk.Common.{
  ℕ, Bool, true, false, not, Option, none, some, List, [], ◌∷◌, ◌++◌, if◌then◌else◌,
}
use foliage_sdk.Common.Text.{Str, codes, split, dot}
use foliage_sdk.Cache.Key.Laws.{last_token}
use foliage_sdk.Graph.Context.{
  Context, Action, pure, raise, reads, ◌>>=◌, ◌>>◌, or_raise, when, for_each, invalid_argument,
}
use foliage_sdk.Tx.Helper.{
  generate_prefix, link_body_key, or_default, string_at, set_string, set_json, argument,
  request_checked, fetch_json, clone_type_from_main_graph_to_tx, clone_link_from_main_graph_to_tx,
  find_type_objects, generate_deleted_meta,
}

abbrev pub is_empty : List Str → Bool
is_empty [] = true
is_empty (x ∷ xs) = false

module _ {J W : Type 0} (ctx : Context J W) (tx_id : Str) (payload : J) where
  -- Copies the value at a path of the payload, if it is there.
  abbrev pub copy_if_there : Str → J → J
  copy_if_there path j =
      if ctx.json.path_exists payload path
      then set_json ctx path (ctx.json.get_by_path payload path) j
      else j

  abbrev pub copy : Str → J → J
  copy path j = set_json ctx path (ctx.json.get_by_path payload path) j

  -- CreateType
  unfoldable pub create_type : Action J W (Unit {0})
  create_type =
      let prefix = generate_prefix tx_id in
      let type_id = or_default [] (string_at ctx payload (codes "id")) in
      request_checked ctx (codes "functions.cmdb.api.type.create") (prefix ++ type_id)
        (copy (codes "body") (set_string ctx (codes "prefix") prefix ctx.json.new_object))

  -- The type is created in the transaction with the body that it has in the main graph.
  unfoldable pub create_tx_type : Str → Action J W (Unit {0})
  create_tx_type type_id = do
    origin_body ← fetch_json ctx type_id
    request_checked ctx (codes "functions.cmdb.tx.type.create") tx_id (
        set_json ctx (codes "body") origin_body
          (set_string ctx (codes "id") type_id ctx.json.new_object))

  -- UpdateType
  unfoldable pub update_type : Action J W (Unit {0})
  update_type = do
    type_id ← argument ctx payload (codes "id")
    let prefix = generate_prefix tx_id
    let tx_type = prefix ++ type_id
    keys ←
        reads
          (λ w. ctx.get_keys w (link_body_key (prefix ++ codes "types") (codes "__type") tx_type))
    when (is_empty keys) (create_tx_type type_id)
    request_checked ctx (codes "functions.cmdb.api.type.update") tx_type
        (copy (codes "body") ctx.json.new_object)

  -- The update of an object or a type that marks it as deleted.
  abbrev pub body_only : J → J
  body_only meta = set_json ctx (codes "body") meta ctx.json.new_object

  abbrev pub to_and_body : Str → J → J
  to_and_body to meta =
      set_json ctx (codes "body") meta (set_string ctx (codes "to") to ctx.json.new_object)

  -- DeleteType
  unfoldable pub delete_type : Action J W (Unit {0})
  delete_type = do
    type_id ← argument ctx payload (codes "id")
    let tx_type = generate_prefix tx_id ++ type_id
    meta ← reads (generate_deleted_meta ctx)
    objects ← reads (λ w. find_type_objects ctx w tx_type)
    for_each objects
        (λ v. request_checked ctx (codes "functions.cmdb.api.object.update") v (body_only meta))
    request_checked ctx (codes "functions.cmdb.api.type.update") tx_type (body_only meta)

  -- CreateTypesLink
  unfoldable pub create_types_link : Action J W (Unit {0})
  create_types_link = do
    from ← argument ctx payload (codes "from")
    to ← argument ctx payload (codes "to")
    let prefix = generate_prefix tx_id
    request_checked ctx (codes "functions.cmdb.api.types.link.create") (prefix ++ from) (
        copy (codes "body") (
          copy (codes "object_link_type")
            (set_string ctx (codes "to") (prefix ++ to) ctx.json.new_object)))

  unfoldable pub clone_missing_type : Str → Str → Action J W (Unit {0})
  clone_missing_type src dst = do
    there ← reads (λ w. ctx.has_value w dst)
    when (not there) (clone_type_from_main_graph_to_tx ctx tx_id src dst)

  unfoldable pub clone_types_link : Str → Str → Action J W (Unit {0})
  clone_types_link from to = do
    let prefix = generate_prefix tx_id
    clone_missing_type from (prefix ++ from)
    clone_missing_type to (prefix ++ to)
    clone_link_from_main_graph_to_tx ctx from to to (prefix ++ from) (prefix ++ to) (prefix ++ to)

  -- UpdateTypesLink
  unfoldable pub update_types_link : Action J W (Unit {0})
  update_types_link = do
    from ← argument ctx payload (codes "from")
    to ← argument ctx payload (codes "to")
    let tx_from = generate_prefix tx_id ++ from
    let tx_to = generate_prefix tx_id ++ to
    there ← reads (λ w. ctx.has_value w (link_body_key tx_from (codes "__type") tx_to))
    when (not there) (clone_types_link from to)
    request_checked ctx (codes "functions.cmdb.api.types.link.update") tx_from (
        copy_if_there (codes "body") (
          copy_if_there (codes "object_link_type")
            (set_string ctx (codes "to") tx_to ctx.json.new_object)))

  -- The links of one type of an object are marked as deleted.
  unfoldable pub mark_object_links : Str → J → Str → Action J W (Unit {0})
  mark_object_links link_type meta object_id = do
    links ← reads (λ w. ctx.get_keys w (link_body_key object_id link_type (codes ">")))
    for_each links (λ v.
        request_checked ctx (codes "functions.cmdb.api.objects.link.update") object_id
          (to_and_body (last_token (split dot v)) meta))

  -- DeleteTypesLink
  unfoldable pub delete_types_link : Action J W (Unit {0})
  delete_types_link = do
    from ← argument ctx payload (codes "from")
    to ← argument ctx payload (codes "to")
    meta ← reads (generate_deleted_meta ctx)
    let tx_from = generate_prefix tx_id ++ from
    let tx_to = generate_prefix tx_id ++ to
    link_body ← fetch_json ctx (link_body_key tx_from (codes "__type") tx_to)
    link_type ← argument ctx link_body (codes "link_type")
    objects ← reads (λ w. find_type_objects ctx w tx_from)
    for_each objects (mark_object_links link_type meta)
    request_checked ctx (codes "functions.cmdb.api.types.link.update") tx_from
        (to_and_body tx_to meta)

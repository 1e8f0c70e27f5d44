-- ===== src/Tx/Helper.antt =====
-- embedded/graph/tx/helper.go: the requests that the transactions share.
use foliage_sdk.Common.{
  Bool, true, false, Option, none, some, List, [], ◌∷◌, ◌++◌, map, if◌then◌else◌,
}
use foliage_sdk.Common.Text.{Str, codes, str_eq, split, dot}
use foliage_sdk.Cache.Key.Laws.{last_token}
use foliage_sdk.Graph.Keys.{◌/◌, out_body}
use foliage_sdk.Graph.Context.{
  Context, Failure, Action, pure, raise, reads, ◌>>=◌, or_raise, send, State, Result, ok, err,
  invalid_argument, no_value, no_request, no_traversal, reply_failed,
}

-- generatePrefix
abbrev pub generate_prefix : Str → Str
generate_prefix tx_id = tx_id ++ codes "="

-- The key of the body of a link.
abbrev pub link_body_key : Str → Str → Str → Str
link_body_key from lt to = out_body from (lt / to)

-- AsStringDefault
abbrev pub or_default : Str → Option Str → Str
or_default d none = d
or_default d (some s) = s

abbrev pub first_token : List Str → Str
first_token [] = []
first_token (key ∷ keys) = last_token (split dot key)

module _ {J W : Type 0} (ctx : Context J W) where
  -- payload.GetByPath(path).AsString()
  abbrev pub string_at : J → Str → Option Str
  string_at j path = ctx.json.as_string (ctx.json.get_by_path j path)

  abbrev pub set_string : Str → Str → J → J
  set_string path s j = ctx.json.set_by_path j path (ctx.json.of_string s)

  abbrev pub set_json : Str → J → J → J
  set_json path v j = ctx.json.set_by_path j path v

  -- An argument that a handler asks for.
  abbrev pub argument : J → Str → Action J W Str
  argument payload path = or_raise invalid_argument (string_at payload path)

  -- checkRequestError
  unfoldable pub check_request_error : Option J → Action J W (Unit {0})
  check_request_error none = raise no_request
  check_request_error (some result) =
      if str_eq (or_default (codes "failed") (string_at result (codes "payload.status")))
        (codes "failed")
      then raise (
          reply_failed
            (or_default (codes "unknown error") (string_at result (codes "payload.result"))))
      else pure tt

  -- A request whose answer is checked.
  unfoldable pub request_checked : Str → Str → J → Action J W (Unit {0})
  request_checked op id payload = send ctx op id payload >>= check_request_error

  abbrev pub answered : Option J → Action J W (Unit {0})
  answered none = raise no_request
  answered (some result) = pure tt

  -- A request of which only the error is looked at.
  unfoldable pub request_sent : Str → Str → J → Action J W (Unit {0})
  request_sent op id payload = send ctx op id payload >>= answered

  -- ctx.GlobalCache.GetValueAsJSON(key)
  unfoldable pub fetch_json : Str → Action J W J
  fetch_json key = reads (λ w. ctx.get_value_as_json w key) >>= or_raise no_value

  -- createLowLevelLink
  unfoldable pub create_low_level_link : Str → Str → Str → Str → J → Action J W (Unit {0})
  create_low_level_link from to lt object_lt body =
      let link = set_json (codes "link_body") body (
        set_string (codes "link_type") lt
          (set_string (codes "descendant_uuid") to ctx.json.new_object)) in
      request_sent (codes "functions.graph.api.link.create") from (
        if str_eq object_lt []
        then link
        else set_string (codes "link_body.link_type") object_lt link)

  -- updateLowLevelLink
  unfoldable pub update_low_level_link : Str → Str → Str → J → Action J W (Unit {0})
  update_low_level_link from to lt body =
      request_sent (codes "functions.graph.api.link.update") from (
        set_json (codes "link_body") body (
          set_string (codes "link_type") lt
            (set_string (codes "descendant_uuid") to ctx.json.new_object)))

  -- deleteLowLevelLink
  unfoldable pub delete_low_level_link : Str → Str → Str → Action J W (Unit {0})
  delete_low_level_link from to link_type =
      request_sent (codes "functions.graph.api.link.delete") from (
        set_string (codes "link_type") link_type
          (set_string (codes "descendant_uuid") to ctx.json.new_object))

  -- createLowLevelObject
  unfoldable pub create_low_level_object : Str → J → Action J W (Unit {0})
  create_low_level_object id body =
      request_sent (codes "functions.graph.api.vertex.create") id
        (set_json (codes "body") body ctx.json.new_object)

  -- updateLowLevelObject
  unfoldable pub update_low_level_object : Str → Str → J → Action J W (Unit {0})
  update_low_level_object mode id body =
      request_sent (codes "functions.graph.api.vertex.update") id
        (set_string (codes "mode") mode (set_json (codes "body") body ctx.json.new_object))

  -- deleteLowLevelObject
  unfoldable pub delete_low_level_object : Str → Action J W (Unit {0})
  delete_low_level_object id =
      request_sent (codes "functions.graph.api.vertex.delete") id ctx.json.new_object

  -- cloneTypeFromMainGraphToTx
  unfoldable pub clone_type_from_main_graph_to_tx : Str → Str → Str → Action J W (Unit {0})
  clone_type_from_main_graph_to_tx tx_id src dst = do
    origin_body ← fetch_json src
    request_sent (codes "functions.cmdb.tx.type.create") tx_id
        (set_json (codes "body") origin_body (set_string (codes "id") dst ctx.json.new_object))

  -- cloneObjectFromMainGraphToTx
  unfoldable pub clone_object_from_main_graph_to_tx : Str → Str → Str → Str → Action J W (Unit {0})
  clone_object_from_main_graph_to_tx tx_id src dst origin_type = do
    origin_body ← fetch_json src
    request_sent (codes "functions.cmdb.tx.object.create") tx_id (
        set_string (codes "origin_type") origin_type
          (set_json (codes "body") origin_body (set_string (codes "id") dst ctx.json.new_object)))

  -- cloneLinkFromMainGraphToTx
  unfoldable pub clone_link_from_main_graph_to_tx :
      Str → Str → Str → Str → Str → Str → Action J W (Unit {0})
  clone_link_from_main_graph_to_tx origin_from origin_lt origin_to tx_from tx_lt tx_to = do
    origin_body ← fetch_json (link_body_key origin_from origin_lt origin_to)
    create_low_level_link tx_from tx_to tx_lt [] origin_body

  -- findObjectType
  unfoldable pub find_object_type : W → Str → Str
  find_object_type w object_id =
      first_token (ctx.get_keys w (link_body_key object_id (codes "__type") (codes ">")))

  -- findTypeObjects
  unfoldable pub find_type_objects : W → Str → List Str
  find_type_objects w type_id =
      map (λ (key : Str). last_token (split dot key))
        (ctx.get_keys w (link_body_key type_id (codes "__object") (codes ">")))

  -- generateDeletedMeta
  unfoldable pub generate_deleted_meta : W → J
  generate_deleted_meta w =
      set_json (codes "__meta")
        (set_json (codes "time") (ctx.json.of_number (ctx.now w))
          (set_string (codes "status") (codes "deleted") ctx.json.new_object))
        ctx.json.new_object

  -- A panic is no answer.
  abbrev pub is_answered : Failure → Bool
  is_answered no_traversal = false
  is_answered _ = true

  abbrev pub answer_of : Result (Unit {0}) → State J W → Result (Unit {0}) × State J W
  answer_of (err e) s = (
    err e,
    record s { world = if is_answered e then ctx.object_mutex_unlock s.world else s.world },
  )
  answer_of (ok u) s = (ok tt, s)

  -- What a handler answers; a failure unlocks the object's mutex first, by replyTxError.
  unfoldable pub answer : Action J W (Unit {0}) → Action J W (Unit {0})
  answer handler s = answer_of (handler s).0 (handler s).1

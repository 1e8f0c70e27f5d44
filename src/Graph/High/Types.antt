-- ===== src/Graph/High/Types.antt =====
-- embedded/graph/crud/hl_crud.go: CreateType, UpdateType, DeleteType, and the handlers for the links
-- between types.
pub mod Laws
use foliage_sdk.Common.{
  Bool, true, false, not, ◌&&◌, Option, none, some, List, [], ◌∷◌, ◌++◌, if◌then◌else◌,
}
use foliage_sdk.Common.Text.{Str, codes}
use foliage_sdk.Graph.Keys.{out_body, ◌/◌}
use foliage_sdk.Graph.Context.{
  Context, Result, ok, err, Action, pure, raise, reads, ◌>>=◌, ◌>>◌, when, for_each, undefined_to,
  nothing_to_update,
}
use foliage_sdk.Graph.High.{
  Calls, Done, replied, unanswered, text_at, text_or, put, put_text, link_to, put_type_tag,
  request_checked, request_sent,
}
use foliage_sdk.Graph.High.Links.{body_key, targets, find_type_objects, get_types_link_body}

abbrev pub is_empty : Str → Bool
is_empty [] = true
is_empty (c ∷ s) = false

module _ {J W : Type 0} (ctx : Context J W) (self : Str) (payload : J) where
  -- CreateType
  unfoldable pub create_type : Action J W Done
  create_type =
      let prefix = text_or [] (text_at ctx payload (codes "prefix")) in
      reads (λ w. ctx.has_value w (body_key (prefix ++ codes "types") (codes "__type") self))
      >>= (λ there.
          if there
          then pure replied
          else request_sent ctx (codes "functions.graph.api.vertex.create") self payload >>= (λ _.
            request_sent ctx (codes "functions.graph.api.link.create") (prefix ++ codes "types")
              (put_type_tag ctx self (link_to ctx self (codes "__type")))
            >>= (λ _. pure replied)))

  -- UpdateType
  unfoldable pub update_type : Action J W Done
  update_type =
      request_checked ctx (codes "functions.graph.api.vertex.update") self payload
      >>= (λ _. pure replied)

  -- DeleteType
  unfoldable pub delete_type : Action J W Done
  delete_type = pure replied

  abbrev pub types_link : Str → Str → J
  types_link lt to =
      put_type_tag ctx to
        (put_text ctx (codes "link_body.link_type") lt (link_to ctx to (codes "__type")))

  abbrev pub create_types_link_of : Option Str → Option Str → Action J W Done
  create_types_link_of none _ = pure unanswered
  create_types_link_of (some lt) none = pure unanswered
  create_types_link_of (some lt) (some to) =
      reads (λ w. ctx.has_value w (body_key self (codes "__type") to)) >>= (λ there.
        if there
        then pure replied
        else request_checked ctx (codes "functions.graph.api.link.create") self (types_link lt to)
          >>= (λ _. pure replied))

  -- CreateTypesLink
  unfoldable pub create_types_link : Action J W Done
  create_types_link =
      create_types_link_of (text_at ctx payload (codes "object_link_type"))
        (text_at ctx payload (codes "to"))

  -- The update of the link of an object that a key names.
  abbrev pub renamed_link : Str → Str → J
  renamed_link lt to = put ctx (codes "link_body") ctx.json.new_object (link_to ctx to lt)

  abbrev pub rename_link : Str → Str → Str → Action J W (Unit {0})
  rename_link object_id lt to =
      request_checked ctx (codes "functions.graph.api.link.update") object_id (renamed_link lt to)
      >>= (λ _. pure tt)

  -- The links of an object that have the old type.
  abbrev pub rename_object : Str → Str → Str → Action J W (Unit {0})
  rename_object old lt object_id =
      reads (λ w. targets (ctx.get_keys w (body_key object_id old (codes ">"))))
      >>= (λ tos. for_each tos (rename_link object_id lt))

  -- The loop over the objects of the type.
  unfoldable pub rename_links : Str → Str → List Str → Action J W (Unit {0})
  rename_links old lt objects = for_each objects (rename_object old lt)

  -- The update of the types' link, without and with a new type for the links of the objects.
  abbrev pub body_update : Str → J
  body_update to = put_type_tag ctx to (
      put ctx (codes "link_body") (ctx.json.get_by_path payload (codes "body"))
        (link_to ctx to (codes "__type")))

  abbrev pub type_update : Str → Str → J
  type_update to lt = put_text ctx (codes "link_body.link_type") lt (body_update to)

  unfoldable pub update_body : Str → Action J W Done
  update_body to =
      request_checked ctx (codes "functions.graph.api.link.update") self (body_update to)
      >>= (λ _. pure replied)

  abbrev pub or_fail : {A : Type 0} → Result A → Action J W A
  or_fail (err e) = raise e
  or_fail (ok a) = pure a

  -- The update of the types' link and of the links of the objects, by the body that is stored.
  unfoldable pub change_link_type : Str → Str → J → Action J W Done
  change_link_type to lt body =
      let old = text_or [] (text_at ctx body (codes "link_body.link_type")) in
      request_checked ctx (codes "functions.graph.api.link.update") self (type_update to lt)
      >>= (λ _.
          reads (λ w. find_type_objects ctx w self)
          >>= (λ objects. rename_links old lt objects >> pure replied))

  unfoldable pub update_link_type : Str → Str → Action J W Done
  update_link_type to lt =
      reads (λ w. get_types_link_body ctx w self to)
      >>= (λ current. or_fail current >>= change_link_type to lt)

  abbrev pub update_types_link_of : (J → Bool) → Option Str → Str → Action J W Done
  update_types_link_of is_non_empty none lt = raise undefined_to
  update_types_link_of is_non_empty (some to) lt =
      if is_empty lt
      then (if is_non_empty (ctx.json.get_by_path payload (codes "body"))
          then update_body to
          else raise nothing_to_update)
      else update_link_type to lt

  -- UpdateTypesLink
  unfoldable pub update_types_link : Calls J W → Action J W Done
  update_types_link calls =
      update_types_link_of calls.is_non_empty_object (text_at ctx payload (codes "to"))
        (text_or [] (text_at ctx payload (codes "object_link_type")))

  -- DeleteTypesLink
  unfoldable pub delete_types_link : Action J W Done
  delete_types_link = pure replied

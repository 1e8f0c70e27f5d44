-- ===== src/Graph/High/Relations.antt =====
-- embedded/graph/crud/hl_crud.go: CreateObjectsLink, UpdateObjectsLink and DeleteObjectsLink.
pub mod Laws
use foliage_sdk.Common.{Bool, true, false, Option, none, some, if◌then◌else◌}
use foliage_sdk.Common.Text.{Str, codes}
use foliage_sdk.Graph.Context.{
  Context, Result, ok, err, undefined_to, Action, pure, raise, reads, ◌>>=◌, ◌>>◌,
}
use foliage_sdk.Graph.High.{Calls, Done, replied, unanswered, text_at, put, link_to}
use foliage_sdk.Graph.High.Links.{body_key, get_reference_link_type}
use foliage_sdk.Graph.High.Triggers.{request_firing}

module _ {J W : Type 0} (ctx : Context J W) (calls : Calls J W) (self : Str) (payload : J) where
  -- A link between objects with the body of the payload.
  abbrev pub objects_link : Str → Str → J
  objects_link to lt =
      put ctx (codes "link_body") (ctx.json.get_by_path payload (codes "body")) (link_to ctx to lt)

  -- The rest of a handler, by the type of the link between the types.
  abbrev pub with_type : Result Str → (Str → Action J W Done) → Action J W Done
  with_type (err e) k = raise e
  with_type (ok lt) k = k lt

  unfoldable pub with_reference : Str → (Str → Action J W Done) → Action J W Done
  with_reference to k =
      reads (λ w. get_reference_link_type ctx w self to) >>= (λ reference. with_type reference k)

  unfoldable pub create_link_of_type : Str → Str → Action J W Done
  create_link_of_type to lt = reads (λ w. ctx.has_value w (body_key self lt to)) >>= (λ there.
      if there
      then pure replied
      else request_firing ctx calls (codes "functions.graph.api.link.create") self
          (objects_link to lt)
        >> pure replied)

  abbrev pub create_objects_link_of : Option Str → Action J W Done
  create_objects_link_of none = raise undefined_to
  create_objects_link_of (some to) = with_reference to (create_link_of_type to)

  -- CreateObjectsLink
  unfoldable pub create_objects_link : Action J W Done
  create_objects_link = create_objects_link_of (text_at ctx payload (codes "to"))

  abbrev pub update_objects_link_of : Option Str → Action J W Done
  update_objects_link_of none = pure unanswered
  update_objects_link_of (some to) = with_reference to (λ lt.
      request_firing ctx calls (codes "functions.graph.api.link.update") self (objects_link to lt)
      >> pure replied)

  -- UpdateObjectsLink
  unfoldable pub update_objects_link : Action J W Done
  update_objects_link = update_objects_link_of (text_at ctx payload (codes "to"))

  abbrev pub delete_objects_link_of : Option Str → Action J W Done
  delete_objects_link_of none = pure unanswered
  delete_objects_link_of (some to) = with_reference to (λ lt.
      request_firing ctx calls (codes "functions.graph.api.link.delete") self (link_to ctx to lt)
      >> pure replied)

  -- DeleteObjectsLink
  unfoldable pub delete_objects_link : Action J W Done
  delete_objects_link = delete_objects_link_of (text_at ctx payload (codes "to"))

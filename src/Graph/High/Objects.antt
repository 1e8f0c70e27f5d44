-- ===== src/Graph/High/Objects.antt =====
-- embedded/graph/crud/hl_crud.go: CreateObject, UpdateObject and DeleteObject.
pub mod Laws
pub mod Deletion
mod Tests
use foliage_sdk.Common.{
  ℕ, Bool, true, false, Option, none, some, List, [], ◌∷◌, ◌++◌, if◌then◌else◌,
}
use foliage_sdk.Common.Text.{Str, codes, str_eq}
use foliage_sdk.Graph.Cascade.{Reply, reply_ok, reply_error, delete_object_cascade}
use foliage_sdk.Graph.Context.{
  Context, State, Result, ok, err, reply_failed, no_traversal, Action, pure, reads, ◌>>=◌, ◌>>◌,
  for_each,
}
use foliage_sdk.Graph.High.{
  Calls, Done, replied, unanswered, text_at, text_or, put, link_to, put_type_tag, request_checked,
  request_stack, error_text,
}
use foliage_sdk.Graph.High.Links.{body_key}
use foliage_sdk.Graph.High.Triggers.{fire, request_firing}

-- `_link`
pub record Link : Type 0 where
  pub from : Str
  pub to : Str
  pub lt : Str

module _ {J W : Type 0} (ctx : Context J W) (calls : Calls J W) (self : Str) (payload : J) where
  -- needLinks
  abbrev pub needed_links : Str → Str → List Link
  needed_links prefix origin =
      record { from = prefix ++ codes "objects"; to = self; lt = codes "__object" }
      ∷ record { from = self; to = prefix ++ origin; lt = codes "__type" }
      ∷ record { from = prefix ++ origin; to = self; lt = codes "__object" }
      ∷ []

  abbrev pub link_payload : Link → J
  link_payload l =
      let link = put ctx (codes "link_body") ctx.json.new_object (link_to ctx l.to l.lt) in
      if str_eq l.lt (codes "__type") then put_type_tag ctx l.to link else link

  unfoldable pub create_link : Link → Action J W (Unit {0})
  create_link l =
      request_checked ctx (codes "functions.graph.api.link.create") l.from (link_payload l)
      >>= (λ _. pure tt)

  unfoldable pub create_new_object : Str → Str → Action J W Done
  create_new_object prefix origin = do
    result ← request_stack ctx calls (codes "functions.graph.api.vertex.create") self payload
    for_each (needed_links prefix origin) create_link
    fire ctx calls result
    pure replied

  abbrev pub create_object_of : Str → Option Str → Action J W Done
  create_object_of prefix none = pure unanswered
  create_object_of prefix (some origin) =
      reads (λ w. ctx.has_value w (body_key (prefix ++ codes "objects") (codes "__object") self))
      >>= (λ there. if there then pure replied else create_new_object prefix origin)

  -- CreateObject
  unfoldable pub create_object : Action J W Done
  create_object =
      create_object_of (text_or [] (text_at ctx payload (codes "prefix")))
        (text_at ctx payload (codes "origin_type"))

  -- UpdateObject
  unfoldable pub update_object : Action J W Done
  update_object =
      request_firing ctx calls (codes "functions.graph.api.vertex.update") self payload
      >> pure replied

  abbrev pub delete_vertex : Str → Action J W (Unit {0})
  delete_vertex id =
      request_firing ctx calls (codes "functions.graph.api.vertex.delete") id ctx.json.new_object

  -- An error is passed on by its text.
  abbrev as_error : Result (Unit {0}) × State J W → State J W × Option Str
  as_error (ok u, s) = (s, none)
  as_error (err e, s) = (s, some (error_text ctx calls e))

  abbrev as_reply : State J W → Option (State J W × Reply) → Result Done × State J W
  as_reply s none = (err no_traversal, s)
  as_reply s (some (s', reply_ok)) = (ok replied, s')
  as_reply s (some (s', reply_error message)) = (err (reply_failed message), s')

  -- The mode `cascade`; the loop is on fuel.
  unfoldable pub delete_cascade : ℕ → Action J W Done
  delete_cascade fuel s = as_reply s (
      delete_object_cascade (State J W) (λ pattern s'. (s', ctx.get_keys s'.world pattern))
        (λ id s'. as_error (delete_vertex id s')) fuel self s)

  -- DeleteObject; another mode does nothing.
  unfoldable pub delete_object : ℕ → Action J W Done
  delete_object fuel =
      let mode = text_or (codes "vertex") (text_at ctx payload (codes "mode")) in
      if str_eq mode (codes "cascade")
      then delete_cascade fuel
      else if str_eq mode (codes "vertex")
      then delete_vertex self >> pure replied
      else pure replied

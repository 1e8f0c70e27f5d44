-- ===== src/Graph/High/Links.antt =====
-- embedded/graph/crud/hl_crud.go: the searches for an object's type, a type's objects, and the link between
-- two types.
use foliage_sdk.Common.{Bool, Option, none, some, List, [], ◌∷◌, map}
use foliage_sdk.Common.Text.{Str, codes, split, dot}
use foliage_sdk.Cache.Key.Laws.{last_token}
use foliage_sdk.Graph.Keys.{◌/◌, out_body}
use foliage_sdk.Graph.Context.{Context, Result, ok, err, link_not_found, no_link_type}
use foliage_sdk.Graph.High.{text_at}

-- fmt.Sprintf(OutLinkBodyKeyPrefPattern+LinkKeySuff2Pattern, from, lt, to)
abbrev pub body_key : Str → Str → Str → Str
body_key from lt to = out_body from (lt / to)

-- The last token of a key, for every key.
abbrev pub targets : List Str → List Str
targets keys = map (λ (key : Str). last_token (split dot key)) keys

abbrev pub first_or_empty : List Str → Str
first_or_empty [] = []
first_or_empty (s ∷ ss) = s

module _ {J W : Type 0} (ctx : Context J W) where
  -- findObjectType
  unfoldable pub find_object_type : W → Str → Str
  find_object_type w object_id =
      first_or_empty (targets (ctx.get_keys w (body_key object_id (codes "__type") (codes ">"))))

  -- findTypeObjects
  unfoldable pub find_type_objects : W → Str → List Str
  find_type_objects w type_id =
      targets (ctx.get_keys w (body_key type_id (codes "__object") (codes ">")))

  abbrev is_some_text : Str → Bool
  is_some_text [] = Bool.false
  is_some_text (c ∷ s) = Bool.true

  -- isVertexAnObject
  unfoldable pub is_vertex_an_object : W → Str → Bool
  is_vertex_an_object w id = is_some_text (find_object_type w id)

  abbrev or_not_found : Str → Str → Option J → Result J
  or_not_found from to none = err (link_not_found from to)
  or_not_found from to (some body) = ok body

  -- getTypesLinkBody
  unfoldable pub get_types_link_body : W → Str → Str → Result J
  get_types_link_body w from to =
      or_not_found from to (ctx.get_value_as_json w (body_key from (codes "__type") to))

  abbrev or_no_type : Option Str → Result Str
  or_no_type none = err no_link_type
  or_no_type (some lt) = ok lt

  abbrev link_type_of : Result J → Result Str
  link_type_of (err e) = err e
  link_type_of (ok body) = or_no_type (text_at ctx body (codes "link_type"))

  -- getReferenceLinkTypeBetweenTwoObjects
  unfoldable pub get_reference_link_type : W → Str → Str → Result Str
  get_reference_link_type w from to =
      link_type_of (get_types_link_body w (find_object_type w from) (find_object_type w to))

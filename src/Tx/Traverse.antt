-- ===== src/Tx/Traverse.antt =====
-- `graphState` and `getChildren` of embedded/graph/tx/traverse.go. The answers of the cache during
-- the traversal are parameters: the keys for a pattern, and whether a key has a value.
pub mod Ends
pub mod Added
pub mod Kept
pub mod Closed
use foliage_sdk.Common.{
  ℕ, zero, suc, Bool, true, false, Option, none, some, List, [], ◌∷◌, ◌++◌, any_of, if◌then◌else◌,
}
use foliage_sdk.Common.Dict.{Dict, load, assign}
use foliage_sdk.Common.Text.{Str, codes, str_eq}
use foliage_sdk.Graph.Keys.{out_body, last_two_of}

-- `node`
pub record Node : Type 0 where
  pub id : Str
  pub lt : Str
  pub link_id : Str

-- `link`
pub record Link : Type 0 where
  pub from : Str
  pub to : Str
  pub lt : Str
  pub object_lt : Str
  pub cache_id : Str

-- `state`: a set of objects, and links by their ids.
pub record GraphState : Type 0 where
  pub objects : List Str
  pub links : Dict Link

-- `panicked` is an index out of range.
pub data Traversed : Type 0 where
  finished : GraphState → Traversed
  panicked : Traversed

unfoldable pub has_object : Str → List Str → Bool
has_object id objects = any_of (λ (o : Str). str_eq o id) objects

unfoldable pub add_object : Str → List Str → List Str
add_object id objects = if has_object id objects then objects else id ∷ objects

unfoldable pub nodes_of : List Str → Option (List Node)
nodes_of [] = some []
nodes_of (key ∷ keys) = elim (last_two_of key) [
  | none ↦ none
  | some (lt, id) ↦ elim (nodes_of keys) [
    | none ↦ none
    | some nodes ↦ some (record { id = id; lt = lt; link_id = key } ∷ nodes)
  ]
]

abbrev pub link_id_of : Str → Node → Str
link_id_of node ch = node ++ (ch.id ++ ch.lt)

-- What the loop over the children does to the links.
unfoldable pub add_link : Str → Node → Dict Link → Dict Link
add_link node ch links = elim (load (link_id_of node ch) links) [
  | some l ↦ links
  | none ↦
      assign (link_id_of node ch)
        (record { from = node; to = ch.id; lt = ch.lt; object_lt = []; cache_id = ch.link_id })
        links
]

unfoldable pub add_links : Str → List Node → Dict Link → Dict Link
add_links node [] links = links
add_links node (ch ∷ children) links = add_links node children (add_link node ch links)

-- What the loop over the children puts at the end of the queue; it does not change the objects.
unfoldable pub new_objects : List Str → List Node → List Str
new_objects objects [] = []
new_objects objects (ch ∷ children) =
    let rest = new_objects objects children in
    if has_object ch.id objects then rest else ch.id ∷ rest

module _ (get_keys : Str → List Str) where
  -- `getChildren`
  unfoldable pub get_children : Str → Option (List Node)
  get_children id = nodes_of (get_keys (out_body id (codes ">")))

  -- The loop over the queue, on fuel.
  unfoldable pub traverse : ℕ → List Str → List Str → Dict Link → Option Traversed
  traverse zero queue objects links = none
  traverse (suc fuel) [] objects links =
      some (finished (record { objects = objects; links = links }))
  traverse (suc fuel) (node ∷ queue) objects links =
      let objects' = add_object node objects in
      elim (get_children node) [
        | none ↦ some panicked
        | some children ↦
            traverse fuel (queue ++ new_objects objects' children) objects'
              (add_links node children links)
      ]

  module _ (has_value : Str → Bool) where
    -- `graphState`
    unfoldable pub graph_state : ℕ → Str → Option Traversed
    graph_state fuel start_point = elim (has_value start_point) [
      | false ↦ some (finished (record { objects = []; links = [] }))
      | true ↦ traverse fuel (start_point ∷ []) [] []
    ]

-- ===== src/Tx/Clone.antt =====
-- embedded/graph/tx: what a new transaction holds, by initBuiltIn of traverse.go and by cloneGraph of
-- statefun.go. The orders in which Go ranges over its maps are parameters, or those of the lists here.
pub mod Select
use foliage_sdk.Common.{
  ℕ, Bool, true, false, Option, none, some, List, [], ◌∷◌, ◌++◌, map, if◌then◌else◌,
}
use foliage_sdk.Common.Dict.{Dict, assign}
use foliage_sdk.Common.Text.{Str, codes, str_eq}
use foliage_sdk.Graph.Context.{
  Context, State, Result, Action, pure, raise, reads, ◌>>=◌, ◌>>◌, for_each, ignore, no_traversal,
}
use foliage_sdk.Tx.Helper.{
  generate_prefix, link_body_key, request_sent, create_low_level_link, create_low_level_object,
}
use foliage_sdk.Tx.Traverse.{
  GraphState, Link, Traversed, finished, panicked, add_object, graph_state,
}
use foliage_sdk.Tx.Clone.Select.{BeginTxType, Selection, select_types, select_object_links}

abbrev built_in_link : Str → Str → Str → Str → Dict Link → Dict Link
built_in_link from to lt object_lt links =
    assign (from ++ (to ++ lt))
      (record { from = from; to = to; lt = lt; object_lt = object_lt; cache_id = [] }) links

-- initBuiltIn
unfoldable pub init_built_in : GraphState → GraphState
init_built_in g = record {
  objects = add_object (codes "nav") (
      add_object (codes "group") (
        add_object (codes "types")
          (add_object (codes "objects") (add_object (codes "root") g.objects))));
  links = built_in_link (codes "group") (codes "nav") (codes "__object") [] (
      built_in_link (codes "nav") (codes "group") (codes "__type") [] (
        built_in_link (codes "objects") (codes "nav") (codes "__object") [] (
          built_in_link (codes "group") (codes "group") (codes "__type") (codes "group") (
            built_in_link (codes "types") (codes "group") (codes "__type") [] (
              built_in_link (codes "root") (codes "types") (codes "__types") [] (
                built_in_link (codes "root") (codes "objects") (codes "__objects") [] g.links))))));
}

module _ {J W : Type 0} (ctx : Context J W) (tx_id : Str) where
  abbrev pub create_empty : Str → Action J W (Unit {0})
  create_empty id =
      request_sent ctx (codes "functions.graph.api.vertex.create") id ctx.json.new_object

  abbrev pub link_empty : Str → Str → Str → Str → Action J W (Unit {0})
  link_empty from to lt object_lt =
      create_low_level_link ctx from to lt object_lt ctx.json.new_object

  -- initBuilInObjects
  unfoldable pub init_buil_in_objects : Action J W (Unit {0})
  init_buil_in_objects = do
    let prefix = generate_prefix tx_id
    create_empty (prefix ++ codes "root")
    link_empty tx_id (prefix ++ codes "root") (codes "graph") []
    create_empty (prefix ++ codes "objects")
    create_empty (prefix ++ codes "types")
    link_empty (prefix ++ codes "root") (prefix ++ codes "objects") (codes "__objects") []
    link_empty (prefix ++ codes "root") (prefix ++ codes "types") (codes "__types") []
    create_empty (prefix ++ codes "group")
    link_empty (prefix ++ codes "types") (prefix ++ codes "group") (codes "__type") []
    link_empty (prefix ++ codes "group") (prefix ++ codes "group") (codes "__type") (codes "group")
    create_empty (prefix ++ codes "nav")
    link_empty (prefix ++ codes "objects") (prefix ++ codes "nav") (codes "__object") []
    link_empty (prefix ++ codes "nav") (prefix ++ codes "group") (codes "__type") []
    link_empty (prefix ++ codes "group") (prefix ++ codes "nav") (codes "__object") []

  -- The body at a key, or an empty one.
  abbrev pub body_or_empty : Option J → J
  body_or_empty none = ctx.json.new_object
  body_or_empty (some body) = body

  -- The copy of an object; the answer to the request is not looked at.
  unfoldable pub copy_object : Str → Action J W (Unit {0})
  copy_object id = do
    body ← reads (λ w. ctx.get_value_as_json w id)
    ignore (create_low_level_object ctx (generate_prefix tx_id ++ id) (body_or_empty body))

  -- The copy of a link whose body is at a key.
  unfoldable pub copy_link : (Link → Str) → Link → Action J W (Unit {0})
  copy_link key l = do
    body ← reads (λ w. ctx.get_value_as_json w (key l))
    let prefix = generate_prefix tx_id
    ignore (
        create_low_level_link ctx (prefix ++ l.from) (prefix ++ l.to) l.lt l.object_lt
          (body_or_empty body))

  -- What fullClone and cloneGraphWithTypes end with.
  unfoldable pub copy_graph : (Link → Str) → List Str → List Link → Action J W (Unit {0})
  copy_graph key objects links = do
    for_each objects copy_object
    for_each links (copy_link key)
    link_empty tx_id (generate_prefix tx_id ++ codes "root") (codes "graph") []

  module _ (range_objects : List Str → List Str) (range_links : Dict Link → List Link) where
    abbrev pub copy_traversed : Option Traversed → Action J W (Unit {0})
    copy_traversed (some (finished g)) =
        let all = init_built_in g in
        copy_graph (λ (l : Link). l.cache_id) (range_objects all.objects) (range_links all.links)
    copy_traversed (some panicked) = raise no_traversal
    copy_traversed none = raise no_traversal

    -- fullClone
    unfoldable pub full_clone : ℕ → Action J W (Unit {0})
    full_clone fuel =
        reads (λ w. graph_state (ctx.get_keys w) (ctx.has_value w) fuel (codes "root"))
        >>= copy_traversed

    abbrev pub copy_selected : Option Selection → Action J W (Unit {0})
    copy_selected none = raise no_traversal
    copy_selected (some sel) = do
      links ←
          reads (λ w.
            select_object_links ctx w sel.unique_type_objects (range_links sel.links) sel.links)
      copy_graph (λ (l : Link). link_body_key l.from l.lt l.to) (range_objects sel.objects)
          (range_links links)

    -- cloneGraphWithTypes
    unfoldable pub clone_graph_with_types : Dict BeginTxType → Action J W (Unit {0})
    clone_graph_with_types types = do
      init_buil_in_objects
      selected ← reads (λ w.
          select_types ctx w types types
            (record { objects = []; links = []; unique_type_objects = [] }))
      copy_selected selected

    -- cloneGraph
    unfoldable pub clone_graph : ℕ → Str → Dict BeginTxType → Action J W (Unit {0})
    clone_graph fuel clone_mod types =
        if str_eq clone_mod (codes "min")
        then clone_graph_with_types types
        else if str_eq clone_mod (codes "full")
        then full_clone fuel
        else if str_eq clone_mod (codes "with_types")
        then clone_graph_with_types types
        else pure tt

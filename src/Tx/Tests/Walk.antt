-- ===== src/Tx/Tests/Walk.antt =====
-- Runs of the traversal of embedded/graph/tx/traverse.go on a small graph.
use foliage_sdk.Common.{
  ◌<◌, Bool, true, Option, none, some, List, [], ◌∷◌, ◌≡◌, refl, ap, arith, All, length, ◌≤◌, Among,
  here, there, ◌++◌, sym, ◌∙◌, some_inj,
}
use mathlib.Core.Path.{subst}
use mathlib.Core.List.{append_cancel_right}
use foliage_sdk.Common.Dict
use foliage_sdk.Common.Dict.{Dict, load}
use foliage_sdk.Common.Text
use foliage_sdk.Common.Text.{Str, codes, has_prefix, str_eq, str_eq_refl}
use foliage_sdk.Cache.Key.Laws.{last_token}
use foliage_sdk.Graph.Keys.{out_body, last_two}
use foliage_sdk.Tx.Traverse.{
  Node, Link, GraphState, Traversed, finished, has_object, nodes_of, get_children, graph_state,
  traverse, new_objects, add_links, add_link, add_object, link_id_of,
}
use foliage_sdk.Tx.Traverse.Ends.{rounds, graph_state_ends}
use foliage_sdk.Tx.Traverse.Kept.{AreApart, link_to}
use foliage_sdk.Tx.Traverse.Closed.{graph_state_closed}

-- Every vertex has one link of type "t" to "w".
abbrev one_key : Str → List Str
one_key pattern = codes "v.out.body.t.w" ∷ []

abbrev to_w : Node
to_w = record { id = codes "w"; lt = codes "t"; link_id = codes "v.out.body.t.w" }

abbrev universe : List Str
universe = codes "v" ∷ codes "w" ∷ []

abbrev always : Str → Bool
always key = true

program : Unit {0}
unfolding Text.str_eq Text.split Dict.load Dict.assign last_token out_body last_two nodes_of
    get_children graph_state traverse has_object new_objects add_links add_link add_object rounds
program = tt

children_of_any : (id : Str) → get_children one_key id ≡ some (to_w ∷ [])
unfolding program
children_of_any id = refl

abbrev or_no_nodes : Option (List Node) → List Node
or_no_nodes none = []
or_no_nodes (some nodes) = nodes

one_child :
    (id : Str) (children : List Node)
    → has_object id universe ≡ true
    → get_children one_key id ≡ some children
    → All (λ (ch : Node). has_object ch.id universe ≡ true) children × (length children ≤ 1)
unfolding program
one_child id children h e =
    subst (λ c. All (λ (ch : Node). has_object ch.id universe ≡ true) c × (length c ≤ 1))
      (ap or_no_nodes e) ((refl, tt), omega arith)

abbrev v_in : has_object (codes "v") universe ≡ true
unfolding program
v_in = refl

few_rounds : rounds 1 (length universe) < 4
unfolding program
few_rounds = omega arith

graph_state_ends_example : (t : Traversed) × (graph_state one_key always 4 (codes "v") ≡ some t)
graph_state_ends_example =
    graph_state_ends 1 universe one_key one_child always 4 (codes "v") v_in few_rounds

abbrev link_to_w : Str → Link
link_to_w from = record {
  from = from;
  to = codes "w";
  lt = codes "t";
  object_lt = [];
  cache_id = codes "v.out.body.t.w";
}

abbrev both_found : GraphState
both_found = record {
  objects = codes "w" ∷ codes "v" ∷ [];
  links = (codes "vwt", link_to_w (codes "v")) ∷ (codes "wwt", link_to_w (codes "w")) ∷ [];
}

finds_both : graph_state one_key always 4 (codes "v") ≡ some (finished both_found)
unfolding program
finds_both = refl

v_found : has_object (codes "v") both_found.objects ≡ true
unfolding program
v_found = refl

Among-one : (c : Node) → Among c (to_w ∷ []) → c ≡ to_w
Among-one c (here e) = sym e
Among-one c (there a) = elim a [ ]

the_child :
    (c : Node) (cs : List Node) (x : Str) → get_children one_key x ≡ some cs → Among c cs → c ≡ to_w
unfolding program
the_child c cs x e a = subst (λ children. Among c children → c ≡ to_w) (some_inj e) (Among-one c) a

apart : AreApart one_key
apart x y cs ds c d e e' a b same =
    let is_c = the_child c cs x e a in
    let is_d = the_child d ds y e' b in
    rw (is_c, is_d)
      (ap (λ from. link_to from to_w)
        (append_cancel_right x y (codes "wt")
          (ap (λ n. x ++ (n.id ++ n.lt)) (sym is_c) ∙ same ∙ ap (λ n. y ++ (n.id ++ n.lt)) is_d)))

graph_state_closed_example :
    (has_object (codes "v") both_found.objects ≡ true)
    × All
        (λ (ch : Node).
          (has_object ch.id both_found.objects ≡ true)
          × (load (link_id_of (codes "v") ch) both_found.links ≡ some (link_to (codes "v") ch)))
        (to_w ∷ [])
graph_state_closed_example =
    graph_state_closed one_key always 4 (codes "v") (codes "v") (to_w ∷ []) both_found apart refl
      finds_both v_found (children_of_any (codes "v"))

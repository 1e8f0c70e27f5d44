-- ===== src/Tx/Traverse/Added.antt =====
-- embedded/graph/tx/traverse.go: the objects and links that a round of graphState adds.
use foliage_sdk.Common.{
  true, ◌||◌, List, [], ◌∷◌, ◌++◌, ◌≡◌, refl, arith, All, All-map, Option-cases, inl, inr,
  any_of-append, ◌≢◌,
}
use foliage_sdk.Common.Dict.{Dict, load, load-assign}
use foliage_sdk.Common.Text.{Str, str_eq, str_eq_iff}
use foliage_sdk.Jpgql.Links.{is_some}
use foliage_sdk.Tx.Traverse.{Node, Link, has_object, add_link, add_links, new_objects, link_id_of}

pub load-add_link :
    (k node : Str) (ch : Node) (links : Dict Link)
    → is_some (load k (add_link node ch links))
      ≡ (str_eq (link_id_of node ch) k || is_some (load k links))
unfolding add_link
load-add_link k node ch links = elim (Option-cases (load (link_id_of node ch) links)) [
  | inl e ↦
      rw (e, add_link)
        (ground (
          arith,
          load-assign k (link_id_of node ch)
              (record {
                from = node;
                to = ch.id;
                lt = ch.lt;
                object_lt = [];
                cache_id = ch.link_id;
              })
              links,
        ))
  | inr (l, e) ↦ rw (e, add_link) (ground (arith, str_eq_iff (link_id_of node ch) k))
]

-- A link that is known stays known.
pub add_links-keep :
    (k node : Str) (children : List Node) (links : Dict Link)
    → is_some (load k links) ≡ true
    → is_some (load k (add_links node children links)) ≡ true
unfolding add_links
add_links-keep k node [] links h = h
add_links-keep k node (ch ∷ children) links h =
    add_links-keep k node children (add_link node ch links)
      (ground (arith, load-add_link k node ch links))

pub add_links-add :
    (node : Str) (children : List Node) (links : Dict Link)
    → All
        (λ (ch : Node). is_some (load (link_id_of node ch) (add_links node children links)) ≡ true)
        children
unfolding add_links
add_links-add node [] links = tt
add_links-add node (ch ∷ children) links = (
  add_links-keep (link_id_of node ch) node children (add_link node ch links) (
      ground (
        arith,
        load-add_link (link_id_of node ch) node ch links,
        str_eq_iff (link_id_of node ch) (link_id_of node ch),
      )),
  add_links-add node children (add_link node ch links),
)

-- A child is visited already, or queued.
pub new_objects-covers :
    (objects : List Str) (children : List Node)
    → All
        (λ (ch : Node).
          (has_object ch.id (new_objects objects children) || has_object ch.id objects) ≡ true)
        children
unfolding new_objects has_object
new_objects-covers objects [] = tt
new_objects-covers objects (ch ∷ children) = (
  ground (arith, str_eq_iff ch.id ch.id),
  All-map children (λ x h. ground (arith, h)) (new_objects-covers objects children),
)

pub has_object-append :
    (id : Str) (q r : List Str) → has_object id (q ++ r) ≡ (has_object id q || has_object id r)
unfolding has_object
has_object-append id q r = any_of-append (λ (o : Str). str_eq o id) q r

pub has_object_cons :
    (id x : Str) (q : List Str) → has_object id (x ∷ q) ≡ (str_eq x id || has_object id q)
unfolding has_object
has_object_cons id x q = refl

pub nothing : (id : Str) → has_object id [] ≢ true
unfolding has_object
nothing id h = cc

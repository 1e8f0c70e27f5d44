-- ===== src/Tx/Traverse/Closed.antt =====
-- What the traversal of embedded/graph/tx/traverse.go finds.
use foliage_sdk.Common.{
  Among, here, there, none-some, some_inj, ℕ, zero, suc, Bool, true, ◌||◌, some, List, [], ◌∷◌,
  ◌++◌, ◌≡◌, refl, arith, All, All-map, All-both, Bool-cases, Option-cases, inl, inr, ap, sym, ◌∙◌,
}
use mathlib.Core.Path.{subst}
use foliage_sdk.Common.Dict.{Dict, load}
use foliage_sdk.Common.Text.{Str, str_eq, str_eq_iff}
use foliage_sdk.Jpgql.Links.{is_some}
use foliage_sdk.Tx.Traverse.{
  Node, Link, GraphState, finished, has_object, add_object, add_links, new_objects, link_id_of,
  get_children, traverse, graph_state,
}
use foliage_sdk.Tx.Traverse.Ends.{has_object-add_object}
use foliage_sdk.Tx.Traverse.Added.{
  add_links-keep, add_links-add, new_objects-covers, has_object-append, has_object_cons, nothing,
}
use foliage_sdk.Tx.Traverse.Kept.{
  finished_inj, link_to, round_panics, round_goes_on, AreGenuine, traverse-AreGenuine, AreApart,
  kept_link,
}

All-Among_self :
    {P Q : Node → Type 0} (all xs : List Node)
    → ((x : Node) → Among x all → P x → Q x)
    → ((x : Node) → Among x xs → Among x all)
    → All P xs
    → All Q xs
All-Among_self all [] f within h = tt
All-Among_self all (x ∷ xs) f within h =
    (f x (within x (here refl)) h.0, All-Among_self all xs f (λ y a. within y (there a)) h.1)

module _ (get_keys : Str → List Str) where
  -- The children of what was visited are visited or queued, and their links are known.
  abbrev IsClosed : List Str → List Str → Dict Link → Type 0
  IsClosed queue objects links =
      (id : Str) (children : List Node)
      → has_object id objects ≡ true
      → get_children get_keys id ≡ some children
      → All
          (λ (ch : Node).
            ((has_object ch.id queue || has_object ch.id objects) ≡ true)
            × (is_some (load (link_id_of id ch) links) ≡ true))
          children

  -- Where a child is after a round, and its link.
  abbrev IsCovered : List Str → List Str → Dict Link → Str → Node → Type 0
  IsCovered queue objects links id ch =
      ((has_object ch.id queue || has_object ch.id objects) ≡ true)
      × (is_some (load (link_id_of id ch) links) ≡ true)

  taken-IsCovered :
      (x : Str) (queue objects : List Str) (links : Dict Link) (found : List Node)
      → All
          (IsCovered
            (queue ++ new_objects (add_object x objects) found)
            (add_object x objects)
            (add_links x found links)
            x)
          found
  taken-IsCovered x queue objects links found =
      All-both _ _ found
        (All-map found
          (λ (ch : Node) c.
            ground
              (arith, has_object-append ch.id queue (new_objects (add_object x objects) found), c))
          (new_objects-covers (add_object x objects) found))
        (add_links-add x found links)

  -- A round for an object and its children.
  round-IsClosed :
      (x : Str) (queue objects : List Str) (links : Dict Link) (found : List Node)
      → get_children get_keys x ≡ some found
      → IsClosed (x ∷ queue) objects links
      → IsClosed
          (queue ++ new_objects (add_object x objects) found)
          (add_object x objects)
          (add_links x found links)
  round-IsClosed x queue objects links found e h id children visited e' =
      elim (Bool-cases (str_eq x id)) [
        | inl same ↦
            let at : x ≡ id = (str_eq_iff x id).0 same in
            let all : found ≡ children = some_inj (sym e ∙ ap (get_children get_keys) at ∙ e') in
            subst
              (λ i.
                All
                  (IsCovered (queue ++ new_objects (add_object x objects) found)
                    (add_object x objects) (add_links x found links) i)
                  children)
              at
              (subst
                (λ c.
                  All
                    (IsCovered (queue ++ new_objects (add_object x objects) found)
                      (add_object x objects) (add_links x found links) x)
                    c)
                all (taken-IsCovered x queue objects links found))
        | inr apart ↦
            All-map children
              (λ (ch : Node) p. (
                ground (
                  arith,
                  p.0,
                  has_object_cons ch.id x queue,
                  has_object-append ch.id queue (new_objects (add_object x objects) found),
                  has_object-add_object ch.id x objects,
                ),
                add_links-keep (link_id_of id ch) x found links p.1,
              ))
              (h id children (ground (arith, has_object-add_object id x objects)) e')
      ]

  traverse-IsClosed :
      (fuel : ℕ) (queue objects : List Str) (links : Dict Link) (g : GraphState) (start : Str)
      → IsClosed queue objects links
      → (has_object start queue || has_object start objects) ≡ true
      → traverse get_keys fuel queue objects links ≡ some (finished g)
      → (has_object start g.objects ≡ true) × IsClosed [] g.objects g.links
  unfolding traverse has_object
  traverse-IsClosed zero queue objects links g start h present e = absurd (cc)
  traverse-IsClosed (suc fuel) [] objects links g start h present e =
      let same : record { objects = objects; links = links } ≡ g = finished_inj (some_inj e) in
      subst
        (λ (r : GraphState). (has_object start r.objects ≡ true) × IsClosed [] r.objects r.links)
        same (present, h)
  traverse-IsClosed (suc fuel) (x ∷ queue) objects links g start h present e =
      elim (Option-cases (get_children get_keys x)) [
        | inl none_found ↦
            absurd (cc (round_panics get_keys fuel x queue objects links none_found, e))
        | inr (found, f) ↦
            traverse-IsClosed fuel (queue ++ new_objects (add_object x objects) found)
              (add_object x objects) (add_links x found links) g start
              (round-IsClosed x queue objects links found f h)
              (ground (
                arith,
                has_object_cons start x queue,
                has_object-append start queue (new_objects (add_object x objects) found),
                has_object-add_object start x objects,
              ))
              (sym (round_goes_on get_keys fuel x queue objects links found f) ∙ e)
      ]

  starts :
      (has_value : Str → Bool) (fuel : ℕ) (start_point : Str)
      → has_value start_point ≡ true
      → graph_state get_keys has_value fuel start_point
        ≡ traverse get_keys fuel (start_point ∷ []) [] []
  unfolding graph_state
  starts has_value fuel start_point h = rw (h, graph_state) refl

  -- When `graphState` of a starting point that has a value has ended without a panic, it has found the
  -- starting point, and with an object each of its children, and keeps the link to each of them, with
  -- its start, its end, its type and its key in the cache, if no two links of the graph share an id.
  pub graph_state_closed :
      (has_value : Str → Bool) (fuel : ℕ) (start_point id : Str) (children : List Node)
      (g : GraphState)
      → AreApart get_keys
      → has_value start_point ≡ true
      → graph_state get_keys has_value fuel start_point ≡ some (finished g)
      → has_object id g.objects ≡ true
      → get_children get_keys id ≡ some children
      → (has_object start_point g.objects ≡ true)
        × All
            (λ (ch : Node).
              (has_object ch.id g.objects ≡ true)
              × (load (link_id_of id ch) g.links ≡ some (link_to id ch)))
            children
  unfolding AreGenuine load
  graph_state_closed has_value fuel start_point id children g apart valued e found e' =
      let (start, closed) =
        traverse-IsClosed fuel (start_point ∷ []) [] [] g start_point
          (λ i c v. absurd (nothing i v))
          (ground
            (arith, has_object_cons start_point start_point [], str_eq_iff start_point start_point))
          (sym (starts has_value fuel start_point valued) ∙ e) in
      let genuine =
        traverse-AreGenuine get_keys fuel (start_point ∷ []) [] [] g
          (λ k l none_kept. none-some none_kept)
          (sym (starts has_value fuel start_point valued) ∙ e) in
      (
        start,
        All-Among_self children children
            (λ (ch : Node) a p. (
              ground (arith, p.0, nothing ch.id),
              kept_link get_keys g.links id children ch apart genuine e' a p.1,
            ))
            (λ c a. a) (closed id children found e'),
      )

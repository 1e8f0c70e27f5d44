-- ===== src/Tx/Traverse/Kept.antt =====
-- embedded/graph/tx/traverse.go: graphState keeps under an id the link of that id.
use foliage_sdk.Common.{
  Option, Among, here, there, true-false, false, if◌then◌else◌, some_inj, ℕ, zero, suc, Bool, true,
  none, some, List, [], ◌∷◌, ◌++◌, ◌≡◌, refl, Option-cases, inl, inr, ap, sym, ◌∙◌,
}
use mathlib.Core.Path.{subst}
use foliage_sdk.Common.Dict.{Dict, load, assign, load-assign}
use foliage_sdk.Common.Text.{Str, str_eq, str_eq_iff}
use foliage_sdk.Jpgql.Links.{is_some}
use foliage_sdk.Tx.Traverse.{
  Node, Link, GraphState, panicked, finished, add_object, add_link, add_links, new_objects,
  link_id_of, get_children, traverse,
}

pub finished_inj : {g h : GraphState} → finished g ≡ finished h → g ≡ h
finished_inj e = cc

-- The link to a child, as graphState keeps it.
abbrev pub link_to : Str → Node → Link
link_to from ch = record {
  from = from;
  to = ch.id;
  lt = ch.lt;
  object_lt = [];
  cache_id = ch.link_id;
}

module _ (get_keys : Str → List Str) where
  pub round_panics :
      (fuel : ℕ) (x : Str) (queue objects : List Str) (links : Dict Link)
      → get_children get_keys x ≡ none
      → traverse get_keys (suc fuel) (x ∷ queue) objects links ≡ some panicked
  unfolding traverse
  round_panics fuel x queue objects links e = rw (e, traverse) refl

  pub round_goes_on :
      (fuel : ℕ) (x : Str) (queue objects : List Str) (links : Dict Link) (found : List Node)
      → get_children get_keys x ≡ some found
      → traverse get_keys (suc fuel) (x ∷ queue) objects links
        ≡ traverse get_keys fuel
            (queue ++ new_objects (add_object x objects) found)
            (add_object x objects)
            (add_links x found links)
  unfolding traverse
  round_goes_on fuel x queue objects links found e = rw (e, traverse) refl

  -- What is kept under an id is the link of that id to a child of an object.
  unfoldable pub AreGenuine : Dict Link → Type 0
  AreGenuine links =
      (k : Str) (l : Link)
      → load k links ≡ some l
      → (from : Str) × (cs : List Node) × (c : Node) × (get_children get_keys from ≡ some cs)
        × Among c cs
        × (link_id_of from c ≡ k)
        × (link_to from c ≡ l)

  add_link-AreGenuine :
      (x : Str) (cs : List Node) (ch : Node) (links : Dict Link)
      → get_children get_keys x ≡ some cs
      → Among ch cs
      → AreGenuine links
      → AreGenuine (add_link x ch links)
  unfolding AreGenuine add_link
  add_link-AreGenuine x cs ch links e a h k l = by_presence (load (link_id_of x ch) links)
    where
      by_key :
          (b : Bool)
          → str_eq (link_id_of x ch) k ≡ b
          → (if b then some (link_to x ch) else load k links) ≡ some l
          → (from : Str) × (cs' : List Node) × (c : Node) × (get_children get_keys from ≡ some cs')
            × Among c cs'
            × (link_id_of from c ≡ k)
            × (link_to from c ≡ l)
      by_key true t f = (x, cs, ch, e, a, (str_eq_iff (link_id_of x ch) k).0 t, some_inj f)
      by_key false t f = h k l f

      by_presence :
          (o : Option Link)
          → load k
              (elim o [ some l' ↦ links | none ↦ assign (link_id_of x ch) (link_to x ch) links ])
            ≡ some l
          → (from : Str) × (cs' : List Node) × (c : Node) × (get_children get_keys from ≡ some cs')
            × Among c cs'
            × (link_id_of from c ≡ k)
            × (link_to from c ≡ l)
      by_presence (some l') f = h k l f
      by_presence none f =
          by_key (str_eq (link_id_of x ch) k) refl
            (sym (load-assign k (link_id_of x ch) (link_to x ch) links) ∙ f)

  add_links-AreGenuine :
      (x : Str) (cs children : List Node) (links : Dict Link)
      → get_children get_keys x ≡ some cs
      → ((c : Node) → Among c children → Among c cs)
      → AreGenuine links
      → AreGenuine (add_links x children links)
  unfolding add_links
  add_links-AreGenuine x cs [] links e within h = h
  add_links-AreGenuine x cs (ch ∷ children) links e within h =
      add_links-AreGenuine x cs children (add_link x ch links) e (λ c a. within c (there a))
        (add_link-AreGenuine x cs ch links e (within ch (here refl)) h)

  pub traverse-AreGenuine :
      (fuel : ℕ) (queue objects : List Str) (links : Dict Link) (g : GraphState)
      → AreGenuine links
      → traverse get_keys fuel queue objects links ≡ some (finished g)
      → AreGenuine g.links
  unfolding traverse
  traverse-AreGenuine zero queue objects links g h e = absurd (cc)
  traverse-AreGenuine (suc fuel) [] objects links g h e =
      subst (λ (r : GraphState). AreGenuine r.links) (finished_inj (some_inj e)) h
  traverse-AreGenuine (suc fuel) (x ∷ queue) objects links g h e =
      elim (Option-cases (get_children get_keys x)) [
        | inl none_found ↦ absurd (cc (round_panics fuel x queue objects links none_found, e))
        | inr (found, f) ↦
            traverse-AreGenuine fuel (queue ++ new_objects (add_object x objects) found)
              (add_object x objects) (add_links x found links) g
              (add_links-AreGenuine x found found links f (λ c a. a) h)
              (sym (round_goes_on fuel x queue objects links found f) ∙ e)
      ]

  -- No two links of the graph share an id, which is made of the start, the end and the type without
  -- anything between them.
  abbrev pub AreApart : Type 0
  AreApart =
      (x y : Str) (cs ds : List Node) (c d : Node)
      → get_children get_keys x ≡ some cs
      → get_children get_keys y ≡ some ds
      → Among c cs
      → Among d ds
      → link_id_of x c ≡ link_id_of y d
      → link_to x c ≡ link_to y d

  pub kept_link :
      (links : Dict Link) (id : Str) (children : List Node) (ch : Node)
      → AreApart
      → AreGenuine links
      → get_children get_keys id ≡ some children
      → Among ch children
      → is_some (load (link_id_of id ch) links) ≡ true
      → load (link_id_of id ch) links ≡ some (link_to id ch)
  unfolding AreGenuine
  kept_link links id children ch apart genuine e a kept =
      elim (Option-cases (load (link_id_of id ch) links)) [
        | inl missing ↦ true-false kept (ap is_some missing)
        | inr (l, f) ↦
            (let (x, cs, c, e', a', same, is) = genuine (link_id_of id ch) l f in
              f ∙ ap some (sym is ∙ apart x id cs children c ch e' e a' a same))
      ]

-- ===== src/Tx/Traverse/Ends.antt =====
-- How many rounds the traversal of embedded/graph/tx/traverse.go takes. An object can be queued by
-- each of its parents, and its children again each time.
use foliage_sdk.Common.{
  All-append, ℕ, zero, suc, ◌+◌, ◌*◌, ◌≤◌, ◌<◌, Bool, true, false, some, List, [], ◌∷◌, ◌++◌, ◌≡◌,
  refl, arith, length, All, Bool-cases, Option-cases, inl, inr, if◌then◌else◌, ◌||◌, leb,
}
use native.Mathlib.Nat.{mul-le-mul_right}
use foliage_sdk.Common.Dict.{Dict}
use foliage_sdk.Common.Text.{Str, str_eq, str_eq_iff}
use foliage_sdk.Tx.Traverse.{
  Node, Link, Traversed, panicked, finished, has_object, add_object, add_links, new_objects,
  get_children, traverse, graph_state,
}

-- How often an object is taken from the queue that is not visited while `unvisited` objects are not,
-- and all that it puts there, where an object has at most `degree` children.
unfoldable pub rounds : ℕ → ℕ → ℕ
rounds degree zero = 1
rounds degree (suc unvisited) = 1 + degree * rounds degree unvisited

mul_mono : (d a b : ℕ) → a ≤ b → d * a ≤ d * b
mul_mono zero a b h = omega arith
mul_mono (suc d) a b h = omega (arith, mul_mono d a b h)

rounds-suc : (d n : ℕ) → rounds d n ≤ rounds d (suc n)
unfolding rounds
rounds-suc d zero = omega arith
rounds-suc d (suc n) = omega (arith, mul_mono d (rounds d n) (rounds d (suc n)) (rounds-suc d n))

rounds_mono : (d a b : ℕ) → a ≤ b → rounds d a ≤ rounds d b
rounds_mono d a zero h = let e : a ≡ 0 = omega arith in rw e (omega arith)
rounds_mono d a (suc b) h = elim (Bool-cases (leb a b)) [
  | inl p ↦ omega (arith, rounds_mono d a b (ground arith), rounds-suc d b)
  | inr p ↦ let e : a ≡ suc b = ground arith in rw e (omega arith)
]

-- The objects of a universe that were not visited.
unfoldable pub count_unvisited : List Str → List Str → ℕ
count_unvisited [] objects = 0
count_unvisited (u ∷ universe) objects =
    (if has_object u objects then 0 else 1) + count_unvisited universe objects

pub has_object-add_object :
    (j id : Str) (objects : List Str)
    → has_object j (add_object id objects) ≡ (str_eq id j || has_object j objects)
unfolding has_object add_object
has_object-add_object j id objects = ground (arith, str_eq_iff id j)

count-add_object :
    (universe : List Str) (id : Str) (objects : List Str)
    → count_unvisited universe (add_object id objects) ≤ count_unvisited universe objects
unfolding count_unvisited
count-add_object [] id objects = omega arith
count-add_object (u ∷ universe) id objects =
    ground (arith, has_object-add_object u id objects, count-add_object universe id objects)

count_none : (universe : List Str) → count_unvisited universe [] ≤ length universe
unfolding count_unvisited has_object
count_none [] = omega arith
count_none (u ∷ universe) = omega (arith, count_none universe)

-- A new object of the universe makes one less.
count-add_object_new :
    (universe : List Str) (id : Str) (objects : List Str)
    → has_object id universe ≡ true
    → has_object id objects ≡ false
    → count_unvisited universe (add_object id objects) < count_unvisited universe objects
unfolding count_unvisited has_object
count-add_object_new [] id objects h n = absurd (cc)
count-add_object_new (u ∷ universe) id objects h n = elim (Bool-cases (str_eq u id)) [
  | inl same ↦
      let e : u ≡ id = (str_eq_iff u id).0 same in
      ground (
        arith,
        has_object-add_object id id objects,
        str_eq_iff id id,
        count-add_object universe id objects,
      )
  | inr apart ↦ ground (
    arith,
    has_object-add_object u id objects,
    count-add_object_new universe id objects (ground arith) n,
  )
]

-- Every child of an object of the universe is one, and an object has at most `degree` children.
abbrev IsObject : List Str → Str → Type 0
IsObject universe id = has_object id universe ≡ true

module _ (degree : ℕ) (universe : List Str) where
  -- The rounds that an element of the queue stands for.
  abbrev weight : List Str → Str → ℕ
  weight objects id = rounds degree (
      if has_object id objects
      then suc (count_unvisited universe objects)
      else count_unvisited universe objects)

  unfoldable weights : List Str → List Str → ℕ
  weights objects [] = 0
  weights objects (id ∷ queue) = weight objects id + weights objects queue

  weight_falls :
      (x y : Str) (objects : List Str)
      → IsObject universe y
      → weight (add_object x objects) y ≤ weight objects y
  weight_falls x y objects h = rounds_mono degree _ _ (
      ground (
        arith,
        has_object-add_object y x objects,
        str_eq_iff x y,
        count-add_object universe x objects,
        count-add_object_new universe x objects,
      ))

  weights_fall :
      (x : Str) (queue objects : List Str)
      → All (IsObject universe) queue
      → weights (add_object x objects) queue ≤ weights objects queue
  unfolding weights
  weights_fall x [] objects h = omega arith
  weights_fall x (y ∷ queue) objects h =
      omega (arith, weight_falls x y objects h.0, weights_fall x queue objects h.1)

  -- An element that is taken out makes room for all its children.
  weight_taken :
      (x : Str) (objects : List Str)
      → IsObject universe x
      → rounds degree (suc (count_unvisited universe (add_object x objects))) ≤ weight objects x
  weight_taken x objects h =
      rounds_mono degree _ _ (
        ground
          (arith, count-add_object universe x objects, count-add_object_new universe x objects))

  weights_new :
      (objects : List Str) (children : List Node)
      → weights objects (new_objects objects children)
        ≤ length children * rounds degree (count_unvisited universe objects)
  unfolding weights new_objects
  weights_new objects [] = omega arith
  weights_new objects (ch ∷ children) = elim (Bool-cases (has_object ch.id objects)) [
    | inl old ↦ rw old (omega (arith, weights_new objects children))
    | inr new ↦ rw new (rw new (omega (arith, weights_new objects children)))
  ]

  weights-append :
      (objects q r : List Str) → weights objects (q ++ r) ≡ weights objects q + weights objects r
  unfolding weights
  weights-append objects [] r = omega arith
  weights-append objects (x ∷ q) r = omega (arith, weights-append objects q r)

  new_objects-IsObject :
      (objects : List Str) (children : List Node)
      → All (λ (ch : Node). IsObject universe ch.id) children
      → All (IsObject universe) (new_objects objects children)
  unfolding new_objects
  new_objects-IsObject objects [] h = tt
  new_objects-IsObject objects (ch ∷ children) h = elim (Bool-cases (has_object ch.id objects)) [
    | inl old ↦ rw old (new_objects-IsObject objects children h.1)
    | inr new ↦ rw new (h.0, new_objects-IsObject objects children h.1)
  ]

  module _ (get_keys : Str → List Str)
      (closed : (id : Str) (children : List Node)
        → IsObject universe id
        → get_children get_keys id ≡ some children
        → All (λ (ch : Node). IsObject universe ch.id) children × (length children ≤ degree)) where
    -- A round takes more weight out of the queue than it puts in.
    round_falls :
        (x : Str) (queue objects : List Str) (children : List Node)
        → IsObject universe x
        → All (IsObject universe) queue
        → length children ≤ degree
        → weights (add_object x objects) (queue ++ new_objects (add_object x objects) children)
          < weights objects (x ∷ queue)
    unfolding weights rounds
    round_falls x queue objects children hx hq few =
        let objects' = add_object x objects in
        let u = count_unvisited universe objects' in
        omega (
          arith,
          weights-append objects' queue (new_objects objects' children),
          weights_fall x queue objects hq,
          weights_new objects' children,
          weight_taken x objects hx,
          mul-le-mul_right (rounds degree u) few,
        )

    traverse_ends :
        (fuel : ℕ) (queue objects : List Str) (links : Dict Link)
        → All (IsObject universe) queue
        → weights objects queue < fuel
        → (t : Traversed) × (traverse get_keys fuel queue objects links ≡ some t)
    unfolding traverse
    traverse_ends zero queue objects links h few = absurd (omega arith)
    traverse_ends (suc fuel) [] objects links h few = (_, refl)
    traverse_ends (suc fuel) (x ∷ queue) objects links h few =
        elim (Option-cases (get_children get_keys x)) [
          | inl e ↦ (panicked, rw (e, traverse) refl)
          | inr (children, e) ↦
              let (inside, few_children) = closed x children h.0 e in
              let objects' = add_object x objects in
              let (t, ends) =
                traverse_ends fuel (queue ++ new_objects objects' children) objects'
                  (add_links x children links)
                  (All-append (IsObject universe) queue _ h.1
                    (new_objects-IsObject objects' children inside))
                  (omega (arith, round_falls x queue objects children h.0 h.1 few_children)) in
              (t, rw (e, traverse) ends)
        ]

    -- `graphState` ends: if a finite universe has the starting point and with an object all its
    -- children, at most `degree` of them, more fuel than `rounds` of the size of the universe is enough.
    pub graph_state_ends :
        (has_value : Str → Bool) (fuel : ℕ) (start_point : Str)
        → IsObject universe start_point
        → rounds degree (length universe) < fuel
        → (t : Traversed) × (graph_state get_keys has_value fuel start_point ≡ some t)
    unfolding graph_state weights has_object
    graph_state_ends has_value fuel start_point inside enough =
        elim (Bool-cases (has_value start_point)) [
          | inr none_there ↦
              (finished (record { objects = []; links = [] }), rw (none_there, graph_state) refl)
          | inl there ↦
              let (t, ends) =
                traverse_ends fuel (start_point ∷ []) [] [] (inside, tt)
                  (omega (arith, rounds_mono degree _ _ (count_none universe))) in
              (t, rw (there, graph_state) ends)
        ]

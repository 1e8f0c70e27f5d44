-- ===== src/Tx/Isolation/Begin.antt =====
-- The start of a transaction, Begin of embedded/graph/tx/statefun.go, leaves the main graph alone.
use foliage_sdk.Common.{
  ℕ, Bool, true, false, Option, none, some, List, ◌++◌, ◌≡◌, ◌||◌, arith, All-any,
}
use foliage_sdk.Common.Dict.{Dict}
use foliage_sdk.Common.Text.{Str, str_eq, str_eq_iff}
use foliage_sdk.Graph.Context.{Context, Request, State, Action, ◌>>◌}
use foliage_sdk.Tx.Helper.{generate_prefix, create_low_level_object}
use foliage_sdk.Tx.Traverse.{Link, Traversed, finished, panicked}
use foliage_sdk.Tx.Clone.{
  init_buil_in_objects, create_empty, link_empty, copy_object, copy_link, copy_graph,
  copy_traversed, full_clone, copy_selected, clone_graph_with_types, clone_graph,
}
use foliage_sdk.Tx.Clone.Select.{BeginTxType, Selection}
use foliage_sdk.Tx.Session.{tx_master, begin_locked, begin_with, begin}
use foliage_sdk.Tx.Isolation.{is_of_tx, prefix-is_of_tx, self-is_of_tx}
use foliage_sdk.Tx.Requests.{
  sent_pass, IsKept, raise-IsKept, pure-IsKept, changes-IsKept, ignore-IsKept, answer-IsKept,
  >>=-IsKept, reads->>=-IsKept, or_raise-IsKept, either-IsKept, for_each-IsKept,
  request_sent-IsKept, create_low_level_link-IsKept,
}

-- A request to the master of the transactions, or to an id of the transaction.
abbrev pub is_start : {J : Type 0} → Str → Request J → Bool
is_start tx r = str_eq r.id tx_master || is_of_tx tx r.id

module _ {J W : Type 0} (ctx : Context J W) (tx : Str) where
  prefix-is_start :
      (id : Str)
      → (str_eq (generate_prefix tx ++ id) tx_master || is_of_tx tx (generate_prefix tx ++ id))
        ≡ true
  prefix-is_start id = ground (arith, prefix-is_of_tx tx id)

  self-is_start : (str_eq tx tx_master || is_of_tx tx tx) ≡ true
  self-is_start = ground (arith, self-is_of_tx tx)

  then-IsKept :
      (m k : Action J W (Unit {0}))
      → IsKept ctx (is_start tx) m
      → IsKept ctx (is_start tx) k
      → IsKept ctx (is_start tx) (m >> k)
  then-IsKept m k h h' = >>=-IsKept ctx (is_start tx) m _ h (λ u. h')

  -- A vertex or a link of the transaction, and then the rest.
  vertex-IsKept :
      (id : Str) (k : Action J W (Unit {0}))
      → IsKept ctx (is_start tx) k
      → IsKept ctx (is_start tx) (create_empty ctx tx (generate_prefix tx ++ id) >> k)
  vertex-IsKept id k h =
      then-IsKept _ k (request_sent-IsKept ctx (is_start tx) _ _ _ (prefix-is_start id)) h

  link-IsKept :
      (from to lt object_lt : Str)
      → IsKept ctx (is_start tx) (link_empty ctx tx (generate_prefix tx ++ from) to lt object_lt)
  link-IsKept from to lt object_lt =
      create_low_level_link-IsKept ctx (is_start tx) _ _ _ _ _ (λ j. prefix-is_start from)

  from_self-IsKept :
      (to lt object_lt : Str) → IsKept ctx (is_start tx) (link_empty ctx tx tx to lt object_lt)
  from_self-IsKept to lt object_lt =
      create_low_level_link-IsKept ctx (is_start tx) _ _ _ _ _ (λ j. self-is_start)

  init-IsKept : IsKept ctx (is_start tx) (init_buil_in_objects ctx tx)
  unfolding init_buil_in_objects
  init-IsKept = vertex-IsKept _ _ (
      then-IsKept _ _ (from_self-IsKept _ _ _) (
        vertex-IsKept _ _ (
          vertex-IsKept _ _ (
            then-IsKept _ _ (link-IsKept _ _ _ _) (
              then-IsKept _ _ (link-IsKept _ _ _ _) (
                vertex-IsKept _ _ (
                  then-IsKept _ _ (link-IsKept _ _ _ _) (
                    then-IsKept _ _ (link-IsKept _ _ _ _) (
                      vertex-IsKept _ _ (
                        then-IsKept _ _ (link-IsKept _ _ _ _)
                          (then-IsKept _ _ (link-IsKept _ _ _ _) (link-IsKept _ _ _ _))))))))))))

  copy_object-IsKept : (id : Str) → IsKept ctx (is_start tx) (copy_object ctx tx id)
  unfolding copy_object create_low_level_object
  copy_object-IsKept id = reads->>=-IsKept ctx (is_start tx) _ _ λ w.
      ignore-IsKept ctx (is_start tx) _
        (request_sent-IsKept ctx (is_start tx) _ _ _ (prefix-is_start id))

  copy_link-IsKept :
      (key : Link → Str) (l : Link) → IsKept ctx (is_start tx) (copy_link ctx tx key l)
  unfolding copy_link
  copy_link-IsKept key l = reads->>=-IsKept ctx (is_start tx) _ _ λ w.
      ignore-IsKept ctx (is_start tx) _
        (create_low_level_link-IsKept ctx (is_start tx) _ _ _ _ _ (λ j. prefix-is_start l.from))

  copy_graph-IsKept :
      (key : Link → Str) (objects : List Str) (links : List Link)
      → IsKept ctx (is_start tx) (copy_graph ctx tx key objects links)
  unfolding copy_graph
  copy_graph-IsKept key objects links =
      then-IsKept _ _ (for_each-IsKept ctx (is_start tx) _ _ (All-any _ copy_object-IsKept)) (
        then-IsKept _ _ (for_each-IsKept ctx (is_start tx) _ _ (All-any _ (copy_link-IsKept key)))
          (from_self-IsKept _ _ _))

  module _ (range_objects : List Str → List Str) (range_links : Dict Link → List Link)
      (fuel : ℕ) where
    copy_traversed-IsKept :
        (t : Option Traversed)
        → IsKept ctx (is_start tx) (copy_traversed ctx tx range_objects range_links t)
    copy_traversed-IsKept (some (finished g)) = copy_graph-IsKept _ _ _
    copy_traversed-IsKept (some panicked) = raise-IsKept ctx (is_start tx) _ _
    copy_traversed-IsKept none = raise-IsKept ctx (is_start tx) _ _

    full_clone-IsKept : IsKept ctx (is_start tx) (full_clone ctx tx range_objects range_links fuel)
    unfolding full_clone
    full_clone-IsKept = reads->>=-IsKept ctx (is_start tx) _ _ (λ w. copy_traversed-IsKept _)

    copy_selected-IsKept :
        (sel : Option Selection)
        → IsKept ctx (is_start tx) (copy_selected ctx tx range_objects range_links sel)
    copy_selected-IsKept none = raise-IsKept ctx (is_start tx) _ _
    copy_selected-IsKept (some sel) =
        reads->>=-IsKept ctx (is_start tx) _ _ (λ w. copy_graph-IsKept _ _ _)

    with_types-IsKept :
        (types : Dict BeginTxType)
        → IsKept ctx (is_start tx) (clone_graph_with_types ctx tx range_objects range_links types)
    unfolding clone_graph_with_types
    with_types-IsKept types =
        then-IsKept _ _ init-IsKept
          (reads->>=-IsKept ctx (is_start tx) _ _ (λ w. copy_selected-IsKept _))

    clone_graph-IsKept :
        (clone_mod : Str) (types : Dict BeginTxType)
        → IsKept ctx
            (is_start tx)
            (clone_graph ctx tx range_objects range_links fuel clone_mod types)
    unfolding clone_graph
    clone_graph-IsKept clone_mod types =
        either-IsKept ctx (is_start tx) _ _ _ (with_types-IsKept types) (
          either-IsKept ctx (is_start tx) _ _ _ full_clone-IsKept (
            either-IsKept ctx (is_start tx) _ _ _ (with_types-IsKept types)
              (pure-IsKept ctx (is_start tx) tt)))

    module _ (parse_types : J → Option (Dict BeginTxType)) where
      begin_locked-IsKept :
          (payload : J)
          → IsKept ctx
              (is_start tx)
              (begin_locked ctx range_objects range_links fuel parse_types tx payload)
      unfolding begin_locked
      begin_locked-IsKept payload = then-IsKept _ _ (changes-IsKept ctx (is_start tx) _) (
          then-IsKept _ _
            (create_low_level_link-IsKept ctx (is_start tx) _ _ _ _ _
              (λ j. ground (arith, str_eq_iff tx_master tx_master)))
            (>>=-IsKept ctx (is_start tx) _ _ (or_raise-IsKept ctx (is_start tx) _ _)
              (λ types. clone_graph-IsKept _ types)))

      begin_with-IsKept :
          (payload : J) (locked : Bool)
          → IsKept ctx
              (is_start tx)
              (begin_with ctx range_objects range_links fuel parse_types tx payload locked)
      begin_with-IsKept payload false = raise-IsKept ctx (is_start tx) _ _
      begin_with-IsKept payload true =
          answer-IsKept ctx (is_start tx) _ (begin_locked-IsKept payload)

      -- If all requests so far went to the master of the transactions, to the transaction, or to ids with its
      -- prefix, then after Begin they do, whatever is cloned and whether it succeeds or fails.
      pub sent_pass-begin :
          (payload : J) (s : State J W)
          → sent_pass ctx (is_start tx) s ≡ true
          → sent_pass ctx
              (is_start tx)
              (begin ctx range_objects range_links fuel parse_types tx payload s).1
            ≡ true
      unfolding begin IsKept
      sent_pass-begin payload s h =
          let (locked, w) = ctx.object_mutex_lock s.world in
          begin_with-IsKept payload locked (record s { world = w }) h

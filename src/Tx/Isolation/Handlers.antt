-- ===== src/Tx/Isolation/Handlers.antt =====
-- Each handler of embedded/graph/tx/statefun.go works in its transaction alone.
use foliage_sdk.Common.{true, List, [], ◌∷◌, ◌++◌, ◌≡◌, All, All-map, All-any}
use foliage_sdk.Common.Text.{Str}
use foliage_sdk.Graph.Context.{Context, Action, State, ◌>>=◌, ◌>>◌}
use foliage_sdk.Tx.Helper.{
  generate_prefix, argument, request_checked, fetch_json, find_type_objects,
  clone_type_from_main_graph_to_tx, clone_link_from_main_graph_to_tx,
  clone_object_from_main_graph_to_tx,
}
use foliage_sdk.Tx.Types.{
  create_type, create_tx_type, update_type, delete_type, create_types_link, clone_missing_type,
  clone_types_link, update_types_link, mark_object_links, delete_types_link,
}
use foliage_sdk.Tx.Objects.{
  create_object, first_key, create_tx_object, update_object, delete_object, create_objects_link,
  clone_missing_object, clone_objects_link, update_objects_link, delete_objects_link, Handler, run,
  handle, type_create, type_update, type_delete, object_create, object_update, object_delete,
  types_link_create, types_link_update, types_link_delete, objects_link_create, objects_link_update,
  objects_link_delete,
}
use foliage_sdk.Tx.Isolation.{is_of_tx, is_inside, prefix-is_of_tx, self-is_of_tx}
use foliage_sdk.Tx.Requests.{
  answer-IsKept, sent_pass, IsKept, raise-IsKept, pure-IsKept, >>=-IsKept, reads->>=-IsKept,
  or_raise-IsKept, when-IsKept, for_each-IsKept, request_checked-IsKept, request_sent-IsKept,
  fetch_json-IsKept, create_low_level_link-IsKept,
}

module _ {J W : Type 0} (ctx : Context J W) (tx : Str) (payload : J) where
  then-IsKept :
      {A : Type 0} (m : Action J W (Unit {0})) (k : Action J W A)
      → IsKept ctx (is_inside tx) m
      → IsKept ctx (is_inside tx) k
      → IsKept ctx (is_inside tx) (m >> k)
  then-IsKept m k h h' = >>=-IsKept ctx (is_inside tx) m _ h (λ u. h')

  -- After an argument, or a value of the cache, that the handler asks for.
  argument-IsKept :
      {A : Type 0} (j : J) (path : Str) (k : Str → Action J W A)
      → ((id : Str) → IsKept ctx (is_inside tx) (k id))
      → IsKept ctx (is_inside tx) (argument ctx j path >>= k)
  argument-IsKept j path k h =
      >>=-IsKept ctx (is_inside tx) (argument ctx j path) k (or_raise-IsKept ctx (is_inside tx) _ _)
        h

  fetched-IsKept :
      {A : Type 0} (key : Str) (k : J → Action J W A)
      → ((j : J) → IsKept ctx (is_inside tx) (k j))
      → IsKept ctx (is_inside tx) (fetch_json ctx key >>= k)
  fetched-IsKept key k h =
      >>=-IsKept ctx (is_inside tx) (fetch_json ctx key) k
        (fetch_json-IsKept ctx (is_inside tx) key) h

  -- A request for an id with the transaction's prefix, and one for the transaction itself.
  to_prefixed-IsKept :
      (op id : Str) (j : J)
      → IsKept ctx (is_inside tx) (request_checked ctx op (generate_prefix tx ++ id) j)
  to_prefixed-IsKept op id j =
      request_checked-IsKept ctx (is_inside tx) op _ j (prefix-is_of_tx tx id)

  to_self-IsKept : (op : Str) (j : J) → IsKept ctx (is_inside tx) (request_checked ctx op tx j)
  to_self-IsKept op j = request_checked-IsKept ctx (is_inside tx) op tx j (self-is_of_tx tx)

  create_type-IsKept : IsKept ctx (is_inside tx) (create_type ctx tx payload)
  unfolding create_type
  create_type-IsKept = to_prefixed-IsKept _ _ _

  create_tx_type-IsKept : (id : Str) → IsKept ctx (is_inside tx) (create_tx_type ctx tx payload id)
  unfolding create_tx_type
  create_tx_type-IsKept id = fetched-IsKept id _ (λ j. to_self-IsKept _ _)

  update_type-IsKept : IsKept ctx (is_inside tx) (update_type ctx tx payload)
  unfolding update_type
  update_type-IsKept = argument-IsKept _ _ _ λ id. reads->>=-IsKept ctx (is_inside tx) _ _ λ w.
      then-IsKept _ _ (when-IsKept ctx (is_inside tx) _ _ (create_tx_type-IsKept id))
        (to_prefixed-IsKept _ id _)

  create_types_link-IsKept : IsKept ctx (is_inside tx) (create_types_link ctx tx payload)
  unfolding create_types_link
  create_types_link-IsKept =
      argument-IsKept _ _ _ λ from. argument-IsKept _ _ _ λ to. to_prefixed-IsKept _ from _

  clone_missing_type-IsKept :
      (src dst : Str) → IsKept ctx (is_inside tx) (clone_missing_type ctx tx payload src dst)
  unfolding clone_missing_type clone_type_from_main_graph_to_tx
  clone_missing_type-IsKept src dst = reads->>=-IsKept ctx (is_inside tx) _ _ λ w.
      when-IsKept ctx (is_inside tx) _ _
        (fetched-IsKept src _ λ j. request_sent-IsKept ctx (is_inside tx) _ tx _ (self-is_of_tx tx))

  -- The copy of a link of the main graph starts at a vertex of the transaction.
  clone_link-IsKept :
      (from lt to tx_from tx_lt tx_to : Str)
      → IsKept ctx (is_inside tx) (
          clone_link_from_main_graph_to_tx ctx from lt to
            (generate_prefix tx ++ tx_from)
            tx_lt
            tx_to)
  unfolding clone_link_from_main_graph_to_tx
  clone_link-IsKept from lt to tx_from tx_lt tx_to = fetched-IsKept _ _ λ j.
      create_low_level_link-IsKept ctx (is_inside tx) _ _ _ _ _ (λ j'. prefix-is_of_tx tx tx_from)

  clone_types_link-IsKept :
      (from to : Str) → IsKept ctx (is_inside tx) (clone_types_link ctx tx payload from to)
  unfolding clone_types_link
  clone_types_link-IsKept from to =
      then-IsKept _ _ (clone_missing_type-IsKept from _)
        (then-IsKept _ _ (clone_missing_type-IsKept to _) (clone_link-IsKept from to to from _ _))

  update_types_link-IsKept : IsKept ctx (is_inside tx) (update_types_link ctx tx payload)
  unfolding update_types_link
  update_types_link-IsKept = argument-IsKept _ _ _ λ from. argument-IsKept _ _ _ λ to.
      reads->>=-IsKept ctx (is_inside tx) _ _ λ w.
        then-IsKept _ _ (when-IsKept ctx (is_inside tx) _ _ (clone_types_link-IsKept from to))
          (to_prefixed-IsKept _ from _)

  create_object-IsKept : IsKept ctx (is_inside tx) (create_object ctx tx payload)
  unfolding create_object
  create_object-IsKept = to_prefixed-IsKept _ _ _

  first_key-IsKept :
      (pattern : Str) (keys : List Str)
      → IsKept ctx (is_inside tx) (first_key ctx tx payload pattern keys)
  first_key-IsKept pattern [] = raise-IsKept ctx (is_inside tx) _ _
  first_key-IsKept pattern (key ∷ keys) = pure-IsKept ctx (is_inside tx) key

  create_tx_object-IsKept :
      (id : Str) → IsKept ctx (is_inside tx) (create_tx_object ctx tx payload id)
  unfolding create_tx_object
  create_tx_object-IsKept id = fetched-IsKept id _ λ j.
      reads->>=-IsKept ctx (is_inside tx) _ _
        λ w. >>=-IsKept ctx (is_inside tx) _ _ (first_key-IsKept _ _) (λ key. to_self-IsKept _ _)

  update_object-IsKept : IsKept ctx (is_inside tx) (update_object ctx tx payload)
  unfolding update_object
  update_object-IsKept = argument-IsKept _ _ _ λ id. reads->>=-IsKept ctx (is_inside tx) _ _ λ w.
      then-IsKept _ _ (when-IsKept ctx (is_inside tx) _ _ (create_tx_object-IsKept id))
        (to_prefixed-IsKept _ id _)

  delete_object-IsKept : IsKept ctx (is_inside tx) (delete_object ctx tx payload)
  unfolding delete_object
  delete_object-IsKept =
      argument-IsKept _ _ _
        λ id. reads->>=-IsKept ctx (is_inside tx) _ _ λ w. to_prefixed-IsKept _ id _

  create_objects_link-IsKept : IsKept ctx (is_inside tx) (create_objects_link ctx tx payload)
  unfolding create_objects_link
  create_objects_link-IsKept =
      argument-IsKept _ _ _ λ from. argument-IsKept _ _ _ λ to. to_prefixed-IsKept _ from _

  clone_missing_object-IsKept :
      (src dst ty : Str)
      → IsKept ctx (is_inside tx) (clone_missing_object ctx tx payload src dst ty)
  unfolding clone_missing_object clone_object_from_main_graph_to_tx
  clone_missing_object-IsKept src dst ty = reads->>=-IsKept ctx (is_inside tx) _ _ λ w.
      when-IsKept ctx (is_inside tx) _ _
        (fetched-IsKept src _ λ j. request_sent-IsKept ctx (is_inside tx) _ tx _ (self-is_of_tx tx))

  clone_objects_link-IsKept :
      (from to from_type to_type lt : Str)
      → IsKept ctx (is_inside tx) (clone_objects_link ctx tx payload from to from_type to_type lt)
  unfolding clone_objects_link
  clone_objects_link-IsKept from to from_type to_type lt =
      then-IsKept _ _ (clone_missing_object-IsKept from _ from_type) (
        then-IsKept _ _ (clone_missing_object-IsKept to _ to_type)
          (clone_link-IsKept from lt to from _ _))

  update_objects_link-IsKept : IsKept ctx (is_inside tx) (update_objects_link ctx tx payload)
  unfolding update_objects_link
  update_objects_link-IsKept = argument-IsKept _ _ _ λ from. argument-IsKept _ _ _ λ to.
      reads->>=-IsKept ctx (is_inside tx) _ _ λ w. reads->>=-IsKept ctx (is_inside tx) _ _ λ w'.
        fetched-IsKept _ _ λ j. reads->>=-IsKept ctx (is_inside tx) _ _ λ w''.
          then-IsKept _ _
            (when-IsKept ctx (is_inside tx) _ _ (clone_objects_link-IsKept from to _ _ _))
            (to_prefixed-IsKept _ from _)

  delete_objects_link-IsKept : IsKept ctx (is_inside tx) (delete_objects_link ctx tx payload)
  unfolding delete_objects_link
  delete_objects_link-IsKept = argument-IsKept _ _ _ λ from.
      argument-IsKept _ _ _
        λ to. reads->>=-IsKept ctx (is_inside tx) _ _ λ w. to_prefixed-IsKept _ from _

  module _
      (types_inside : (w : W) (id : Str)
        → All
            (λ (o : Str). is_of_tx tx o ≡ true)
            (find_type_objects ctx w (generate_prefix tx ++ id))) where
    delete_type-IsKept : IsKept ctx (is_inside tx) (delete_type ctx tx payload)
    unfolding delete_type
    delete_type-IsKept = argument-IsKept _ _ _ λ id. reads->>=-IsKept ctx (is_inside tx) _ _ λ w.
        reads->>=-IsKept ctx (is_inside tx) _ _ λ w'.
          then-IsKept _ _
            (for_each-IsKept ctx (is_inside tx) _ _ (
              All-map _ (λ o e. request_checked-IsKept ctx (is_inside tx) _ o _ e)
                (types_inside w' id)))
            (to_prefixed-IsKept _ id _)

    mark_object_links-IsKept :
        (lt id : Str) (meta : J)
        → is_of_tx tx id ≡ true
        → IsKept ctx (is_inside tx) (mark_object_links ctx tx payload lt meta id)
    unfolding mark_object_links
    mark_object_links-IsKept lt id meta e = reads->>=-IsKept ctx (is_inside tx) _ _ λ w.
        for_each-IsKept ctx (is_inside tx) _ _
          (All-any _ (λ v. request_checked-IsKept ctx (is_inside tx) _ id _ e))

    delete_types_link-IsKept : IsKept ctx (is_inside tx) (delete_types_link ctx tx payload)
    unfolding delete_types_link
    delete_types_link-IsKept = argument-IsKept _ _ _ λ from. argument-IsKept _ _ _ λ to.
        reads->>=-IsKept ctx (is_inside tx) _ _ λ w. fetched-IsKept _ _ λ j.
          argument-IsKept _ _ _ λ lt. reads->>=-IsKept ctx (is_inside tx) _ _ λ w'.
            then-IsKept _ _
              (for_each-IsKept ctx (is_inside tx) _ _
                (All-map _ (λ o e. mark_object_links-IsKept lt o _ e) (types_inside w' from)))
              (to_prefixed-IsKept _ from _)

    run-IsKept : (h : Handler) → IsKept ctx (is_inside tx) (run ctx tx payload h)
    unfolding run
    run-IsKept type_create = create_type-IsKept
    run-IsKept type_update = update_type-IsKept
    run-IsKept type_delete = delete_type-IsKept
    run-IsKept object_create = create_object-IsKept
    run-IsKept object_update = update_object-IsKept
    run-IsKept object_delete = delete_object-IsKept
    run-IsKept types_link_create = create_types_link-IsKept
    run-IsKept types_link_update = update_types_link-IsKept
    run-IsKept types_link_delete = delete_types_link-IsKept
    run-IsKept objects_link_create = create_objects_link-IsKept
    run-IsKept objects_link_update = update_objects_link-IsKept
    run-IsKept objects_link_delete = delete_objects_link-IsKept

    -- Whatever handler of a transaction runs, when all requests so far went to the transaction or to ids
    -- with its prefix, all its requests do, if the objects found for a type with the prefix have it too.
    pub sent_pass-handle :
        (h : Handler) (s : State J W)
        → sent_pass ctx (is_inside tx) s ≡ true
        → sent_pass ctx (is_inside tx) (handle ctx tx payload h s).1 ≡ true
    unfolding IsKept handle
    sent_pass-handle h = answer-IsKept ctx (is_inside tx) _ (run-IsKept h)

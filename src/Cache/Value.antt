-- ===== src/Cache/Value.antt =====
-- `StoreValue` of statefun/cache/cache.go and its methods. A node owns its children, so the pointers
-- `parent` and `keyInParent` are the place of a node in the tree: a method that reaches its
-- parent is a function of the parent and the key.
use foliage_sdk.Common.{
  ℕ, Bool, true, false, not, ◌&&◌, Option, none, some, List, [], ◌∷◌, ◌++◌, ◌==◌, if◌then◌else◌,
}
use foliage_sdk.Common.Dict.{Dict}
use foliage_sdk.Common.Int.{ℤ, pos, ltb_ℤ}
use foliage_sdk.Common.Text.{Str, str_eq}

-- What a subscriber receives.
pub record KeyValue : Type 0 where
  pub key : Str
  pub value : Option Str

-- The fields of a `StoreValue` but for its place in the tree and its store. `value` is `none` for
-- a nil interface. For each callback of `notify_updates` stand the messages sent to its channel.
pub record Entry : Type 0 where
  pub value : Option Str
  pub value_exists : Bool
  pub purge_state : ℕ
  pub store_consistency_with_kv_loss_time : ℤ
  pub value_update_time : ℤ
  pub notify_updates : Dict (List KeyValue)
  pub sync_needed : Bool
  pub synced_with_kv : Bool

mutual
  pub data StoreValue : Type 0 where
    store_value : Entry → ValueMap → StoreValue

  -- The field `store`, in the order in which `Range` meets the keys.
  pub data ValueMap : Type 0 where
    nil : ValueMap
    bind : Str → StoreValue → ValueMap → ValueMap

abbrev pub entry : StoreValue → Entry
entry (store_value e m) = e

abbrev pub store : StoreValue → ValueMap
store (store_value e m) = m

-- v, ok := csv.store[key]
unfoldable pub find_child : Str → ValueMap → Option StoreValue
find_child k nil = none
find_child k (bind j v m) = if str_eq j k then some v else find_child k m

-- csv.store[key] = child
unfoldable pub assign_child : Str → StoreValue → ValueMap → ValueMap
assign_child k c nil = bind k c nil
assign_child k c (bind j v m) = if str_eq j k then bind k c m else bind j v (assign_child k c m)

-- delete(csv.store, key)
unfoldable pub delete_child : Str → ValueMap → ValueMap
delete_child k nil = nil
delete_child k (bind j v m) =
    let rest = delete_child k m in if str_eq j k then rest else bind j v rest

-- len(csv.store) == 0
abbrev pub no_children : ValueMap → Bool
no_children nil = true
no_children (bind k c m) = false

-- `notifySubscriber` for every subscriber of a level.
unfoldable pub notify : Str → Option Str → Dict (List KeyValue) → Dict (List KeyValue)
notify key value [] = []
notify key value ((id, sent) ∷ subs) =
    (id, sent ++ (record { key = key; value = value } ∷ [])) ∷ notify key value subs

unfoldable pub notify_level : Str → Option Str → Entry → Entry
notify_level key value e = record e { notify_updates = notify key value e.notify_updates }

-- customTime, or the clock where it is negative.
abbrev pub resolve : ℤ → ℤ → ℤ
resolve custom now = if ltb_ℤ custom (pos 0) then now else custom

-- The node that `SetValue` and `SetValueIfDoesNotExist` build for a new key.
unfoldable pub new_value : Option Str → Bool → ℤ → Entry
new_value value update_in_kv time = record {
  value = value;
  value_exists = true;
  purge_state = 0;
  store_consistency_with_kv_loss_time = pos 0;
  value_update_time = time;
  notify_updates = [];
  sync_needed = update_in_kv;
  synced_with_kv = not update_in_kv;
}

-- The node that `getLastKeyTokenAndItsParentCacheStoreValue` builds for a missing level.
unfoldable pub new_level : ℤ → Entry
new_level now = record {
  value = none;
  value_exists = false;
  purge_state = 0;
  store_consistency_with_kv_loss_time = pos 0;
  value_update_time = now;
  notify_updates = [];
  sync_needed = false;
  synced_with_kv = true;
}

unfoldable pub load_child : Str → StoreValue → Option StoreValue
load_child key csv = find_child key (store csv)

unfoldable pub store_child : Str → StoreValue → StoreValue → StoreValue
store_child key child (store_value e m) =
    store_value (notify_level key (entry child).value e) (assign_child key child m)

-- What `Put` does to the node itself.
unfoldable pub put_entry : Option Str → Bool → ℤ → ℤ → Entry → Entry
put_entry value update_in_kv custom_time now e = record e {
  value = value;
  value_exists = true;
  purge_state = 0;
  value_update_time = resolve custom_time now;
  sync_needed = update_in_kv;
  synced_with_kv = not update_in_kv;
}

-- `Put` on the child `csv` that stands at `key` of its parent.
unfoldable pub put : Str → StoreValue → Option Str → Bool → ℤ → ℤ → StoreValue → StoreValue
put key (store_value e m) value update_in_kv custom_time now (store_value pe pm) =
    store_value (notify_level key value pe)
      (assign_child key (store_value (put_entry value update_in_kv custom_time now e) m) pm)

-- What `Delete` does to the node itself.
unfoldable pub delete_entry : Bool → ℤ → ℤ → Entry → Entry
delete_entry update_in_kv custom_time now e = record e {
  value = none;
  value_exists = false;
  value_update_time = resolve custom_time now;
  purge_state = if update_in_kv then 1 else 2;
  sync_needed = update_in_kv;
  synced_with_kv = not update_in_kv;
}

-- `Delete` on the child `csv` that stands at `key` of its parent.
unfoldable pub delete : Str → StoreValue → Bool → ℤ → ℤ → StoreValue → StoreValue
delete key (store_value e m) update_in_kv custom_time now (store_value pe pm) =
    store_value (notify_level key none pe)
      (assign_child key (store_value (delete_entry update_in_kv custom_time now e) m) pm)

unfoldable pub try_purge_ready : Entry → Entry × Bool
try_purge_ready e = if e.purge_state == 0 then (record e { purge_state = 1 }, true) else (e, false)

unfoldable pub try_purge_confirm : Entry → Entry × Bool
try_purge_confirm e =
    if not e.sync_needed && e.synced_with_kv && e.purge_state == 1
    then (record e { purge_state = 2 }, true)
    else (e, false)

abbrev no_subscribers : Dict (List KeyValue) → Bool
no_subscribers [] = true
no_subscribers (s ∷ subs) = false

-- The guarded purge at the start of `collectGarbage`.
unfoldable pub purge_empty : Entry → ValueMap → Entry
unfolding try_purge_ready try_purge_confirm
purge_empty e m =
    if not e.value_exists && no_children m && e.synced_with_kv
    then (try_purge_confirm (try_purge_ready e).0).0
    else e

-- `canBeDeletedFromParent`.
unfoldable pub can_be_deleted_from_parent : Entry → ValueMap → Bool
can_be_deleted_from_parent e m =
    e.purge_state == 2
    && no_children m
    && not e.sync_needed
    && e.synced_with_kv
    && no_subscribers e.notify_updates

-- `collectGarbage` of the node at a path below `csv`: the subtree that is left, and whether its
-- own parent has to drop it. A parent that dropped a child collects itself in turn.
unfoldable pub collect_garbage : List Str → StoreValue → StoreValue × Bool
unfolding purge_empty can_be_deleted_from_parent
collect_garbage [] (store_value e m) =
    let e' = purge_empty e m in (store_value e' m, can_be_deleted_from_parent e' m)
collect_garbage (t ∷ path) (store_value e m) = elim (find_child t m) [
  | none ↦ (store_value e m, false)
  | some c ↦
      let (c', dropped) = collect_garbage path c in
      elim dropped [
        | false ↦ (store_value e (assign_child t c' m), false)
        | true ↦
            let m' = delete_child t m in
            let e' = purge_empty e m' in (store_value e' m', can_be_deleted_from_parent e' m')
      ]
]

-- `ConsistencyLoss` at one node.
unfoldable pub lose_consistency : ℤ → Entry → Entry
lose_consistency loss_time e =
    if ltb_ℤ e.store_consistency_with_kv_loss_time loss_time
    then record e { store_consistency_with_kv_loss_time = loss_time }
    else e

-- `ConsistencyLoss` of the node at a path: the node and all above it.
unfoldable pub consistency_loss : ℤ → List Str → StoreValue → StoreValue
unfolding lose_consistency
consistency_loss loss_time [] (store_value e m) = store_value (lose_consistency loss_time e) m
consistency_loss loss_time (t ∷ path) (store_value e m) =
    store_value (lose_consistency loss_time e) (elim (find_child t m) [
      | none ↦ m
      | some c ↦ assign_child t (consistency_loss loss_time path c) m
    ])

-- ===== src/Cache/Tests.antt =====
-- Runs of the cache (statefun/cache/cache.go) on small stores.
use foliage_sdk.Common.{true, false, none, some, List, [], ◌∷◌, ◌≡◌, ◌+◌, refl, arith}
use foliage_sdk.Common.Dict.{load, assign}
use foliage_sdk.Common.Int.{pos, negsuc, ltb_ℤ, eqb_ℤ}
use foliage_sdk.Common.Text.{Str, codes, split, dot}
use foliage_sdk.Common.Dict
use foliage_sdk.Common.Text
use foliage_sdk.Cache.Key.{
  is_valid_key, all_edge, is_edge_char, inner_then_edge, is_inner_char, to_store_key,
}
use foliage_sdk.Cache.Key.Laws.{last_token}
use foliage_sdk.Cache.Level.{Clock, tokens_of, at_parent, last_token_and_parent, last_key_value}
use foliage_sdk.Cache.Level.Laws.{Seen, view}
use foliage_sdk.Cache.Level.Frame.{is_level_of}
use foliage_sdk.Cache.Record.{final_bytes, parse_record, record_of}
use foliage_sdk.Cache.Record.Laws.{parse_record-final_bytes}
use foliage_sdk.Cache.Garbage.{collect_garbage_keeps_unconfirmed}
use foliage_sdk.Cache.Store.{
  Store, KvReply, kv_error, set_value, delete_value, get_value, get_value_update_time, value_of,
  failed, does_not_exist, set_child, delete_at, set_missing_child, set_value_if_does_not_exist,
  cached, transaction_begin, transaction_end, Transaction,
}
use foliage_sdk.Cache.Store.Values.{look, IsNamed}
use foliage_sdk.Cache.Store.Reads.{after_set, after_delete}
use foliage_sdk.Cache.Store.Queue.{Change, set, remove, request_all, outside}
use foliage_sdk.Common.{take, ◌++◌}
use foliage_sdk.Common.Text.{join}
use foliage_sdk.Common.{Option}
use foliage_sdk.Cache.Value.{StoreValue}
use foliage_sdk.Cache.Pattern.{Updates, has_key, get_keys_by_pattern, keys_at}
use foliage_sdk.Cache.Subscribe.{subscribe_level_callback, add_subscriber}
use foliage_sdk.Cache.Subscribe.Laws.{sent_to}
use foliage_sdk.Cache.Pattern.Laws.{get_keys_by_pattern_finds}
use foliage_sdk.Cache.Store.RoundTrip.{
  get_value-set_value, get_value-set_value_ne, get_value-set_value_level, get_value-delete_value,
}
use foliage_sdk.Cache.Store.Transactions.{transaction_atomic}
use foliage_sdk.Cache.Sync.{visit_child, put_visited, acknowledge, confirm_update, treshold_time}
use foliage_sdk.Cache.Sync
use foliage_sdk.Cache.Sync.Updates.{summary}
use foliage_sdk.Cache.Sync.Replication.{receive, receive_either_order, receive_deletion}
use foliage_sdk.Cache.Sync.Writer.{write_race}
use foliage_sdk.Cache.Value.{
  Entry, store_value, nil, bind, new_value, new_level, put_entry, delete_entry, put, delete,
  store_child, load_child, find_child, assign_child, notify, notify_level, collect_garbage,
  delete_child, purge_empty, can_be_deleted_from_parent, try_purge_ready, try_purge_confirm,
}

abbrev key_ab : Str
key_ab = codes "a.b"

abbrev key_a : Str
key_a = codes "a"

abbrev key_c : Str
key_c = codes "c"

abbrev clock : Clock
clock i = pos (100 + i)

abbrev empty_store : Store
empty_store = record {
  cache_config = record {
    id = codes "id";
    kv_store_prefix = codes "store";
    lru_size = 2;
    level_subscription_notifications_buffer_max_size = 10;
  };
  root_value = store_value (new_level (negsuc 0)) nil;
  lru_treshold_time = pos 0;
  values_in_cache = 0;
  transactions = [];
}

-- The value 7 at "a.b", written at time 5.
abbrev one_value : Store
one_value = record empty_store {
  root_value = store_value (new_level (negsuc 0)) (
      bind key_a
        (store_value (new_level (pos 4))
          (bind (codes "b") (store_value (new_value (some (7 ∷ [])) true (pos 5)) nil) nil))
        nil);
}

abbrev no_bucket : Str → KvReply
no_bucket key = kv_error (codes "no responders")

abbrev seven : Entry
seven = new_value (some (7 ∷ [])) true (pos 5)

abbrev eight : Entry
eight = new_value (some (8 ∷ [])) true (pos 9)

program : Unit {0}
unfolding is_valid_key all_edge is_edge_char inner_then_edge is_inner_char last_token Text.split
    Text.str_eq Dict.load Dict.assign set_value at_parent set_child get_value cached
    get_value_update_time last_token_and_parent new_value new_level put_entry delete_entry put
    delete store_child load_child find_child assign_child notify notify_level delete_value delete_at
    view last_key_value collect_garbage delete_child purge_empty can_be_deleted_from_parent
    try_purge_ready try_purge_confirm set_missing_child set_value_if_does_not_exist treshold_time
program = tt

valid_ab : is_valid_key key_ab ≡ true
unfolding program
valid_ab = refl

valid_a : is_valid_key key_a ≡ true
unfolding program
valid_a = refl

-- A key may not end in a dot, and may be empty.
dot_at_end : is_valid_key (codes "a.") ≡ false
unfolding program
dot_at_end = refl

key_ab-IsNamed : IsNamed key_ab
unfolding program
key_ab-IsNamed h = cc

key_a-IsNamed : IsNamed key_a
unfolding program
key_a-IsNamed h = cc

key_c-IsNamed : IsNamed key_c
unfolding program
key_c-IsNamed h = cc

set_then_get :
    (get_value no_bucket clock key_ab
      (set_value clock key_ab (7 ∷ []) true (pos 5) [] empty_store).0).1
    ≡ value_of (some (7 ∷ []))
unfolding program
set_then_get = refl

set_twice_only_once :
    (set_value_if_does_not_exist clock key_ab (8 ∷ []) true (pos 5) one_value).1 ≡ false
unfolding program
set_twice_only_once = refl

set_missing : (set_value_if_does_not_exist clock key_c (8 ∷ []) true (pos 5) one_value).1 ≡ true
unfolding program
set_missing = refl

get_value-set_value_example :
    ((set_value clock key_ab (7 ∷ []) true (negsuc 0) [] empty_store).1 ≡ true)
    × ((get_value no_bucket clock key_ab
          (after_set clock key_ab (7 ∷ []) true (negsuc 0) empty_store)).1
        ≡ value_of (some (7 ∷ [])))
    × (get_value_update_time key_ab (after_set clock key_ab (7 ∷ []) true (negsuc 0) empty_store)
        ≡ pos 100)
get_value-set_value_example =
    get_value-set_value no_bucket clock clock key_ab (7 ∷ []) true (negsuc 0) empty_store valid_ab
      (λ h. cc)

c_no_level : is_level_of (tokens_of key_c) (tokens_of key_ab) ≡ false
unfolding program is_level_of
c_no_level = refl

get_value-set_value_ne_example :
    (get_value no_bucket clock key_c (after_set clock key_ab (8 ∷ []) true (pos 9) one_value)).1
    ≡ (get_value no_bucket clock key_c one_value).1
get_value-set_value_ne_example =
    get_value-set_value_ne no_bucket clock clock key_ab (8 ∷ []) key_c true (pos 9) one_value
      valid_ab (λ h. cc) key_c-IsNamed (λ h. cc) c_no_level

a_is_level : is_level_of (tokens_of key_a) (tokens_of key_ab) ≡ true
unfolding program is_level_of
a_is_level = refl

a_not_held : look key_a empty_store ≡ none
unfolding program
a_not_held = refl

get_value-set_value_level_example :
    (get_value no_bucket clock key_a (after_set clock key_ab (7 ∷ []) true (pos 5) empty_store)).1
    ≡ failed (does_not_exist key_a)
get_value-set_value_level_example =
    get_value-set_value_level no_bucket clock clock key_ab (7 ∷ []) key_a true (pos 5) empty_store
      valid_ab (λ h. cc) key_a-IsNamed a_is_level a_not_held

abbrev seen_seven : Seen
seen_seven = record {
  value = some (7 ∷ []);
  value_exists = true;
  purge_state = 0;
  value_update_time = pos 5;
  sync_needed = true;
  synced_with_kv = false;
}

ab_held : look key_ab one_value ≡ some seen_seven
unfolding program
ab_held = refl

get_value-delete_value_example :
    ((get_value no_bucket clock key_ab (after_delete clock key_ab true (pos 9) one_value)).1
      ≡ failed (does_not_exist key_ab))
    × (get_value_update_time key_ab (after_delete clock key_ab true (pos 9) one_value) ≡ negsuc 0)
    × ((get_value no_bucket clock key_c (after_delete clock key_ab true (pos 9) one_value)).1
        ≡ (get_value no_bucket clock key_c one_value).1)
get_value-delete_value_example =
    get_value-delete_value no_bucket clock clock key_ab key_c true (pos 9) one_value seen_seven
      key_ab-IsNamed key_c-IsNamed (λ h. cc) ab_held

collect_garbage_keeps_unconfirmed_example :
    view (tokens_of key_ab) (collect_garbage (key_a ∷ []) one_value.root_value).0 ≡ some seen_seven
collect_garbage_keeps_unconfirmed_example =
    collect_garbage_keeps_unconfirmed (key_a ∷ []) one_value.root_value (tokens_of key_ab)
      seen_seven ab_held refl

abbrev id : Str
id = codes "t1"

abbrev changes : List Change
changes = set key_ab (8 ∷ []) true (pos 9) ∷ remove key_c true (pos 9) ∷ []

none_open : load id empty_store.transactions ≡ none
unfolding program
none_open = refl

transaction_atomic_example :
    let asked = request_all (λ i. clock) id changes (transaction_begin id empty_store) in
    let ended = transaction_end (λ i. clock) id asked in
    (asked.root_value ≡ empty_store.root_value)
    × (ended.root_value ≡ (outside (λ i. clock) (λ i. clock) changes empty_store).root_value)
    × ((j : Str) → load j ended.transactions ≡ load j empty_store.transactions)
transaction_atomic_example =
    transaction_atomic (λ i. clock) (λ i. clock) id changes empty_store refl none_open

abbrev open_once : Transaction
open_once = record { operators = []; begin_counter = 1 }

abbrev opened_store : Store
opened_store = record one_value { transactions = (id, open_once) ∷ [] }

once_open : load id opened_store.transactions ≡ some open_once
unfolding program
once_open = refl

parse_record-final_bytes_example : parse_record (final_bytes seven) ≡ record_of (pos 5) 1 (7 ∷ [])
unfolding new_value
parse_record-final_bytes_example = parse_record-final_bytes seven (omega arith)

receive_either_order_example :
    summary (look key_ab (receive clock key_ab eight (receive clock key_ab seven empty_store).0).0)
    ≡ summary
        (look key_ab (receive clock key_ab seven (receive clock key_ab eight empty_store).0).0)
unfolding new_value
receive_either_order_example =
    receive_either_order clock clock clock clock key_ab seven eight 5 9 empty_store valid_ab
      (λ h. cc) refl refl refl refl (omega arith) (omega arith) (omega arith)

abbrev deleted : Entry
deleted = delete_entry true (pos 9) (pos 9) seven

older : ltb_ℤ (get_value_update_time key_ab one_value) (pos 9) ≡ true
unfolding program
older = refl

receive_deletion_example :
    receive clock key_ab deleted one_value ≡ (one_value, some (to_store_key (codes "store") key_ab))
unfolding delete_entry
receive_deletion_example = receive_deletion clock key_ab deleted one_value (omega arith) refl older

times_differ :
    eqb_ℤ seven.value_update_time (put_entry (some []) true (pos 9) (pos 9) seven).value_update_time
    ≡ false
unfolding program
times_differ = refl

write_race_example :
    put_visited
      (visit_child (pos 0) (new_level (pos 4)))
      (put_entry (some (7 ∷ [])) true (pos 5) (pos 5) (new_level (pos 4)))
    ≡ some []
unfolding new_level
write_race_example = write_race (pos 0) (new_level (pos 4)) (some (7 ∷ [])) (pos 5) (pos 5) refl

threshold_is_five : treshold_time 2 (pos 3 ∷ pos 9 ∷ pos 5 ∷ []) ≡ some (pos 5)
unfolding program Sync.sort_times Sync.insert_time Sync.get_elem?
threshold_is_five = refl

not_held_c : look key_c one_value ≡ none
unfolding program
not_held_c = refl

abbrev no_watch : Str → Option Updates
no_watch key = none

abbrev below_a : StoreValue
below_a =
    store_value (new_level (pos 4))
      (bind (codes "b") (store_value (new_value (some (7 ∷ [])) true (pos 5)) nil) nil)

a_parent :
    last_token_and_parent (tokens_of (codes "a.>")) one_value.root_value ≡ some (codes ">", below_a)
unfolding program
a_parent = refl

b_seen : view (codes "b" ∷ []) below_a ≡ some seen_seven
unfolding program
b_seen = refl

get_keys_by_pattern_finds_example :
    has_key
      (take 2 (codes "a.>") ++ join dot (codes "b" ∷ []))
      (get_keys_by_pattern no_watch (codes "a.>") one_value).1
    ≡ true
get_keys_by_pattern_finds_example =
    get_keys_by_pattern_finds no_watch (codes "a.>") (codes "b") [] one_value below_a seen_seven
      a_parent b_seen refl

-- Deleted values are listed by a pattern that is a key.
lists_deleted :
    (get_keys_by_pattern no_watch key_ab (after_delete clock key_ab true (pos 9) one_value)).1
    ≡ key_ab ∷ []
unfolding program get_keys_by_pattern keys_at
lists_deleted = refl

-- A store after `SubscribeLevelCallback("a.*", "t1")`.
abbrev watched_a : StoreValue
watched_a = store_value (record (new_level (pos 101)) { notify_updates = (id, []) ∷ [] }) nil

abbrev watched : Store
watched = record empty_store {
  root_value = store_value (new_level (negsuc 0)) (bind key_a watched_a nil);
}

subscribes : subscribe_level_callback (λ i. pos 101) (codes "a.*") id empty_store ≡ watched
unfolding program subscribe_level_callback add_subscriber
subscribes = refl

ab_parent :
    last_token_and_parent (tokens_of key_ab) watched.root_value ≡ some (codes "b", watched_a)
unfolding program
ab_parent = refl

nothing_sent : sent_to id watched_a ≡ some []
unfolding program
nothing_sent = refl

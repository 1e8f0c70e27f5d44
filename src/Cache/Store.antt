-- ===== src/Cache/Store.antt =====
-- `Store` of statefun/cache/cache.go: values, deletions, subscriptions and transactions. A call
-- takes the readings of the clock that it makes, and returns the new store.
pub mod Changes
pub mod Values
pub mod Reads
pub mod RoundTrip
pub mod Queue
pub mod Transactions
use foliage_sdk.Common.{
  ℕ, suc, Bool, true, false, not, ◌&&◌, Option, none, some, List, [], ◌∷◌, ◌++◌, ◌==◌, ◌+◌, ◌-◌,
  if◌then◌else◌,
}
use foliage_sdk.Common.Dict.{Dict, load, assign}
use foliage_sdk.Common.Dict
use foliage_sdk.Common.Int.{ℤ, pos, negsuc}
use foliage_sdk.Common.Text.{Str}
use foliage_sdk.Cache.Key.{is_valid_key, to_store_key, from_store_key}
use foliage_sdk.Cache.Level.{Clock, at_parent, last_token_and_parent, last_key_value, tokens_of}
use foliage_sdk.Cache.Record.{KvRecord, empty, short, record_of, parse_record}
use foliage_sdk.Cache.Value.{
  StoreValue, store_value, nil, KeyValue, entry, store, load_child, store_child, put, delete,
  new_value, resolve, new_level,
}

-- statefun/cache/cache_config.go
pub record Config : Type 0 where
  pub id : Str
  pub kv_store_prefix : Str
  pub lru_size : ℕ
  pub level_subscription_notifications_buffer_max_size : ℕ

-- `operator_type`: 0 is set, 1 is delete.
pub record TransactionOperator : Type 0 where
  pub operator_type : ℕ
  pub key : Str
  pub value : Str
  pub update_in_kv : Bool
  pub custom_time : ℤ

pub record Transaction : Type 0 where
  pub operators : List TransactionOperator
  pub begin_counter : ℕ

pub record Store : Type 0 where
  pub cache_config : Config
  pub root_value : StoreValue
  pub lru_treshold_time : ℤ
  pub values_in_cache : ℕ
  pub transactions : Dict Transaction

-- `len(s) == 0`
abbrev pub is_empty : Str → Bool
is_empty [] = true
is_empty (c ∷ s) = false

-- The part of `SetValue` under the parent of the key.
unfoldable pub set_child : Str → Bool → ℤ → ℤ → Str → StoreValue → StoreValue
set_child value update_in_kv time now token parent =
    if is_empty token then parent else elim (load_child token parent) [
      | some csv ↦ put token csv (some value) update_in_kv time now parent
      | none ↦ store_child token (store_value (new_value (some value) update_in_kv time) nil) parent
    ]

-- The part of `SetValueIfDoesNotExist` under the parent of the key, and whether it stored.
unfoldable pub set_missing_child : Str → Bool → ℤ → ℤ → Str → StoreValue → StoreValue × Bool
set_missing_child value update_in_kv time now token parent =
    if is_empty token then (parent, false) else elim (load_child token parent) [
      | some csv ↦ elim (entry csv).value [
        | some v ↦ (parent, false)
        | none ↦
            if (entry csv).value_exists
            then (parent, false)
            else (put token csv (some value) update_in_kv time now parent, true)
      ]
      | none ↦ (
        store_child token (store_value (new_value (some value) update_in_kv time) nil) parent,
        true,
      )
    ]

-- The part of `DeleteValue` under the parent of the key.
unfoldable pub delete_at : Bool → ℤ → ℤ → Str → StoreValue → StoreValue
delete_at update_in_kv time now token parent =
    if is_empty token then parent else elim (load_child token parent) [
      | none ↦ parent
      | some csv ↦
          if (entry csv).value_exists then delete token csv update_in_kv time now parent else parent
    ]

-- A call on a transaction that was begun appends its operator; otherwise it only logs an error.
unfoldable pub enqueue : Str → TransactionOperator → Dict Transaction → Dict Transaction
enqueue transaction_id op ts = elim (load transaction_id ts) [
  | none ↦ ts
  | some t ↦ assign transaction_id (record t { operators = t.operators ++ (op ∷ []) }) ts
]

-- `SetValue`. Reading 0 of the clock is the time of the call, the others are those of the levels.
unfoldable pub set_value : Clock → Str → Str → Bool → ℤ → Str → Store → Store × Bool
set_value clock key value update_in_kv custom_set_time transaction_id s =
    let time = resolve custom_set_time (clock 0) in
    if is_valid_key key
    then (
      if is_empty transaction_id
          then record s {
            root_value =
                at_parent true (λ i. clock (suc i)) (set_child value update_in_kv time (clock 0))
                  (tokens_of key) s.root_value;
          }
          else record s {
            transactions =
                enqueue transaction_id
                  (record {
                    operator_type = 0;
                    key = key;
                    value = value;
                    update_in_kv = update_in_kv;
                    custom_time = time;
                  })
                  s.transactions;
          },
      true,
    )
    else (s, false)

-- `DeleteValue`. The key is not validated.
unfoldable pub delete_value : Clock → Str → Bool → ℤ → Str → Store → Store
delete_value clock key update_in_kv custom_delete_time transaction_id s =
    let time = resolve custom_delete_time (clock 0) in
    if is_empty transaction_id
    then record s {
      root_value =
          at_parent false (λ i. clock (suc i)) (delete_at update_in_kv time (clock 0))
            (tokens_of key) s.root_value;
    }
    else record s {
      transactions =
          enqueue transaction_id
            (record {
              operator_type = 1;
              key = key;
              value = [];
              update_in_kv = update_in_kv;
              custom_time = time;
            })
            s.transactions;
    }

-- The parent's child at the last token of a key, when the token is not empty.
abbrev child_of : Option (Str × StoreValue) → Option StoreValue
child_of none = none
child_of (some (token, parent)) = if is_empty token then none else load_child token parent

unfoldable pub cached : Str → StoreValue → Option StoreValue
cached key root = child_of (last_token_and_parent (tokens_of key) root)

-- The result of a change under a parent that a walk has found.
abbrev pub stored : (Str → StoreValue → StoreValue × Bool) → Option (Str × StoreValue) → Bool
stored set none = false
stored set (some (token, parent)) = (set token parent).1

-- `SetValueIfDoesNotExist`.
unfoldable pub set_value_if_does_not_exist : Clock → Str → Str → Bool → ℤ → Store → Store × Bool
set_value_if_does_not_exist clock key new update_in_kv custom_set_time s =
    let time = resolve custom_set_time (clock 0) in
    let set = set_missing_child new update_in_kv time (clock 0) in
    let walk = λ (f : Str → StoreValue → StoreValue).
      at_parent true (λ i. clock (suc i)) f (tokens_of key) s.root_value in
    if is_valid_key key
    then (
      record s { root_value = walk (λ token parent. (set token parent).0) },
      stored set (last_token_and_parent (tokens_of key) (walk (λ token parent. parent))),
    )
    else (s, false)

-- `GetValueUpdateTime`: -1 where the value does not exist.
unfoldable pub get_value_update_time : Str → Store → ℤ
get_value_update_time key s = elim (cached key s.root_value) [
  | none ↦ negsuc 0
  | some csv ↦ if (entry csv).value_exists then (entry csv).value_update_time else negsuc 0
]

pub data Error : Type 0 where
  does_not_exist : Str → Error
  not_a_json : Str → Error
  from_kv : Str → Error

-- `panic` is the fault of a slice out of range.
pub data Fetched : Type 0 where
  value_of : Option Str → Fetched
  failed : Error → Fetched
  panic : Fetched

-- What `kv.Get` of the bucket answers: an entry with its key and value, or an error.
pub data KvReply : Type 0 where
  entry_of : Str → Str → KvReply
  kv_error : Str → KvReply

-- `valueBytes[9:]` of a record with fewer than nine bytes is out of range.
unfoldable pub fetch_record : Clock → Str → KvRecord → Store → Store × Fetched
fetch_record clock key empty s = (s, panic)
fetch_record clock key short s = (s, panic)
fetch_record clock key (record_of time flag value) s =
    if flag == 1
    then ((set_value clock key value false time [] s).0, value_of (some value))
    else (s, value_of (some value))

-- The cache miss of `GetValue`.
unfoldable pub fetch : Clock → KvReply → Store → Store × Fetched
fetch clock (kv_error e) s = (s, failed (from_kv e))
fetch clock (entry_of store_key bytes) s =
    fetch_record clock (from_store_key s.cache_config.kv_store_prefix store_key)
      (parse_record bytes) s

module _ (kv_get : Str → KvReply) where
  -- `GetValue`.
  unfoldable pub get_value : Clock → Str → Store → Store × Fetched
  get_value clock key s = elim (cached key s.root_value) [
    | some csv ↦ (
      s,
      if (entry csv).value_exists then value_of (entry csv).value else failed (does_not_exist key),
    )
    | none ↦ fetch clock (kv_get (to_store_key s.cache_config.kv_store_prefix key)) s
  ]

-- `TransactionBegin`.
unfoldable pub transaction_begin : Str → Store → Store
transaction_begin id s = elim (load id s.transactions) [
  | some t ↦ record s {
    transactions = assign id (record t { begin_counter = t.begin_counter + 1 }) s.transactions;
  }
  | none ↦ record s {
    transactions = assign id (record { operators = []; begin_counter = 1 }) s.transactions;
  }
]

-- One round of the loop of `TransactionEnd`.
unfoldable pub apply_operator : Clock → TransactionOperator → Store → Store
apply_operator clock op s =
    if op.operator_type == 0
    then (set_value clock op.key op.value op.update_in_kv op.custom_time [] s).0
    else if op.operator_type == 1
    then delete_value clock op.key op.update_in_kv op.custom_time [] s
    else s

-- The loop of `TransactionEnd`; `clocks i` has the readings that round `i` makes.
unfoldable pub apply_operators : (ℕ → Clock) → List TransactionOperator → Store → Store
apply_operators clocks [] s = s
apply_operators clocks (op ∷ ops) s =
    apply_operators (λ i. clocks (suc i)) ops (apply_operator (clocks 0) op s)

abbrev pub forget : Str → Store → Store
forget id s = record s { transactions = Dict.delete id s.transactions }

-- `TransactionEnd`. The counter of a transaction that was begun is at least 1.
unfoldable pub transaction_end : (ℕ → Clock) → Str → Store → Store
transaction_end clocks id s = elim (load id s.transactions) [
  | none ↦ s
  | some t ↦
      let left = t.begin_counter - 1 in
      let counted = record s {
        transactions = assign id (record t { begin_counter = left }) s.transactions;
      } in
      if left == 0 then forget id (apply_operators clocks t.operators counted) else counted
]

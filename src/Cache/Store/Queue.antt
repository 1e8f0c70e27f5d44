-- ===== src/Cache/Store/Queue.antt =====
-- What the calls of a client queue in an open transaction of the cache
-- (statefun/cache/cache.go).
use foliage_sdk.Common.{
  ℕ, suc, Bool, true, false, some, List, [], ◌∷◌, ◌++◌, ◌≡◌, refl, ◌∙◌, arith, inl, inr, Bool-cases,
  if◌then◌else◌,
}
use mathlib.Core.List.{append-nil, append_assoc}
use foliage_sdk.Common.Dict.{Dict, load, load-assign}
use foliage_sdk.Common.Int.{ℤ}
use foliage_sdk.Common.Text.{Str, str_eq, str_eq_iff}
use foliage_sdk.Cache.Key.{is_valid_key}
use foliage_sdk.Cache.Level.{Clock}
use foliage_sdk.Cache.Value.{resolve}
use foliage_sdk.Cache.Store.{
  Store, Transaction, TransactionOperator, enqueue, set_value, delete_value, apply_operator,
  apply_operators, is_empty,
}

-- A change that a client asks for.
pub data Change : Type 0 where
  set : Str → Str → Bool → ℤ → Change
  remove : Str → Bool → ℤ → Change

-- The call for a change, in the transaction `id`.
unfoldable pub request : Clock → Str → Change → Store → Store
request clock id (set key value upd custom) s = (set_value clock key value upd custom id s).0
request clock id (remove key upd custom) s = delete_value clock key upd custom id s

unfoldable pub request_all : (ℕ → Clock) → Str → List Change → Store → Store
request_all clocks id [] s = s
request_all clocks id (c ∷ cs) s =
    request_all (λ i. clocks (suc i)) id cs (request (clocks 0) id c s)

-- The operators that a change is queued as: none for a key that is not valid.
unfoldable pub queued : Clock → Change → List TransactionOperator
queued clock (set key value upd custom) =
    if is_valid_key key
    then record {
      operator_type = 0;
      key = key;
      value = value;
      update_in_kv = upd;
      custom_time = resolve custom (clock 0);
    }
      ∷ []
    else []
queued clock (remove key upd custom) =
    record {
      operator_type = 1;
      key = key;
      value = [];
      update_in_kv = upd;
      custom_time = resolve custom (clock 0);
    }
    ∷ []

unfoldable pub queued_all : (ℕ → Clock) → List Change → List TransactionOperator
queued_all clocks [] = []
queued_all clocks (c ∷ cs) = queued (clocks 0) c ++ queued_all (λ i. clocks (suc i)) cs

-- The changes, asked for one after another outside any transaction, with the times of `asked` where
-- the client gives none. A set of a key that is not valid is no change.
unfoldable pub outside : (asked ended : ℕ → Clock) → List Change → Store → Store
outside asked ended [] s = s
outside asked ended (set key value upd custom ∷ cs) s =
    if is_valid_key key
    then outside (λ i. asked (suc i)) (λ i. ended (suc i)) cs
        (set_value (ended 0) key value upd (resolve custom (asked 0 0)) [] s).0
    else outside (λ i. asked (suc i)) ended cs s
outside asked ended (remove key upd custom ∷ cs) s =
    outside (λ i. asked (suc i)) (λ i. ended (suc i)) cs
      (delete_value (ended 0) key upd (resolve custom (asked 0 0)) [] s)

-- The loop over what the changes are queued as does what the changes do outside a transaction.
pub apply_operators-queued_all :
    (asked ended : ℕ → Clock) (cs : List Change) (s : Store)
    → apply_operators ended (queued_all asked cs) s ≡ outside asked ended cs s
unfolding apply_operators apply_operator queued_all queued outside
apply_operators-queued_all asked ended [] s = refl
apply_operators-queued_all asked ended (set key value upd custom ∷ cs) s =
    elim (Bool-cases (is_valid_key key)) [
      | inl e ↦ rw e (apply_operators-queued_all (λ i. asked (suc i)) (λ i. ended (suc i)) cs _)
      | inr e ↦ rw e (apply_operators-queued_all (λ i. asked (suc i)) ended cs s)
    ]
apply_operators-queued_all asked ended (remove key upd custom ∷ cs) s =
    apply_operators-queued_all (λ i. asked (suc i)) (λ i. ended (suc i)) cs _

-- What a transaction's entry holds while its operators are `ops`.
abbrev pub opened : ℕ → List TransactionOperator → Transaction
opened n ops = record { operators = ops; begin_counter = n }

pub load-enqueue :
    (j id : Str) (op : TransactionOperator) (ts : Dict Transaction) (n : ℕ)
    (ops : List TransactionOperator)
    → load id ts ≡ some (opened n ops)
    → load j (enqueue id op ts)
      ≡ (if str_eq id j then some (opened n (ops ++ (op ∷ []))) else load j ts)
unfolding enqueue
load-enqueue j id op ts n ops h =
    rw (h, enqueue) (load-assign j id (opened n (ops ++ (op ∷ []))) ts)

-- A request in an open transaction touches nothing but the queue of that transaction.
pub record Queues (id : Str) (s s' : Store) (n : ℕ) (ops : List TransactionOperator) : Type 0 where
  pub same_root : s'.root_value ≡ s.root_value
  pub mine : load id s'.transactions ≡ some (opened n ops)
  pub others : (j : Str) → str_eq id j ≡ false → load j s'.transactions ≡ load j s.transactions

queue_one :
    (id : Str) (op : TransactionOperator) (s : Store) (n : ℕ) (ops : List TransactionOperator)
    → load id s.transactions ≡ some (opened n ops)
    → Queues id s (record s { transactions = enqueue id op s.transactions }) n (ops ++ (op ∷ []))
queue_one id op s n ops h = record {
  same_root = refl;
  mine = ground (arith, load-enqueue id id op s.transactions n ops h, str_eq_iff id id);
  others = λ j e. load-enqueue j id op s.transactions n ops h ∙ rw e refl;
}

queue_none :
    (id : Str) (s : Store) (n : ℕ) (ops : List TransactionOperator)
    → load id s.transactions ≡ some (opened n ops)
    → Queues id s s n (ops ++ [])
queue_none id s n ops h = record { same_root = refl; mine = rw append-nil h; others = λ j e. refl }

set_value-queues :
    (clock : Clock) (id key value : Str) (upd : Bool) (custom : ℤ) (s : Store)
    → is_empty id ≡ false
    → is_valid_key key ≡ true
    → (set_value clock key value upd custom id s).0 ≡ record s {
      transactions =
          enqueue id
            (record {
              operator_type = 0;
              key = key;
              value = value;
              update_in_kv = upd;
              custom_time = resolve custom (clock 0);
            })
            s.transactions;
    }
unfolding set_value
set_value-queues clock id key value upd custom s named valid = ground arith

set_value-invalid :
    (clock : Clock) (id key value : Str) (upd : Bool) (custom : ℤ) (s : Store)
    → is_valid_key key ≡ false
    → (set_value clock key value upd custom id s).0 ≡ s
unfolding set_value
set_value-invalid clock id key value upd custom s invalid = ground arith

delete_value-queues :
    (clock : Clock) (id key : Str) (upd : Bool) (custom : ℤ) (s : Store)
    → is_empty id ≡ false
    → delete_value clock key upd custom id s ≡ record s {
      transactions =
          enqueue id
            (record {
              operator_type = 1;
              key = key;
              value = [];
              update_in_kv = upd;
              custom_time = resolve custom (clock 0);
            })
            s.transactions;
    }
unfolding delete_value
delete_value-queues clock id key upd custom s named = ground arith

request-Queues :
    (clock : Clock) (id : Str) (c : Change) (s : Store) (n : ℕ) (ops : List TransactionOperator)
    → is_empty id ≡ false
    → load id s.transactions ≡ some (opened n ops)
    → Queues id s (request clock id c s) n (ops ++ queued clock c)
unfolding request queued
request-Queues clock id (set key value upd custom) s n ops named h =
    elim (Bool-cases (is_valid_key key)) [
      | inl e ↦
          rw (e, set_value-queues clock id key value upd custom s named e)
            (queue_one id _ s n ops h)
      | inr e ↦
          rw (e, set_value-invalid clock id key value upd custom s e) (queue_none id s n ops h)
    ]
request-Queues clock id (remove key upd custom) s n ops named h =
    rw (delete_value-queues clock id key upd custom s named) (queue_one id _ s n ops h)

Queues-trans :
    (id : Str) (r s t : Store) (n : ℕ) (ops ops' : List TransactionOperator)
    → Queues id r s n ops
    → Queues id s t n ops'
    → Queues id r t n ops'
Queues-trans id r s t n ops ops' p q = record {
  same_root = q.same_root ∙ p.same_root;
  mine = q.mine;
  others = λ j e. q.others j e ∙ p.others j e;
}

pub request_all-Queues :
    (clocks : ℕ → Clock) (id : Str) (cs : List Change) (s : Store) (n : ℕ)
    (ops : List TransactionOperator)
    → is_empty id ≡ false
    → load id s.transactions ≡ some (opened n ops)
    → Queues id s (request_all clocks id cs s) n (ops ++ queued_all clocks cs)
unfolding request_all queued_all
request_all-Queues clocks id [] s n ops named h = queue_none id s n ops h
request_all-Queues clocks id (c ∷ cs) s n ops named h =
    let first = request-Queues (clocks 0) id c s n ops named h in
    Queues-trans id s _ _ n _ _ first (
      rw (← append_assoc) (
        request_all-Queues (λ i. clocks (suc i)) id cs (request (clocks 0) id c s) n
          (ops ++ queued (clocks 0) c) named first.mine))

-- What an operator does to the tree depends on the tree alone, and it leaves the transactions.
apply_operator_tree :
    (clock : Clock) (op : TransactionOperator) (s t : Store)
    → s.root_value ≡ t.root_value
    → (apply_operator clock op s).root_value ≡ (apply_operator clock op t).root_value
unfolding apply_operator set_value delete_value
apply_operator_tree clock op s t h = ground arith

apply_operator_transactions :
    (clock : Clock) (op : TransactionOperator) (s : Store)
    → (apply_operator clock op s).transactions ≡ s.transactions
unfolding apply_operator set_value delete_value
apply_operator_transactions clock op s = ground arith

pub apply_operators_tree :
    (clocks : ℕ → Clock) (ops : List TransactionOperator) (s t : Store)
    → s.root_value ≡ t.root_value
    → (apply_operators clocks ops s).root_value ≡ (apply_operators clocks ops t).root_value
unfolding apply_operators
apply_operators_tree clocks [] s t h = h
apply_operators_tree clocks (op ∷ ops) s t h =
    apply_operators_tree (λ i. clocks (suc i)) ops _ _ (apply_operator_tree (clocks 0) op s t h)

pub apply_operators_transactions :
    (clocks : ℕ → Clock) (ops : List TransactionOperator) (s : Store)
    → (apply_operators clocks ops s).transactions ≡ s.transactions
unfolding apply_operators
apply_operators_transactions clocks [] s = refl
apply_operators_transactions clocks (op ∷ ops) s =
    apply_operators_transactions (λ i. clocks (suc i)) ops _
    ∙ apply_operator_transactions (clocks 0) op s

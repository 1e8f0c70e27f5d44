-- ===== src/Cache/Store/Transactions.antt =====
-- Transactions of the cache: what the last end applies (statefun/cache/cache.go).
use foliage_sdk.Common.{
  ℕ, false, none, some, List, [], ◌==◌, ◌+◌, ◌-◌, ◌≤◌, ◌≡◌, refl, ap, ◌∙◌, sym, arith, inl, inr,
  Bool-cases, if◌then◌else◌,
}
use foliage_sdk.Common.Dict.{Dict, load, assign, load-assign, load-delete}
use foliage_sdk.Common.Dict
use foliage_sdk.Common.Text.{Str, str_eq, str_eq_iff}
use foliage_sdk.Cache.Level.{Clock}
use foliage_sdk.Cache.Store.{
  Store, Transaction, TransactionOperator, transaction_begin, transaction_end, apply_operators,
  is_empty, forget,
}
use foliage_sdk.Cache.Store.Queue.{
  Change, request_all, queued_all, outside, apply_operators-queued_all, opened, request_all-Queues,
  apply_operators_tree, apply_operators_transactions,
}

abbrev counted : Str → ℕ → List TransactionOperator → Store → Store
counted id n ops s = record s { transactions = assign id (opened n ops) s.transactions }

end_shape :
    (clocks : ℕ → Clock) (id : Str) (n : ℕ) (ops : List TransactionOperator) (s : Store)
    → load id s.transactions ≡ some (opened n ops)
    → transaction_end clocks id s ≡ (
        if n - 1 == 0
        then forget id (apply_operators clocks ops (counted id (n - 1) ops s))
        else counted id (n - 1) ops s)
unfolding transaction_end
end_shape clocks id n ops s h = rw (h, transaction_end) refl

begin_first :
    (id : Str) (s : Store)
    → load id s.transactions ≡ none
    → transaction_begin id s ≡ counted id 1 [] s
unfolding transaction_begin
begin_first id s h = rw (h, transaction_begin) refl

begin_again :
    (id : Str) (s : Store) (n : ℕ) (ops : List TransactionOperator)
    → load id s.transactions ≡ some (opened n ops)
    → transaction_begin id s ≡ counted id (n + 1) ops s
unfolding transaction_begin
begin_again id s n ops h = rw (h, transaction_begin) refl

load-counted :
    (j id : Str) (n : ℕ) (ops : List TransactionOperator) (s : Store)
    → load j (counted id n ops s).transactions
      ≡ (if str_eq id j then some (opened n ops) else load j s.transactions)
load-counted j id n ops s = load-assign j id (opened n ops) s.transactions

load-counted_self :
    (id : Str) (n : ℕ) (ops : List TransactionOperator) (s : Store)
    → load id (counted id n ops s).transactions ≡ some (opened n ops)
load-counted_self id n ops s = ground (arith, load-counted id id n ops s, str_eq_iff id id)

-- The end of a transaction that was begun once: its operators are applied to the tree, and the
-- entry is dropped.
end_once :
    (clocks : ℕ → Clock) (id : Str) (ops : List TransactionOperator) (s : Store)
    → load id s.transactions ≡ some (opened 1 ops)
    → ((transaction_end clocks id s).root_value ≡ (apply_operators clocks ops s).root_value)
      × ((j : Str)
          → load j (transaction_end clocks id s).transactions
            ≡ (if str_eq id j then none else load j s.transactions))
end_once clocks id ops s h = (
  ap (λ (t : Store). t.root_value) (end_shape clocks id 1 ops s h)
      ∙ apply_operators_tree clocks ops (counted id 0 ops s) s refl,
  λ j.
      ap (λ (t : Store). load j t.transactions) (end_shape clocks id 1 ops s h)
      ∙ ap (λ (ts : Dict Transaction). load j (Dict.delete id ts))
          (apply_operators_transactions clocks ops (counted id 0 ops s))
      ∙ ground
          (arith, load-delete j id (counted id 0 ops s).transactions, load-counted j id 0 ops s),
)

-- A transaction is all or nothing: until its end the tree is as it was, however many changes are
-- asked for in it, and the end makes of the tree what the same calls of SetValue and DeleteValue,
-- one after another outside any transaction, make of it, with the times at which they were asked
-- for; it drops the transaction and keeps the others. The id is not empty and no transaction of that
-- id is open before. A set of a key that is not valid is no change.
pub transaction_atomic :
    (clocks end_clocks : ℕ → Clock) (id : Str) (cs : List Change) (s : Store)
    → is_empty id ≡ false
    → load id s.transactions ≡ none
    → let asked = request_all clocks id cs (transaction_begin id s) in
      let ended = transaction_end end_clocks id asked in
      (asked.root_value ≡ s.root_value)
      × (ended.root_value ≡ (outside clocks end_clocks cs s).root_value)
      × ((j : Str) → load j ended.transactions ≡ load j s.transactions)
transaction_atomic clocks end_clocks id cs s named fresh =
    let begun : Store = counted id 1 [] s in
    let q = request_all-Queues clocks id cs begun 1 [] named (load-counted_self id 1 [] s) in
    let ended =
      end_once end_clocks id (queued_all clocks cs) (request_all clocks id cs begun) q.mine in
    rw (begin_first id s fresh) (
      q.same_root,
      ended.0
          ∙ apply_operators_tree end_clocks (queued_all clocks cs) _ s q.same_root
          ∙ ap (λ (t : Store). t.root_value) (apply_operators-queued_all clocks end_clocks cs s),
      λ j. elim (Bool-cases (str_eq id j)) [
        | inl e ↦
            ended.1 j ∙ rw e (sym fresh ∙ ap (λ k. load k s.transactions) ((str_eq_iff id j).0 e))
        | inr e ↦ ended.1 j ∙ rw e (q.others j e ∙ load-counted j id 1 [] s ∙ rw e refl)
      ],
    )

-- A begin and an end inside an open transaction cancel out: nothing is applied, and every
-- transaction reads as before. The counter of the open transaction is at least 1.
transaction_nested :
    (clocks : ℕ → Clock) (id j : Str) (s : Store) (t : Transaction)
    → load id s.transactions ≡ some t
    → 1 ≤ t.begin_counter
    → ((transaction_end clocks id (transaction_begin id s)).root_value ≡ s.root_value)
      × (load j (transaction_end clocks id (transaction_begin id s)).transactions
          ≡ load j s.transactions)
transaction_nested clocks id j s t h some_left =
    let n = t.begin_counter in
    let s1 : Store = counted id (n + 1) t.operators s in
    let ended =
      end_shape clocks id (n + 1) t.operators s1 (load-counted_self id (n + 1) t.operators s) in
    rw (begin_again id s n t.operators h) (
      ap (λ (u : Store). u.root_value) ended ∙ ground arith,
      ap (λ (u : Store). load j u.transactions) ended
          ∙ ground (
            arith,
            load-counted j id (n + 1 - 1) t.operators s1,
            load-counted j id (n + 1) t.operators s,
            str_eq_iff id j,
          ),
    )

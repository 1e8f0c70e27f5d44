-- ===== src/Cache/Garbage.antt =====
-- `collectGarbage` of statefun/cache/cache.go, and values that the bucket has not confirmed.
use foliage_sdk.Common.{
  true, false, none, some, List, [], ◌∷◌, ◌≡◌, refl, ap, ◌∙◌, sym, arith, inl, inr, Bool-cases,
  Option-cases, if◌then◌else◌,
}
use foliage_sdk.Common.Text.{Str, str_eq, str_eq_iff}
use foliage_sdk.Cache.Level.Laws.{Seen, seen_of, view, view_here, view_step, find-delete_child}
use foliage_sdk.Cache.Level.Frame.{view_replaced}
use foliage_sdk.Cache.Value.{
  Entry, StoreValue, ValueMap, store_value, nil, bind, find_child, assign_child, delete_child,
  purge_empty, can_be_deleted_from_parent, collect_garbage,
}

view_dropped :
    (t x : Str) (q : List Str) (e' e : Entry) (m : ValueMap)
    → view (x ∷ q) (store_value e' (delete_child t m))
      ≡ (if str_eq t x then none else view (x ∷ q) (store_value e m))
view_dropped t x q e' e m = ground (
  arith,
  view_step x q (store_value e' (delete_child t m)),
  view_step x q (store_value e m),
  find-delete_child x t m,
)

view_entry :
    (x : Str) (q : List Str) (e' e : Entry) (m : ValueMap)
    → view (x ∷ q) (store_value e' m) ≡ view (x ∷ q) (store_value e m)
view_entry x q e' e m = view_step x q (store_value e' m) ∙ sym (view_step x q (store_value e m))

-- An entry that is not confirmed is left alone.
purge_empty_unconfirmed :
    (e : Entry) (m : ValueMap) → e.synced_with_kv ≡ false → purge_empty e m ≡ e
unfolding purge_empty
purge_empty_unconfirmed e m h = ground arith

purge_empty_synced :
    (e : Entry) (m : ValueMap) → (purge_empty e m).synced_with_kv ≡ e.synced_with_kv
unfolding purge_empty
purge_empty_synced e m = ground arith

-- All that is seen in a tree is confirmed.
abbrev AllConfirmed : StoreValue → Type 0
AllConfirmed csv = (q : List Str) (n : Seen) → view q csv ≡ some n → n.synced_with_kv ≡ true

deletable_confirmed :
    (e : Entry) (m : ValueMap)
    → can_be_deleted_from_parent e m ≡ true
    → AllConfirmed (store_value e m)
unfolding can_be_deleted_from_parent find_child
deletable_confirmed e nil h [] n v = ground (arith, view_here e nil)
deletable_confirmed e nil h (x ∷ q) n v = ground (arith, view_step x q (store_value e nil))
deletable_confirmed e (bind k c m) h q n v = absurd (ground arith)

-- What the collection of a level below does to a node.
step_kept :
    (t : Str) (path : List Str) (e : Entry) (m : ValueMap) (c : StoreValue)
    → find_child t m ≡ some c
    → (collect_garbage path c).1 ≡ false
    → collect_garbage (t ∷ path) (store_value e m)
      ≡ (store_value e (assign_child t (collect_garbage path c).0 m), false)
unfolding collect_garbage
step_kept t path e m c h r = ground arith

step_dropped :
    (t : Str) (path : List Str) (e : Entry) (m : ValueMap) (c : StoreValue)
    → find_child t m ≡ some c
    → (collect_garbage path c).1 ≡ true
    → collect_garbage (t ∷ path) (store_value e m) ≡ (
      store_value (purge_empty e (delete_child t m)) (delete_child t m),
      can_be_deleted_from_parent (purge_empty e (delete_child t m)) (delete_child t m),
    )
unfolding collect_garbage
step_dropped t path e m c h r = rw (h, collect_garbage) (rw (r, collect_garbage) refl)

step_missing :
    (t : Str) (path : List Str) (e : Entry) (m : ValueMap)
    → find_child t m ≡ none
    → collect_garbage (t ∷ path) (store_value e m) ≡ (store_value e m, false)
unfolding collect_garbage
step_missing t path e m h = rw (h, collect_garbage) refl

dropped_below :
    (t : Str) (e : Entry) (m : ValueMap) (c : StoreValue)
    → find_child t m ≡ some c
    → AllConfirmed c
    → can_be_deleted_from_parent (purge_empty e (delete_child t m)) (delete_child t m) ≡ true
    → AllConfirmed (store_value e m)
dropped_below t e m c found below h [] n v =
    let e' = purge_empty e (delete_child t m) in
    ground (
      arith,
      view_here e m,
      purge_empty_synced e (delete_child t m),
      view_here e' (delete_child t m),
      deletable_confirmed e' (delete_child t m) h [] (seen_of e') (view_here e' (delete_child t m)),
    )
dropped_below t e m c found below h (x ∷ q) n v =
    let e' = purge_empty e (delete_child t m) in
    ground (
      arith,
      view_step x q (store_value e m),
      view_dropped t x q e' e m,
      str_eq_iff t x,
      below q n,
      deletable_confirmed e' (delete_child t m) h (x ∷ q) n,
    )

-- A node that its parent is to drop shows nothing that is not confirmed, before the collection too.
dropped_lem :
    (path : List Str) (csv : StoreValue) → (collect_garbage path csv).1 ≡ true → AllConfirmed csv
unfolding collect_garbage
dropped_lem [] (store_value e m) h [] n v = ground (
  arith,
  view_here e m,
  purge_empty_synced e m,
  view_here (purge_empty e m) m,
  deletable_confirmed (purge_empty e m) m h [] (seen_of (purge_empty e m))
      (view_here (purge_empty e m) m),
)
dropped_lem [] (store_value e m) h (x ∷ q) n v =
    deletable_confirmed (purge_empty e m) m h (x ∷ q) n (view_entry x q (purge_empty e m) e m ∙ v)
dropped_lem (t ∷ path) (store_value e m) h q n v = elim (Option-cases (find_child t m)) [
  | inl missing ↦ absurd (ground (arith, step_missing t path e m missing))
  | inr (c, found) ↦ elim (Bool-cases (collect_garbage path c).1) [
    | inr kept ↦ absurd (ground (arith, step_kept t path e m c found kept))
    | inl dropped ↦
        dropped_below t e m c found (dropped_lem path c dropped)
          (sym (ap (λ r. r.1) (step_dropped t path e m c found dropped)) ∙ h) q n v
  ]
]

kept_below :
    (t : Str) (e : Entry) (m : ValueMap) (c c' : StoreValue)
    → find_child t m ≡ some c
    → (q : List Str) (n : Seen) → ((q' : List Str) → view q' c ≡ some n → view q' c' ≡ some n)
    → view q (store_value e m) ≡ some n
    → view q (store_value e (assign_child t c' m)) ≡ some n
kept_below t e m c c' found [] n below v =
    view_here e (assign_child t c' m) ∙ sym (view_here e m) ∙ v
kept_below t e m c c' found (x ∷ q) n below v =
    ground (
      arith,
      view_step x q (store_value e m),
      view_replaced t x q e e m c',
      str_eq_iff t x,
      below q,
    )

dropped_kept :
    (t : Str) (e : Entry) (m : ValueMap) (c : StoreValue)
    → find_child t m ≡ some c
    → AllConfirmed c
    → (q : List Str) (n : Seen) → view q (store_value e m) ≡ some n
    → n.synced_with_kv ≡ false
    → view q (store_value (purge_empty e (delete_child t m)) (delete_child t m)) ≡ some n
dropped_kept t e m c found below [] n v h =
    let m' = delete_child t m in
    ground (arith, view_here e m, view_here (purge_empty e m') m', purge_empty_unconfirmed e m')
dropped_kept t e m c found below (x ∷ q) n v h = ground (
  arith,
  view_step x q (store_value e m),
  view_dropped t x q (purge_empty e (delete_child t m)) e m,
  str_eq_iff t x,
  below q n,
)

-- `collectGarbage`, at any node and on up through its parents, leaves what is seen of every value that
-- the bucket has not confirmed as it was.
pub collect_garbage_keeps_unconfirmed :
    (path : List Str) (csv : StoreValue) (q : List Str) (n : Seen)
    → view q csv ≡ some n
    → n.synced_with_kv ≡ false
    → view q (collect_garbage path csv).0 ≡ some n
unfolding collect_garbage
collect_garbage_keeps_unconfirmed [] (store_value e m) [] n v h =
    ground (arith, view_here e m, view_here (purge_empty e m) m, purge_empty_unconfirmed e m)
collect_garbage_keeps_unconfirmed [] (store_value e m) (x ∷ q) n v h =
    view_entry x q (purge_empty e m) e m ∙ v
collect_garbage_keeps_unconfirmed (t ∷ path) (store_value e m) q n v h =
    elim (Option-cases (find_child t m)) [
      | inl missing ↦ ap (λ r. view q r.0) (step_missing t path e m missing) ∙ v
      | inr (c, found) ↦ elim (Bool-cases (collect_garbage path c).1) [
        | inr kept ↦
            ap (λ r. view q r.0) (step_kept t path e m c found kept)
            ∙ kept_below t e m c (collect_garbage path c).0 found q n
                (λ q' v'. collect_garbage_keeps_unconfirmed path c q' n v' h) v
        | inl dropped ↦
            ap (λ r. view q r.0) (step_dropped t path e m c found dropped)
            ∙ dropped_kept t e m c found (dropped_lem path c dropped) q n v h
      ]
    ]

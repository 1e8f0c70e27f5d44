-- ===== src/Cache/Store/Changes.antt =====
-- What `SetValue` and `DeleteValue` change under the parent of a key (statefun/cache/cache.go).
use foliage_sdk.Common.{
  Bool, true, false, not, Option, none, some, List, [], ◌∷◌, ◌≡◌, ◌≢◌, refl, ap, ◌∙◌, sym, arith,
  inl, inr, Bool-cases, Option-cases, if◌then◌else◌,
}
use foliage_sdk.Common.Int.{ℤ, pos, negsuc}
use foliage_sdk.Common.Text.{Str, str_eq_iff}
use foliage_sdk.Cache.Level.{last_key_value}
use foliage_sdk.Cache.Level.Laws.{Seen, seen_of, view, view_step}
use foliage_sdk.Cache.Level.Frame.{Local, view_replaced}
use foliage_sdk.Cache.Level.Effect.{Acts}
use foliage_sdk.Cache.Value.{
  Entry, ValueMap, StoreValue, store_value, nil, entry, store, find_child, load_child, store_child,
  put, put_entry, delete, delete_entry, new_value, resolve, notify_level, assign_child,
}
use foliage_sdk.Cache.Store.{set_child, delete_at, is_empty}

-- What is seen of a value that was just set.
abbrev pub fresh : Str → Bool → ℤ → Seen
fresh value update_in_kv time = record {
  value = some value;
  value_exists = true;
  purge_state = 0;
  value_update_time = time;
  sync_needed = update_in_kv;
  synced_with_kv = not update_in_kv;
}

resolve_twice : (custom now : ℤ) → resolve (resolve custom now) now ≡ resolve custom now
resolve_twice (pos n) now = ground arith
resolve_twice (negsuc n) now = ground arith

not_empty : (t : Str) → t ≢ [] → is_empty t ≡ false
not_empty [] ne = absurd (ne refl)
not_empty (c ∷ t) ne = refl

view_top : (e : Entry) (m : ValueMap) → view [] (store_value e m) ≡ some (seen_of e)
unfolding view last_key_value
view_top e m = refl

-- Nothing is seen below a node that depends on its entry.
view_below_entry :
    (y : Str) (q : List Str) (e e' : Entry) (m : ValueMap)
    → view (y ∷ q) (store_value e m) ≡ view (y ∷ q) (store_value e' m)
view_below_entry y q e e' m =
    view_step y q (store_value e m) ∙ sym (view_step y q (store_value e' m))

view_nothing : (y : Str) (q : List Str) (e : Entry) → view (y ∷ q) (store_value e nil) ≡ none
unfolding find_child
view_nothing y q e = view_step y q (store_value e nil)

seen_of-notify_level :
    (t : Str) (v : Option Str) (e : Entry) → seen_of (notify_level t v e) ≡ seen_of e
unfolding notify_level
seen_of-notify_level t v e = refl

-- A node whose child at `t` was exchanged for one with the same levels below, and whose
-- subscribers were told, looks the same but at `t`.
exchanged-Local :
    (t : Str) (v : Option Str) (e e' e'' : Entry) (m m' m'' : ValueMap) (q : List Str)
    → find_child t m ≡ some (store_value e' m')
    → m'' ≡ m'
    → q ≢ (t ∷ [])
    → view q (store_value (notify_level t v e) (assign_child t (store_value e'' m'') m))
      ≡ view q (store_value e m)
exchanged-Local t v e e' e'' m m' m'' [] h same ne =
    view_top _ _ ∙ ap some (seen_of-notify_level t v e) ∙ sym (view_top e m)
exchanged-Local t v e e' e'' m m' m'' (x ∷ []) h same ne =
    ground (
      arith,
      view_replaced t x [] (notify_level t v e) e m (store_value e'' m''),
      str_eq_iff t x,
      ne,
    )
exchanged-Local t v e e' e'' m m' m'' (x ∷ y ∷ q) h same ne = ground (
  arith,
  view_replaced t x (y ∷ q) (notify_level t v e) e m (store_value e'' m''),
  str_eq_iff t x,
  view_step t (y ∷ q) (store_value e m),
  view_below_entry y q e' e'' m',
)

added-Local :
    (t : Str) (v : Option Str) (e e'' : Entry) (m : ValueMap) (q : List Str)
    → find_child t m ≡ none
    → q ≢ (t ∷ [])
    → view q (store_value (notify_level t v e) (assign_child t (store_value e'' nil) m))
      ≡ view q (store_value e m)
added-Local t v e e'' m [] h ne =
    view_top _ _ ∙ ap some (seen_of-notify_level t v e) ∙ sym (view_top e m)
added-Local t v e e'' m (x ∷ []) h ne =
    ground (
      arith,
      view_replaced t x [] (notify_level t v e) e m (store_value e'' nil),
      str_eq_iff t x,
      ne,
    )
added-Local t v e e'' m (x ∷ y ∷ q) h ne = ground (
  arith,
  view_replaced t x (y ∷ q) (notify_level t v e) e m (store_value e'' nil),
  str_eq_iff t x,
  view_step t (y ∷ q) (store_value e m),
  view_nothing y q e'',
)

-- What is seen at the child itself.
exchanged_child :
    (t : Str) (e e'' : Entry) (m m'' : ValueMap)
    → view (t ∷ []) (store_value e (assign_child t (store_value e'' m'') m)) ≡ some (seen_of e'')
exchanged_child t e e'' m m'' =
    ground
      (arith, view_replaced t t [] e e m (store_value e'' m''), str_eq_iff t t, view_top e'' m'')

module _ (value : Str) (update_in_kv : Bool) (custom now : ℤ) where
  abbrev set_time : ℤ
  set_time = resolve custom now

  abbrev set : Str → StoreValue → StoreValue
  set = set_child value update_in_kv set_time now

  set_missing :
      (t : Str) (e : Entry) (m : ValueMap)
      → t ≢ []
      → find_child t m ≡ none
      → set t (store_value e m)
        ≡ store_value
            (notify_level t (some value) e)
            (assign_child t (store_value (new_value (some value) update_in_kv set_time) nil) m)
  unfolding set_child load_child store_child new_value
  set_missing t e m ne h = rw (not_empty t ne, h) refl

  set_found :
      (t : Str) (e e' : Entry) (m m' : ValueMap)
      → t ≢ []
      → find_child t m ≡ some (store_value e' m')
      → set t (store_value e m)
        ≡ store_value (notify_level t (some value) e) (
            assign_child t (store_value (put_entry (some value) update_in_kv set_time now e') m') m)
  unfolding set_child load_child put
  set_found t e e' m m' ne h = rw (not_empty t ne, h) refl

  new_fresh :
      seen_of (new_value (some value) update_in_kv set_time) ≡ fresh value update_in_kv set_time
  unfolding new_value
  new_fresh = refl

  put_fresh :
      (e : Entry)
      → seen_of (put_entry (some value) update_in_kv set_time now e)
        ≡ fresh value update_in_kv set_time
  unfolding put_entry
  put_fresh e = rw (resolve_twice custom now) refl

  pub set_child-Acts : Acts set (λ _. some (fresh value update_in_kv set_time))
  set_child-Acts t (store_value e m) ne = elim (Option-cases (find_child t m)) [
    | inl h ↦ rw (set_missing t e m ne h) (exchanged_child t _ _ m nil ∙ ap some new_fresh)
    | inr (store_value e' m', h) ↦
        rw (set_found t e e' m m' ne h) (exchanged_child t _ _ m m' ∙ ap some (put_fresh e'))
  ]

  set_empty : (t : Str) (csv : StoreValue) → t ≡ [] → set t csv ≡ csv
  unfolding set_child
  set_empty t csv h = rw h refl

  pub set_child-Local : Local set
  set_child-Local [] csv q ne = ap (view q) (set_empty [] csv refl)
  set_child-Local (c ∷ s) (store_value e m) q ne = elim (Option-cases (find_child (c ∷ s) m)) [
    | inl h ↦ rw (set_missing (c ∷ s) e m (λ e. cc) h) (added-Local (c ∷ s) _ e _ m q h ne)
    | inr (store_value e' m', h) ↦
        rw (set_found (c ∷ s) e e' m m' (λ e. cc) h)
          (exchanged-Local (c ∷ s) _ e e' _ m m' m' q h refl ne)
  ]

-- What is seen of a value that was deleted.
abbrev pub gone : Bool → ℤ → Seen
gone update_in_kv time = record {
  value = none;
  value_exists = false;
  purge_state = if update_in_kv then 1 else 2;
  value_update_time = time;
  sync_needed = update_in_kv;
  synced_with_kv = not update_in_kv;
}

-- What a deletion makes of what was seen: it touches only a value that exists.
abbrev pub delete_seen : Bool → ℤ → Option Seen → Option Seen
delete_seen update_in_kv at none = none
delete_seen update_in_kv at (some s) =
    if s.value_exists then some (gone update_in_kv at) else some s

module _ (update_in_kv : Bool) (custom now : ℤ) where
  abbrev deletion_time : ℤ
  deletion_time = resolve custom now

  abbrev remove : Str → StoreValue → StoreValue
  remove = delete_at update_in_kv deletion_time now

  remove_missing :
      (t : Str) (csv : StoreValue) → find_child t (store csv) ≡ none → remove t csv ≡ csv
  unfolding delete_at load_child
  remove_missing [] csv h = refl
  remove_missing (c ∷ t) csv h = rw h refl

  remove_not_existing :
      (t : Str) (csv c : StoreValue)
      → find_child t (store csv) ≡ some c
      → (entry c).value_exists ≡ false
      → remove t csv ≡ csv
  unfolding delete_at load_child
  remove_not_existing [] csv c h no_value = refl
  remove_not_existing (_ ∷ t) csv c h no_value = rw h (rw no_value refl)

  remove_found :
      (t : Str) (e e' : Entry) (m m' : ValueMap)
      → t ≢ []
      → find_child t m ≡ some (store_value e' m')
      → e'.value_exists ≡ true
      → remove t (store_value e m)
        ≡ store_value
            (notify_level t none e)
            (assign_child t (store_value (delete_entry update_in_kv deletion_time now e') m') m)
  unfolding delete_at load_child delete
  remove_found t e e' m m' ne h there = rw (not_empty t ne, h) (rw there refl)

  deleted_gone :
      (e : Entry)
      → seen_of (delete_entry update_in_kv deletion_time now e) ≡ gone update_in_kv deletion_time
  unfolding delete_entry
  deleted_gone e = rw (resolve_twice custom now) refl

  seen_child :
      (t : Str) (csv c : StoreValue)
      → find_child t (store csv) ≡ some c
      → view (t ∷ []) csv ≡ some (seen_of (entry c))
  seen_child t csv (store_value e' m') h = ground (arith, view_step t [] csv, view_top e' m')

  pub delete_at-Acts : Acts remove (delete_seen update_in_kv deletion_time)
  delete_at-Acts t (store_value e m) ne = elim (Option-cases (find_child t m)) [
    | inl h ↦
        rw (remove_missing t (store_value e m) h)
          (rw (view_step t [] (store_value e m)) (rw h refl))
    | inr (store_value e' m', h) ↦ elim (Bool-cases e'.value_exists) [
      | inl there ↦
          rw (remove_found t e e' m m' ne h there, seen_child t (store_value e m) _ h)
            (exchanged_child t _ _ m m' ∙ ap some (deleted_gone e') ∙ rw there refl)
      | inr no_value ↦
          rw
            (
              remove_not_existing t (store_value e m) _ h no_value,
              seen_child t (store_value e m) _ h,
            )
            (rw no_value refl)
    ]
  ]

  remove_empty : (t : Str) (csv : StoreValue) → t ≡ [] → remove t csv ≡ csv
  unfolding delete_at
  remove_empty t csv h = rw h refl

  pub delete_at-Local : Local remove
  delete_at-Local [] csv q ne = ap (view q) (remove_empty [] csv refl)
  delete_at-Local (c ∷ s) (store_value e m) q ne = elim (Option-cases (find_child (c ∷ s) m)) [
    | inl h ↦ ap (view q) (remove_missing (c ∷ s) (store_value e m) h)
    | inr (store_value e' m', h) ↦ elim (Bool-cases e'.value_exists) [
      | inl there ↦
          rw (remove_found (c ∷ s) e e' m m' (λ e. cc) h there)
            (exchanged-Local (c ∷ s) _ e e' _ m m' m' q h refl ne)
      | inr no_value ↦ ap (view q) (remove_not_existing (c ∷ s) (store_value e m) _ h no_value)
    ]
  ]

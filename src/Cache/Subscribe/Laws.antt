-- ===== src/Cache/Subscribe/Laws.antt =====
-- What a subscriber of a level receives (statefun/cache/cache.go).
use foliage_sdk.Common.{
  suc, Bool, true, false, Option, none, some, List, [], ◌∷◌, ◌++◌, ◌≡◌, refl, ap, ◌∙◌, sym, arith,
  Option-cases, inl, inr,
}
use foliage_sdk.Common.Dict.{Dict, load}
use foliage_sdk.Common.Int.{ℤ}
use foliage_sdk.Common.Text.{Str, str_eq_iff}
use foliage_sdk.Cache.Level.{Clock, tokens_of, at_parent, last_token_and_parent}
use foliage_sdk.Cache.Level.Laws.{find-assign_child}
use foliage_sdk.Cache.Key.{is_valid_key}
use foliage_sdk.Cache.Store.Reads.{after_set, set_value-valid}
use foliage_sdk.Cache.Store.{Store, set_child, is_empty}
use foliage_sdk.Cache.Value.{
  KeyValue, Entry, StoreValue, ValueMap, store_value, nil, entry, find_child, assign_child,
  load_child, store_child, notify, notify_level, put, resolve, new_value,
}

-- Every subscriber receives the message.
load-notify :
    (id key : Str) (value : Option Str) (subs : Dict (List KeyValue)) (sent : List KeyValue)
    → load id subs ≡ some sent
    → load id (notify key value subs) ≡ some (sent ++ (record { key = key; value = value } ∷ []))
unfolding load notify
load-notify id key value [] sent h = absurd (cc)
load-notify id key value ((j, x) ∷ subs) sent h = ground (arith, load-notify id key value subs sent)

-- The messages that were sent to a subscriber of a level.
abbrev pub sent_to : Str → StoreValue → Option (List KeyValue)
sent_to id csv = load id (entry csv).notify_updates

put-notifies :
    (id : Str) (t : Str) (csv parent : StoreValue) (value : Option Str) (upd : Bool) (time now : ℤ)
    (sent : List KeyValue)
    → sent_to id parent ≡ some sent
    → sent_to id (put t csv value upd time now parent)
      ≡ some (sent ++ (record { key = t; value = value } ∷ []))
unfolding put notify_level
put-notifies id t (store_value e m) (store_value pe pm) value upd time now sent h =
    load-notify id t value pe.notify_updates sent h

store_child-notifies :
    (id : Str) (t : Str) (value : Str) (upd : Bool) (time : ℤ) (parent : StoreValue)
    (sent : List KeyValue)
    → sent_to id parent ≡ some sent
    → sent_to id (store_child t (store_value (new_value (some value) upd time) nil) parent)
      ≡ some (sent ++ (record { key = t; value = some value } ∷ []))
unfolding store_child notify_level new_value
store_child-notifies id t value upd time (store_value pe pm) sent h =
    load-notify id t (some value) pe.notify_updates sent h

set_child-notifies :
    (id value : Str) (upd : Bool) (time now : ℤ) (t : Str) (parent : StoreValue)
    (sent : List KeyValue)
    → is_empty t ≡ false
    → sent_to id parent ≡ some sent
    → sent_to id (set_child value upd time now t parent)
      ≡ some (sent ++ (record { key = t; value = some value } ∷ []))
unfolding set_child
set_child-notifies id value upd time now t parent sent ne h =
    elim (Option-cases (load_child t parent)) [
      | inl e ↦ rw (ne, e) (store_child-notifies id t value upd time parent sent h)
      | inr (c, e) ↦ rw (ne, e) (put-notifies id t c parent (some value) upd time now sent h)
    ]

walk_missing :
    (x y : Str) (ts : List Str) (e : Entry) (m : ValueMap)
    → find_child x m ≡ none
    → last_token_and_parent (x ∷ y ∷ ts) (store_value e m) ≡ none
unfolding last_token_and_parent
walk_missing x y ts e m h = rw (h, last_token_and_parent) refl

walk_found :
    (x y : Str) (ts : List Str) (e : Entry) (m : ValueMap) (c : StoreValue)
    → find_child x m ≡ some c
    → last_token_and_parent (x ∷ y ∷ ts) (store_value e m) ≡ last_token_and_parent (y ∷ ts) c
unfolding last_token_and_parent
walk_found x y ts e m c h = rw (h, last_token_and_parent) refl

change_found :
    (create : Bool) (clock : Clock) (f : Str → StoreValue → StoreValue) (x y : Str) (ts : List Str)
    (e : Entry) (m : ValueMap) (c : StoreValue)
    → find_child x m ≡ some c
    → at_parent create clock f (x ∷ y ∷ ts) (store_value e m)
      ≡ store_value e (assign_child x (at_parent create (λ i. clock (suc i)) f (y ∷ ts) c) m)
unfolding at_parent
change_found create clock f x y ts e m c h = rw (h, at_parent) refl

-- The node above the last token, after it was changed.
parent-at_parent :
    (create : Bool) (clock : Clock) (f : Str → StoreValue → StoreValue) (ts : List Str)
    (csv : StoreValue) (t : Str) (p : StoreValue)
    → last_token_and_parent ts csv ≡ some (t, p)
    → last_token_and_parent ts (at_parent create clock f ts csv) ≡ some (t, f t p)
unfolding last_token_and_parent at_parent
parent-at_parent create clock f [] csv t p h = absurd (cc)
parent-at_parent create clock f (x ∷ []) csv t p h = cc
parent-at_parent create clock f (x ∷ y ∷ ts) (store_value e m) t p h =
    elim (Option-cases (find_child x m)) [
      | inl missing ↦ absurd (ground (arith, walk_missing x y ts e m missing))
      | inr (c, found) ↦
          let c' = at_parent create (λ i. clock (suc i)) f (y ∷ ts) c in
          ap (last_token_and_parent (x ∷ y ∷ ts)) (change_found create clock f x y ts e m c found)
          ∙ walk_found x y ts e (assign_child x c' m) c'
              (ground (arith, find-assign_child x x c' m, str_eq_iff x x))
          ∙ parent-at_parent create (λ i. clock (suc i)) f (y ∷ ts) c t p
              (sym (walk_found x y ts e m c found) ∙ h)
    ]

-- `SetValue` of a valid key whose level the cache has sends the key's last token and the value to
-- every subscriber of that level, after what was sent to it before. There is no transaction, and the
-- last token is not empty.
set_value-notifies :
    (clock : Clock) (id key value : Str) (upd : Bool) (custom : ℤ) (s : Store) (token : Str)
    (parent : StoreValue) (sent : List KeyValue)
    → is_valid_key key ≡ true
    → is_empty token ≡ false
    → last_token_and_parent (tokens_of key) s.root_value ≡ some (token, parent)
    → sent_to id parent ≡ some sent
    → (after : StoreValue) × (last_token_and_parent
          (tokens_of key)
          (after_set clock key value upd custom s).root_value
        ≡ some (token, after))
      × (sent_to id after ≡ some (sent ++ (record { key = token; value = some value } ∷ [])))
set_value-notifies clock id key value upd custom s token parent sent valid ne at h =
    let time = resolve custom (clock 0) in
    (
      set_child value upd time (clock 0) token parent,
      ap (λ (r : Store × Bool). last_token_and_parent (tokens_of key) r.0.root_value)
            (set_value-valid clock key value upd custom s valid)
          ∙ parent-at_parent true (λ i. clock (suc i)) (set_child value upd time (clock 0))
              (tokens_of key) s.root_value token parent at,
      set_child-notifies id value upd time (clock 0) token parent sent ne h,
    )

-- ===== src/Cache/Level.antt =====
-- The walks down the tree of statefun/cache/cache.go by the tokens of a key.
pub mod Laws
pub mod Frame
pub mod Effect
use foliage_sdk.Common.{ℕ, suc, Bool, true, false, Option, none, some, List, [], ◌∷◌}
use foliage_sdk.Common.Int.{ℤ}
use foliage_sdk.Common.Text.{Str, split, dot}
use foliage_sdk.Cache.Value.{
  StoreValue, store_value, nil, load_child, store_child, new_level, find_child, assign_child, store,
  entry, notify_level, notify,
}

-- The readings of `GetCurrentTimeNs` during a call: `clock i` is the one made at level `i`.
abbrev pub Clock : Type 0
Clock = ℕ → ℤ

abbrev later : Clock → Clock
later clock i = clock (suc i)

-- `getLastKeyTokenAndItsParentCacheStoreValue(key, false)`: the last token, and the node above it.
unfoldable pub last_token_and_parent : List Str → StoreValue → Option (Str × StoreValue)
unfolding load_child find_child
last_token_and_parent [] csv = none
last_token_and_parent (t ∷ []) csv = some (t, csv)
last_token_and_parent (t ∷ u ∷ tokens) csv = elim (load_child t csv) [
  | none ↦ none
  | some c ↦ last_token_and_parent (u ∷ tokens) c
]

-- The same walk for a caller that changes the node above the last token by `f`. With
-- `createIfNotexists` a missing level is built; otherwise a missing level changes nothing.
unfoldable pub at_parent :
    Bool → Clock → (Str → StoreValue → StoreValue) → List Str → StoreValue → StoreValue
unfolding load_child store_child new_level
at_parent create clock f [] csv = csv
at_parent create clock f (t ∷ []) csv = f t csv
at_parent create clock f (t ∷ u ∷ tokens) csv = elim (load_child t csv) [
  | some c ↦
      store_value (entry csv)
        (assign_child t (at_parent create (later clock) f (u ∷ tokens) c) (store csv))
  | none ↦
      let level = store_value (new_level (clock 0)) nil in
      elim create [
        | false ↦ csv
        | true ↦
            let grown = store_child t level csv in
            store_value (entry grown)
              (assign_child t (at_parent create (later clock) f (u ∷ tokens) level) (store grown))
      ]
]

-- `getLastKeyCacheStoreValue`.
unfoldable pub last_key_value : List Str → StoreValue → Option StoreValue
unfolding load_child find_child
last_key_value [] csv = some csv
last_key_value (t ∷ tokens) csv = elim (load_child t csv) [
  | none ↦ none
  | some c ↦ last_key_value tokens c
]

-- `getLastExistingCacheStoreValueByKey`.
unfoldable pub last_existing_value : List Str → StoreValue → StoreValue
unfolding load_child find_child
last_existing_value [] csv = csv
last_existing_value (t ∷ []) csv = csv
last_existing_value (t ∷ u ∷ tokens) csv = elim (load_child t csv) [
  | none ↦ csv
  | some c ↦ last_existing_value (u ∷ tokens) c
]

-- strings.Split(key, ".")
abbrev pub tokens_of : Str → List Str
tokens_of key = split dot key

-- ===== src/Cache/Pattern/Laws.antt =====
-- Which keys `GetKeysByPattern` finds in the cache (statefun/cache/cache.go).
use foliage_sdk.Common.{
  true, ◌||◌, Option, none, some, List, [], ◌∷◌, ◌++◌, ◌≡◌, ap, ◌∙◌, arith, if◌then◌else◌, length,
  take, ◌-◌,
}
use mathlib.Core.List.{append_assoc}
use mathlib.Core.Path.{subst}
use foliage_sdk.Cache.Key.{from_store_key, to_store_key}
use foliage_sdk.Common.{Bool-cases, inl, inr}
use foliage_sdk.Common.Text.{Str, codes, join, dot, str_eq, str_eq_iff}
use foliage_sdk.Cache.Level.Laws.{Seen, view, view_here, view_step}
use foliage_sdk.Cache.Level.{last_token_and_parent, tokens_of}
use foliage_sdk.Cache.Store.{Store}
use foliage_sdk.Cache.Value.{Entry, StoreValue, ValueMap, store_value, nil, bind, find_child, store}
use foliage_sdk.Cache.Pattern.{
  has_key, add_key, add_if_exists, all_keys, append_keys, append_keys_from_kv, Updates, keys_at,
  get_keys_by_pattern, is_lossy, is_lossy_below,
}

has_key-add_key :
    (k j : Str) (keys : List Str) → has_key k (add_key j keys) ≡ (str_eq j k || has_key k keys)
unfolding has_key add_key
has_key-add_key k j keys = ground (arith, str_eq_iff j k)

has_key-add_if_exists :
    (e : Entry) (k j : Str) (keys : List Str)
    → has_key k (add_if_exists e j keys)
      ≡ (if e.value_exists then str_eq j k || has_key k keys else has_key k keys)
unfolding add_if_exists
has_key-add_if_exists e k j keys = ground (arith, has_key-add_key k j keys)

-- What was found is kept.
all_keys_keep :
    (k prefix : Str) (m : ValueMap) (keys : List Str)
    → has_key k keys ≡ true
    → has_key k (all_keys prefix m keys) ≡ true
unfolding all_keys
all_keys_keep k prefix nil keys h = h
all_keys_keep k prefix (bind j (store_value e m) rest) keys h = all_keys_keep k prefix rest _ (
    all_keys_keep k (prefix ++ (j ++ (dot ∷ []))) m _
      (ground (arith, has_key-add_if_exists e k (prefix ++ j) keys)))

append_keys_keep :
    (k prefix : Str) (updates : Updates) (keys : List Str)
    → has_key k keys ≡ true
    → has_key k (append_keys prefix updates keys) ≡ true
unfolding append_keys
append_keys_keep k prefix [] keys h = h
append_keys_keep k prefix ((j, v) ∷ updates) keys h =
    let rest =
      append_keys_keep k prefix updates (add_key (from_store_key prefix j) keys)
        (ground (arith, has_key-add_key k (from_store_key prefix j) keys)) in
    ground (arith, rest)

found_child :
    (t k : Str) (q : List Str) (e e' : Entry) (m' rest : ValueMap)
    → view (t ∷ q) (store_value e (bind k (store_value e' m') rest))
      ≡ (if str_eq k t then view q (store_value e' m') else view (t ∷ q) (store_value e rest))
unfolding find_child
found_child t k q e e' m' rest = ground (
  arith,
  view_step t q (store_value e (bind k (store_value e' m') rest)),
  view_step t q (store_value e rest),
)

-- A key below a level is the prefix of the level, and its tokens joined.
below_prefix :
    (prefix k : Str) (u : Str) (q : List Str)
    → (prefix ++ (k ++ (dot ∷ []))) ++ join dot (u ∷ q) ≡ prefix ++ join dot (k ∷ u ∷ q)
unfolding join
below_prefix prefix k u q =
    append_assoc prefix (k ++ (dot ∷ [])) (join dot (u ∷ q))
    ∙ ap (λ l. prefix ++ l) (append_assoc k (dot ∷ []) (join dot (u ∷ q)))

finds_child :
    (prefix k : Str) (q : List Str) (e : Entry) (m : ValueMap) (keys : List Str) (n : Seen)
    → ((u : Str) (q' : List Str)
        → view (u ∷ q') (store_value e m) ≡ some n
        → has_key
            ((prefix ++ (k ++ (dot ∷ []))) ++ join dot (u ∷ q'))
            (all_keys (prefix ++ (k ++ (dot ∷ []))) m (add_if_exists e (prefix ++ k) keys))
          ≡ true)
    → view q (store_value e m) ≡ some n
    → n.value_exists ≡ true
    → has_key
        (prefix ++ join dot (k ∷ q))
        (all_keys (prefix ++ (k ++ (dot ∷ []))) m (add_if_exists e (prefix ++ k) keys))
      ≡ true
unfolding join
finds_child prefix k [] e m keys n deeper w there =
    all_keys_keep (prefix ++ k) (prefix ++ (k ++ (dot ∷ []))) m _ (
      ground (
        arith,
        view_here e m,
        has_key-add_if_exists e (prefix ++ k) (prefix ++ k) keys,
        str_eq_iff (prefix ++ k) (prefix ++ k),
      ))
finds_child prefix k (u ∷ q) e m keys n deeper w there =
    subst
      (λ l.
        has_key l (all_keys (prefix ++ (k ++ (dot ∷ []))) m (add_if_exists e (prefix ++ k) keys))
        ≡ true)
      (below_prefix prefix k u q) (deeper u q w)

all_keys-finds :
    (prefix t : Str) (q : List Str) (e : Entry) (m : ValueMap) (keys : List Str) (n : Seen)
    → view (t ∷ q) (store_value e m) ≡ some n
    → n.value_exists ≡ true
    → has_key (prefix ++ join dot (t ∷ q)) (all_keys prefix m keys) ≡ true
unfolding all_keys find_child join
all_keys-finds prefix t q e nil keys n v there =
    absurd (ground (arith, view_step t q (store_value e nil)))
all_keys-finds prefix t q e (bind k (store_value e' m') rest) keys n v there =
    let seen = found_child t k q e e' m' rest in
    elim (Bool-cases (str_eq k t)) [
      | inr apart ↦ all_keys-finds prefix t q e rest _ n (ground (arith, seen)) there
      | inl same ↦ all_keys_keep (prefix ++ join dot (t ∷ q)) prefix rest _ (
          subst
            (λ x.
              has_key (prefix ++ join dot (x ∷ q))
                (all_keys (prefix ++ (k ++ (dot ∷ []))) m' (add_if_exists e' (prefix ++ k) keys))
              ≡ true)
            ((str_eq_iff k t).0 same)
            (finds_child prefix k q e' m' keys n
              (λ u q' w. all_keys-finds (prefix ++ (k ++ (dot ∷ []))) u q' e' m' _ n w there)
              (ground (arith, seen)) there))
    ]

append_from_kv_keep :
    (k prefix : Str) (updates : Option Updates) (keys : List Str)
    → has_key k keys ≡ true
    → has_key k (append_keys_from_kv prefix updates keys) ≡ true
append_from_kv_keep k prefix none keys h = h
append_from_kv_keep k prefix (some updates) keys h = append_keys_keep k prefix updates keys h

keys_at-all :
    (store_prefix pattern key : Str) (updates : Option Updates) (parent : StoreValue)
    → has_key key (all_keys (take (length pattern - 1) pattern) (store parent) []) ≡ true
    → has_key key (keys_at store_prefix pattern updates (codes ">") parent).0 ≡ true
unfolding keys_at str_eq
keys_at-all store_prefix pattern key updates (store_value e m) h =
    elim (Bool-cases (is_lossy e || is_lossy_below m)) [
      | inl lossy ↦ rw lossy (append_from_kv_keep key store_prefix updates _ h)
      | inr whole ↦ rw whole h
    ]

-- `GetKeysByPattern` of a pattern with the last token `>` whose level the cache has finds the key of
-- every value that exists in the cache below that level, whatever the bucket answers: the pattern
-- without its last character, and then the tokens of the value joined.
pub get_keys_by_pattern_finds :
    (kv_watch : Str → Option Updates) (pattern t : Str) (q : List Str) (s : Store)
    (parent : StoreValue) (n : Seen)
    → last_token_and_parent (tokens_of pattern) s.root_value ≡ some (codes ">", parent)
    → view (t ∷ q) parent ≡ some n
    → n.value_exists ≡ true
    → has_key
        (take (length pattern - 1) pattern ++ join dot (t ∷ q))
        (get_keys_by_pattern kv_watch pattern s).1
      ≡ true
unfolding get_keys_by_pattern
get_keys_by_pattern_finds kv_watch pattern t q s (store_value e m) n h v there =
    rw (h, get_keys_by_pattern)
      (keys_at-all s.cache_config.kv_store_prefix pattern _
        (kv_watch (to_store_key s.cache_config.kv_store_prefix pattern)) (store_value e m)
        (all_keys-finds (take (length pattern - 1) pattern) t q e m [] n v there))

-- ===== src/Cache/Store/Values.antt =====
-- What `GetValue` reads after `SetValue` and `DeleteValue` (statefun/cache/cache.go).
use foliage_sdk.Common.{
  true, false, Option, none, some, List, [], ◌∷◌, ◌≡◌, ◌≢◌, refl, ap, ◌∙◌, sym, arith, inl, inr,
  Option-cases, if◌then◌else◌,
}
use foliage_sdk.Common.Int.{negsuc}
use foliage_sdk.Common.Text.{Str, dot, join}
use foliage_sdk.Cache.Key.{is_valid_key, to_store_key}
use foliage_sdk.Cache.Key.Laws.{last_token, last_token-is_valid_key, join-split}
use foliage_sdk.Cache.Level.{Clock, last_token_and_parent, tokens_of}
use foliage_sdk.Cache.Level.Laws.{Seen, seen_node, view, load_child-last_token_and_parent, child_at}
use foliage_sdk.Cache.Value.{StoreValue, load_child}
use foliage_sdk.Cache.Store.{
  Store, Fetched, cached, get_value, get_value_update_time, fetch, KvReply, value_of, failed,
  does_not_exist, is_empty, child_of,
}

-- A key whose last token is not empty.
abbrev pub IsNamed : Str → Type 0
IsNamed key = last_token (tokens_of key) ≢ []

-- What is seen at a key.
abbrev pub look : Str → Store → Option Seen
look key s = view (tokens_of key) s.root_value

last_token-walk :
    (t : Str) (tokens : List Str) (csv : StoreValue) (u : Str) (parent : StoreValue)
    → last_token_and_parent (t ∷ tokens) csv ≡ some (u, parent)
    → u ≡ last_token (t ∷ tokens)
unfolding last_token_and_parent last_token load_child
last_token-walk t [] csv u parent h = ground arith
last_token-walk t (v ∷ tokens) csv u parent h = elim (Option-cases (load_child t csv)) [
  | inl e ↦ ground arith
  | inr (c, e) ↦ ground (arith, last_token-walk v tokens c u parent)
]

is_empty_iff : (t : Str) → t ≢ [] → is_empty t ≡ false
is_empty_iff [] ne = absurd (ne refl)
is_empty_iff (c ∷ t) ne = refl

child_of-child_at :
    (t : Str) (tokens : List Str) (csv : StoreValue)
    → last_token (t ∷ tokens) ≢ []
    → child_of (last_token_and_parent (t ∷ tokens) csv)
      ≡ child_at (last_token_and_parent (t ∷ tokens) csv)
child_of-child_at t tokens csv ne = elim (Option-cases (last_token_and_parent (t ∷ tokens) csv)) [
  | inl h ↦ rw h refl
  | inr ((u, parent), h) ↦
      rw h (rw (is_empty_iff u (λ e. ne (sym (last_token-walk t tokens csv u parent h) ∙ e))) refl)
]

seen-child_of :
    (tokens : List Str) (csv : StoreValue)
    → last_token tokens ≢ []
    → seen_node (child_of (last_token_and_parent tokens csv)) ≡ view tokens csv
unfolding view last_token
seen-child_of [] csv ne = absurd (ne refl)
seen-child_of (t ∷ tokens) csv ne =
    ap seen_node (child_of-child_at t tokens csv ne ∙ load_child-last_token_and_parent t tokens csv)

-- The node that a read finds is the one that is seen at the key.
pub seen-cached :
    (key : Str) (root : StoreValue)
    → IsNamed key
    → seen_node (cached key root) ≡ view (tokens_of key) root
unfolding cached
seen-cached key root ne = seen-child_of (tokens_of key) root ne

pub valid-IsNamed : (key : Str) → is_valid_key key ≡ true → key ≢ [] → IsNamed key
valid-IsNamed key valid ne = last_token-is_valid_key key valid ne

pub tokens-ne : (key : Str) → IsNamed key → tokens_of key ≢ []
unfolding last_token
tokens-ne key named e = named (rw e refl)

pub tokens_injective : (j k : Str) → tokens_of j ≡ tokens_of k → j ≡ k
tokens_injective j k e = sym (join-split dot j) ∙ ap (join dot) e ∙ join-split dot k

-- What `GetValue` answers for what is seen, and for the answer to a miss.
abbrev pub answer : Str → Option Seen → Fetched → Fetched
answer key none miss = miss
answer key (some s) miss = if s.value_exists then value_of s.value else failed (does_not_exist key)

-- The answer to a miss does not depend on the tree.
abbrev pub asked : (Str → KvReply) → Clock → Str → Store → Fetched
asked kv_get clock key s =
    (fetch clock (kv_get (to_store_key s.cache_config.kv_store_prefix key)) s).1

pub get_value-answer :
    (kv_get : Str → KvReply) (clock : Clock) (key : Str) (s : Store)
    → IsNamed key
    → (get_value kv_get clock key s).1 ≡ answer key (look key s) (asked kv_get clock key s)
unfolding get_value
get_value-answer kv_get clock key s named = elim (Option-cases (cached key s.root_value)) [
  | inl e ↦ ground (arith, seen-cached key s.root_value named)
  | inr (c, e) ↦ ground (arith, seen-cached key s.root_value named)
]

pub get_value_update_time-seen :
    (key : Str) (s : Store) (n : Seen)
    → IsNamed key
    → look key s ≡ some n
    → get_value_update_time key s ≡ (if n.value_exists then n.value_update_time else negsuc 0)
unfolding get_value_update_time
get_value_update_time-seen key s n named h = elim (Option-cases (cached key s.root_value)) [
  | inl e ↦ ground (arith, seen-cached key s.root_value named)
  | inr (c, e) ↦ ground (arith, seen-cached key s.root_value named)
]

pub update_time_missing :
    (key : Str) (s : Store)
    → IsNamed key
    → look key s ≡ none
    → get_value_update_time key s ≡ negsuc 0
unfolding get_value_update_time
update_time_missing key s named h = elim (Option-cases (cached key s.root_value)) [
  | inl e ↦ ground arith
  | inr (c, e) ↦ ground (arith, seen-cached key s.root_value named)
]

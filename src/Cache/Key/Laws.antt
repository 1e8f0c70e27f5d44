-- ===== src/Cache/Key/Laws.antt =====
-- What holds of the keys of statefun/cache/cache.go.
use foliage_sdk.Common.{
  ℕ, true, false, List, [], ◌∷◌, ◌++◌, ◌==◌, length, drop, ◌≡◌, ◌≢◌, refl, ap, ◌∙◌, arith, inl, inr,
  Bool-cases,
}
use foliage_sdk.Common.Text.{Str, dot, split, join, has_prefix, remove_first}
use foliage_sdk.Cache.Key.{
  is_edge_char, all_edge, inner_then_edge, is_valid_key, to_store_key, from_store_key,
}

pub has_prefix-append : (old s : Str) → has_prefix (old ++ s) old ≡ true
unfolding has_prefix
has_prefix-append [] [] = refl
has_prefix-append [] (c ∷ s) = refl
has_prefix-append (c ∷ old) s = ground (arith, has_prefix-append old s)

drop-append : (old s : Str) → drop (length old) (old ++ s) ≡ s
drop-append [] s = refl
drop-append (c ∷ old) s = drop-append old s

remove_first-append : (c : ℕ) (old s : Str) → remove_first (c ∷ old) ((c ∷ old) ++ s) ≡ s
unfolding remove_first
remove_first-append c old s = rw (has_prefix-append (c ∷ old) s) (drop-append old s)

append_dot : (prefix key : Str) → prefix ++ (dot ∷ key) ≡ (prefix ++ (dot ∷ [])) ++ key
append_dot [] key = refl
append_dot (c ∷ prefix) key = rw (append_dot prefix key)

-- The prefix that is put before a key on the way to the bucket is taken off on the way back.
pub from_store_key-to_store_key :
    (prefix key : Str) → from_store_key prefix (to_store_key prefix key) ≡ key
unfolding from_store_key to_store_key
from_store_key-to_store_key [] key = remove_first-append dot [] key
from_store_key-to_store_key (c ∷ prefix) key =
    rw (append_dot prefix key) (remove_first-append c (prefix ++ (dot ∷ [])) key)

-- The last token of a split.
unfoldable pub last_token : List Str → Str
last_token [] = []
last_token (t ∷ []) = t
last_token (t ∷ u ∷ ts) = last_token (u ∷ ts)

pub split_cons : (sep : ℕ) (s : Str) → (t : Str) × (ts : List Str) × (split sep s ≡ t ∷ ts)
unfolding split
split_cons sep [] = ([], [], refl)
split_cons sep (c ∷ s) = elim (Bool-cases (c == sep)) [
  | inl e ↦ ([], split sep s, rw e)
  | inr e ↦ let (t, ts, p) = split_cons sep s in (c ∷ t, ts, rw e (rw p))
]

last_token-split_cons :
    (c : ℕ) (s : Str) → last_token (split dot s) ≢ [] → last_token (split dot (c ∷ s)) ≢ []
unfolding split last_token
last_token-split_cons c s h = let (t, ts, p) = split_cons dot s in last_of_cases c s t ts p h
  where
    last_of_cases :
        (c : ℕ) (s t : Str) (ts : List Str)
        → split dot s ≡ t ∷ ts
        → last_token (split dot s) ≢ []
        → last_token (split dot (c ∷ s)) ≢ []
    last_of_cases c s t [] p h = ground arith
    last_of_cases c s t (u ∷ ts) p h = ground arith

edge-ne-dot : (c : ℕ) → is_edge_char c ≡ true → (c == dot) ≡ false
unfolding is_edge_char
edge-ne-dot c h = ground arith

last_edge : (c : ℕ) → is_edge_char c ≡ true → last_token (split dot (c ∷ [])) ≢ []
unfolding last_token split
last_edge c h = rw (edge-ne-dot c h) (λ e. cc)

inner_last : (s : Str) → inner_then_edge s ≡ true → last_token (split dot s) ≢ []
unfolding inner_then_edge
inner_last [] h = absurd (cc)
inner_last (c ∷ []) h = absurd (cc)
inner_last (c ∷ d ∷ []) h = last_token-split_cons c (d ∷ []) (last_edge d (ground arith))
inner_last (c ∷ d ∷ e ∷ s) h =
    last_token-split_cons c (d ∷ e ∷ s) (inner_last (d ∷ e ∷ s) (ground arith))

edge_last : (c : ℕ) (s : Str) → all_edge (c ∷ s) ≡ true → last_token (split dot (c ∷ s)) ≢ []
unfolding all_edge
edge_last c [] h = last_edge c (ground arith)
edge_last c (d ∷ s) h = last_token-split_cons c (d ∷ s) (edge_last d s (ground arith))

-- A valid key that is not empty has a last token that is not empty.
pub last_token-is_valid_key :
    (key : Str) → is_valid_key key ≡ true → key ≢ [] → last_token (split dot key) ≢ []
unfolding is_valid_key
last_token-is_valid_key [] h ne = absurd (ne refl)
last_token-is_valid_key (c ∷ s) h ne = elim (Bool-cases (all_edge (c ∷ s))) [
  | inl e ↦ edge_last c s e
  | inr e ↦ last_token-split_cons c s (inner_last s (ground arith))
]

join_on_first :
    (sep c : ℕ) (t : Str) (ts : List Str) → join sep ((c ∷ t) ∷ ts) ≡ c ∷ join sep (t ∷ ts)
unfolding join
join_on_first sep c t [] = refl
join_on_first sep c t (u ∷ ts) = refl

join_empty_first :
    (sep : ℕ) (t : Str) (ts : List Str) → join sep ([] ∷ t ∷ ts) ≡ sep ∷ join sep (t ∷ ts)
unfolding join
join_empty_first sep t ts = refl

-- To join the pieces of a split gives the text back, so two keys with the same tokens are equal.
pub join-split : (sep : ℕ) (s : Str) → join sep (split sep s) ≡ s
unfolding split join
join-split sep [] = refl
join-split sep (c ∷ s) = elim (Bool-cases (c == sep)) [
  | inl e ↦
      let (t, ts, p) = split_cons sep s in
      let ih : join sep (t ∷ ts) ≡ s = rw (← p) (join-split sep s) in
      rw e (rw p (join_empty_first sep t ts ∙ ground (arith, ih)))
  | inr e ↦
      let (t, ts, p) = split_cons sep s in
      let ih : join sep (t ∷ ts) ≡ s = rw (← p) (join-split sep s) in
      rw e (rw p (join_on_first sep c t ts ∙ ap (◌∷◌ c) ih))
]

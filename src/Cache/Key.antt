-- ===== src/Cache/Key.antt =====
-- Cache keys of statefun/cache/cache.go: `keyValidationRegexp`, `toStoreKey`, `fromStoreKey`.
pub mod Laws
use foliage_sdk.Common.{ℕ, Bool, true, false, ◌&&◌, ◌||◌, List, [], ◌∷◌, ◌++◌, ◌==◌, leb, length}
use foliage_sdk.Common.Text.{Str, codes, dot, remove_first}

-- The class [a-zA-Z0-9=_-].
unfoldable pub is_edge_char : ℕ → Bool
is_edge_char c =
    leb b'a' c && leb c b'z'
    || leb b'A' c && leb c b'Z'
    || leb b'0' c && leb c b'9'
    || c == b'='
    || c == b'_'
    || c == b'-'

-- The class [a-zA-Z0-9=._-].
unfoldable pub is_inner_char : ℕ → Bool
unfolding is_edge_char
is_inner_char c = c == dot || is_edge_char c

-- The second branch of the expression: any number of edge characters.
unfoldable pub all_edge : Str → Bool
unfolding is_edge_char
all_edge [] = true
all_edge (c ∷ s) = is_edge_char c && all_edge s

-- One or more inner characters, and an edge character at the end.
unfoldable pub inner_then_edge : Str → Bool
unfolding is_inner_char is_edge_char
inner_then_edge [] = false
inner_then_edge (c ∷ []) = false
inner_then_edge (c ∷ d ∷ []) = is_inner_char c && is_edge_char d
inner_then_edge (c ∷ d ∷ e ∷ s) = is_inner_char c && inner_then_edge (d ∷ e ∷ s)

abbrev first_branch : Str → Bool
unfolding is_edge_char inner_then_edge
first_branch [] = false
first_branch (c ∷ s) = is_edge_char c && inner_then_edge s

-- keyValidationRegexp.MatchString(key)
unfoldable pub is_valid_key : Str → Bool
unfolding all_edge is_edge_char inner_then_edge
is_valid_key key = first_branch key || all_edge key

unfoldable pub to_store_key : Str → Str → Str
to_store_key prefix key = prefix ++ (dot ∷ key)

unfoldable pub from_store_key : Str → Str → Str
unfolding remove_first
from_store_key prefix key = remove_first (prefix ++ (dot ∷ [])) key

-- ===== src/Graph/Keys.antt =====
-- The keys of embedded/graph/crud/common.go: the patterns for the links of a vertex, as fmt.Sprintf
-- fills them.
use foliage_sdk.Common.{◌∷◌, ◌++◌, List, [], Option, none, some}
use foliage_sdk.Common.Text.{Str, codes, dot, split}

infixr 40 ◌/◌
-- Two tokens with a dot between them.
abbrev pub ◌/◌ : Str → Str → Str
a / b = a ++ (dot ∷ b)

-- OutLinkBodyKeyPrefPattern
unfoldable pub out_body : Str → Str → Str
out_body from rest = from ++ (codes ".out.body." ++ rest)

-- OutLinkIndexPrefPattern
unfoldable pub out_index : Str → Str → Str
out_index from rest = from ++ (codes ".out.index." ++ rest)

-- OutLinkLinkNamePrefPattern
unfoldable pub out_name : Str → Str → Str
out_name from rest = from ++ (codes ".out.name." ++ rest)

-- OutLinkNameGenKeyPattern
unfoldable pub name_gen : Str → Str
name_gen from = from ++ codes ".out.namegen"

-- InLinkKeyPrefPattern
unfoldable pub in_link : Str → Str → Str
in_link to rest = to ++ (codes ".in." ++ rest)

-- The last two tokens of a key; `none` is an index out of range.
unfoldable pub last_two : List Str → Option (Str × Str)
last_two [] = none
last_two (a ∷ []) = none
last_two (a ∷ b ∷ []) = some (a, b)
last_two (a ∷ b ∷ c ∷ ts) = last_two (b ∷ c ∷ ts)

abbrev pub last_two_of : Str → Option (Str × Str)
last_two_of key = last_two (split dot key)

-- ===== src/Tx/Isolation.antt =====
-- The handlers of embedded/graph/tx/statefun.go, before the commit, work in their transaction alone.
pub mod Handlers
pub mod Begin
use foliage_sdk.Common.{Bool, true, List, [], ◌∷◌, ◌++◌, ◌≡◌, ◌||◌, arith}
use foliage_sdk.Common.Text.{Str, str_eq, str_eq_iff, has_prefix}
use foliage_sdk.Cache.Key.Laws.{has_prefix-append}
use foliage_sdk.Graph.Context.{Request}
use foliage_sdk.Tx.Helper.{generate_prefix}

-- An id of the transaction: its own, or one with its prefix.
abbrev pub is_of_tx : Str → Str → Bool
is_of_tx tx id = str_eq id tx || has_prefix id (generate_prefix tx)

abbrev pub is_inside : {J : Type 0} → Str → Request J → Bool
is_inside tx r = is_of_tx tx r.id

pub prefix-is_of_tx : (tx id : Str) → is_of_tx tx (generate_prefix tx ++ id) ≡ true
prefix-is_of_tx tx id = ground (arith, has_prefix-append (generate_prefix tx) id)

pub self-is_of_tx : (tx : Str) → is_of_tx tx tx ≡ true
self-is_of_tx tx = ground (arith, str_eq_iff tx tx)

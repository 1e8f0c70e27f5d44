-- ===== src/Graph/Cascade.antt =====
-- `DeleteObject` of embedded/graph/crud/hl_crud.go in the mode `cascade`.
pub mod Laws
use foliage_sdk.Common.{
  ℕ, zero, suc, Bool, true, false, ◌||◌, Option, none, some, List, [], ◌∷◌, ◌++◌, if◌then◌else◌,
}
use foliage_sdk.Common.Text.{Str, codes, split, dot, str_eq}
use foliage_sdk.Cache.Key.Laws.{last_token}

unfoldable pub is_visited : Str → List Str → Bool
is_visited id [] = false
is_visited id (v ∷ visited) = str_eq v id || is_visited id visited

-- The loop over the keys of the out links: their targets are queued once.
unfoldable pub visit_children : List Str → List Str → List Str → List Str × List Str
visit_children [] visited queue = (visited, queue)
visit_children (key ∷ keys) visited queue =
    let id = last_token (split dot key) in
    if is_visited id visited
    then visit_children keys visited queue
    else visit_children keys (id ∷ visited) (queue ++ (id ∷ []))

-- fmt.Sprintf(OutLinkBodyKeyPrefPattern+LinkKeySuff1Pattern, elem, ">")
abbrev pub out_links : Str → Str
out_links elem = elem ++ codes ".out.body.>"

pub data Reply : Type 0 where
  reply_ok : Reply
  reply_error : Str → Reply

-- `GetKeysByPattern` of the global cache, and the request to delete a vertex with its links: the new
-- state, and an error if any.
module _ (State : Type 0) (get_keys : Str → State → State × List Str)
    (delete_vertex : Str → State → State × Option Str) where
  abbrev unless_failed :
      (State → Option (State × Reply)) → State × Option Str → Option (State × Reply)
  unless_failed rest (s, none) = rest s
  unless_failed rest (s, some e) = some (s, reply_error e)

  -- The loop, on fuel; the queue is tested for its end between the search for children and the
  -- deletion.
  unfoldable pub cascade : ℕ → List Str → List Str → State → Option (State × Reply)
  cascade zero visited queue s = none
  cascade (suc fuel) visited [] s = some (s, reply_ok)
  cascade (suc fuel) visited (elem ∷ queue) s =
      let (s', keys) = get_keys (out_links elem) s in
      let (visited', queue') = visit_children keys visited queue in
      elim queue' [
        | [] ↦ some (s', reply_ok)
        | q ∷ qs ↦ unless_failed (λ s''. cascade fuel visited' (q ∷ qs) s'') (delete_vertex elem s')
      ]

  unfoldable pub delete_object_cascade : ℕ → Str → State → Option (State × Reply)
  delete_object_cascade fuel self_id s = cascade fuel (self_id ∷ []) (self_id ∷ []) s

-- ===== src/Graph/Cascade/Laws.antt =====
-- What the cascade of `DeleteObject` leaves (embedded/graph/crud/hl_crud.go).
use foliage_sdk.Common.{ℕ, suc, Option, some, List, [], ◌∷◌, ◌≡◌, refl, arith, All}
use foliage_sdk.Common.Text.{Str, split, dot, str_eq_iff}
use foliage_sdk.Cache.Key.Laws.{last_token}
use foliage_sdk.Graph.Cascade.{
  is_visited, visit_children, out_links, reply_ok, cascade, delete_object_cascade,
}

visit_no_children :
    (self : Str) (keys : List Str)
    → All (λ (k : Str). last_token (split dot k) ≡ self) keys
    → visit_children keys (self ∷ []) [] ≡ (self ∷ [], [])
unfolding visit_children is_visited
visit_no_children self [] h = refl
visit_no_children self (k ∷ keys) h =
    ground (arith, visit_no_children self keys h.1, h.0, str_eq_iff self self)

module _ (State : Type 0) (get_keys : Str → State → State × List Str)
    (delete_vertex : Str → State → State × Option Str) where
  -- The cascade on an object that has no links to others deletes nothing, not even the object, and
  -- replies that all is well: the only effect is that of the query for links. One round is enough.
  cascade_spares_single :
      (fuel : ℕ) (self : Str) (s : State)
      → All (λ (k : Str). last_token (split dot k) ≡ self) (get_keys (out_links self) s).1
      → delete_object_cascade State get_keys delete_vertex (suc fuel) self s
        ≡ some ((get_keys (out_links self) s).0, reply_ok)
  unfolding delete_object_cascade cascade
  cascade_spares_single fuel self s h =
      rw (visit_no_children self (get_keys (out_links self) s).1 h, delete_object_cascade, cascade)
        refl

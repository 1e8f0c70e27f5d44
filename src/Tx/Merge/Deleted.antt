-- ===== src/Tx/Merge/Deleted.antt =====
-- Which requests of a merge, of embedded/graph/tx/merge.go, are deletions, and which name what is
-- deleted.
use foliage_sdk.Common.{
  ℕ, Bool, true, false, not, ◌||◌, ◌&&◌, List, [], ◌∷◌, ◌≡◌, refl, arith, if◌then◌else◌, all_of,
}
use foliage_sdk.Common.Text.{Str, codes, dot, str_eq, str_eq_iff, has_prefix}
use foliage_sdk.Common.{◌==◌}
use foliage_sdk.Graph.Context.{Context, Request, State, Action, pure}
use foliage_sdk.Tx.Helper.{or_default, string_at}
use foliage_sdk.Tx.Requests.{sent_pass, IsKept, pure-IsKept}
use foliage_sdk.Tx.Traverse.{has_object}

abbrev pub is_link_op : Str → Bool
is_link_op op = has_prefix op (codes "functions.graph.api.link.")

abbrev pub is_delete : {J : Type 0} → Request J → Bool
is_delete r = str_eq r.op (codes "functions.graph.api.vertex.delete")

-- The ids whose deletion was requested.
unfoldable pub deleted_ids : {J : Type 0} → List (Request J) → List Str
deleted_ids [] = []
deleted_ids (r ∷ rs) = if is_delete r then r.id ∷ deleted_ids rs else deleted_ids rs

-- A deletion of a vertex is one of `D`.
abbrev pub is_gone : {J : Type 0} → List Str → Request J → Bool
is_gone D r = not (is_delete r) || has_object r.id D

abbrev pub no_link : {J : Type 0} → Request J → Bool
no_link r = not (is_link_op r.op)

-- The name of a field at the top of a document.
abbrev pub is_name : Str → Bool
is_name s = all_of (λ (c : ℕ). not (c == dot)) s

pub has_object_head : (id : Str) (D : List Str) → has_object id (id ∷ D) ≡ true
unfolding has_object
has_object_head id D = ground (arith, str_eq_iff id id)

module _ {J W : Type 0} (ctx : Context J W) where
  -- The vertex that a request for a link names as the link's end.
  abbrev pub target : Request J → Str
  target r = or_default [] (string_at ctx r.payload (codes "descendant_uuid"))

  -- A request for a link names none of `D`.
  abbrev pub spares : List Str → Request J → Bool
  spares D r = not (is_link_op r.op) || not (has_object r.id D || has_object (target r) D)

  pub is_gone_more :
      (id : Str) (D : List Str) (rs : List (Request J))
      → all_of (is_gone D) rs ≡ true
      → all_of (is_gone (id ∷ D)) rs ≡ true
  unfolding has_object
  is_gone_more id D [] h = refl
  is_gone_more id D (r ∷ rs) h = ground (arith, h, is_gone_more id D rs)

  pub deleted_ids-is_gone :
      (D : List Str) (x : Str) (rs : List (Request J))
      → all_of (is_gone D) rs ≡ true
      → has_object x (deleted_ids rs) ≡ true
      → has_object x D ≡ true
  unfolding has_object deleted_ids
  deleted_ids-is_gone D x [] h e = cc
  deleted_ids-is_gone D x (r ∷ rs) h e =
      ground (arith, h, e, str_eq_iff r.id x, deleted_ids-is_gone D x rs)

  -- What is spared of more is spared of less.
  pub spares_less :
      (D E : List Str) (rs : List (Request J))
      → ((x : Str) → has_object x E ≡ true → has_object x D ≡ true)
      → all_of (spares D) rs ≡ true
      → all_of (spares E) rs ≡ true
  spares_less D E [] sub h = refl
  spares_less D E (r ∷ rs) sub h =
      ground (arith, h, sub r.id, sub (target r), spares_less D E rs sub)

  pub no_link-spares :
      (D : List Str) (rs : List (Request J))
      → all_of no_link rs ≡ true
      → all_of (spares D) rs ≡ true
  no_link-spares D [] h = refl
  no_link-spares D (r ∷ rs) h = ground (arith, h, no_link-spares D rs)

  -- What is asked of a request once the deleted objects are `D`.
  abbrev pub is_tame : List Str → Request J → Bool
  is_tame D r = spares D r && is_gone D r

  pub no_link-is_tame :
      (D : List Str) (rs : List (Request J))
      → all_of no_link rs ≡ true
      → all_of (is_gone D) rs ≡ true
      → all_of (is_tame D) rs ≡ true
  no_link-is_tame D [] h k = refl
  no_link-is_tame D (r ∷ rs) h k = ground (arith, h, k, no_link-is_tame D rs)

  pub is_tame-both :
      (D : List Str) (rs : List (Request J))
      → all_of (is_tame D) rs ≡ true
      → (all_of (spares D) rs ≡ true) × (all_of (is_gone D) rs ≡ true)
  is_tame-both D [] h = (refl, refl)
  is_tame-both D (r ∷ rs) h =
      (ground (arith, h, is_tame-both D rs), ground (arith, h, is_tame-both D rs))

  pub neither :
      (D : List Str) (a b : Str)
      → (has_object a D || has_object b D) ≡ false
      → (has_object a D ≡ false) × (has_object b D ≡ false)
  neither D a b e = (ground (arith, e), ground (arith, e))

  pub unless-IsKept :
      (p : Request J → Bool) (b : Bool) (k : Action J W (Unit {0}))
      → (b ≡ false → IsKept ctx p k)
      → IsKept ctx p (if b then pure tt else k)
  unless-IsKept p true k h = pure-IsKept ctx p tt
  unless-IsKept p false k h = h refl

  -- The deletions requested so far are those of `D`.
  abbrev pub IsTracked : List Str → State J W → Type 0
  IsTracked D s = sent_pass ctx (is_gone D) s ≡ true

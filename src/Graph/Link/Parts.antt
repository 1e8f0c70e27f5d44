-- ===== src/Graph/Link/Parts.antt =====
-- LLAPILinkCreate, LLAPILinkUpdate and LLAPILinkDelete of embedded/graph/crud/ll_crud.go in parts: each returns.
use foliage_sdk.Common.{Option, none, some}
use foliage_sdk.Common.Int.{ℤ}
use foliage_sdk.Common.Text.{Str}
use foliage_sdk.Graph.Context.{Context}
use foliage_sdk.Graph.Returns.{
  Returns, Returns-pure, Returns-reads, Returns-set, Returns-delete, Returns-send, Returns->>=,
  Returns-if, Returns-for_each,
}
use foliage_sdk.Graph.Link.{
  or_unique, generate_name, name_link, store_link, delete_name, delete_indices, tell_end,
  delete_there, update_there,
}

module _ {J W : Type 0} (ctx : Context J W) (print_name : ℤ → Str) (unique_str_id : W → Str)
    (before_separator : Str → Str) where
  pub or_unique-Returns :
      (o : Option Str) → Returns (or_unique ctx print_name unique_str_id before_separator o)
  or_unique-Returns none = Returns-reads unique_str_id
  or_unique-Returns (some s) = Returns-pure s

  generate_name-Returns :
      (self : Str) → Returns (generate_name ctx print_name unique_str_id before_separator self)
  unfolding generate_name
  generate_name-Returns self =
      Returns->>= _ _ (Returns-reads _)
        (λ n. Returns->>= _ _ (Returns-set ctx _ _) (λ u. Returns-pure _))

  pub name_link-Returns :
      (self : Str) (body : J) (o : Option Str)
      → Returns (name_link ctx print_name unique_str_id before_separator self body o)
  unfolding name_link
  name_link-Returns self body none =
      Returns->>= _ _ (generate_name-Returns self) (λ name. Returns-pure _)
  name_link-Returns self body (some name) = Returns->>= _ _ (Returns-reads _) (λ taken.
      Returns-if taken _ _ (Returns->>= _ _ (generate_name-Returns self) (λ n. Returns-pure _))
        (Returns-pure _))

  pub store_link-Returns :
      (self lt to : Str) (p : J × Str)
      → Returns (store_link ctx print_name unique_str_id before_separator self lt to p)
  unfolding store_link
  store_link-Returns self lt to p = Returns->>= _ _ (Returns-set ctx _ _) (λ u1.
      Returns->>= _ _ (Returns-set ctx _ _) (λ u2.
        Returns->>= _ _ (Returns-set ctx _ _)
          (λ u3. Returns-for_each _ _ (λ tag. Returns-set ctx _ _))))

  delete_name-Returns :
      (self lt to : Str) (o : Option Str)
      → Returns (delete_name ctx print_name unique_str_id before_separator self lt to o)
  delete_name-Returns self lt to none = Returns-pure tt
  delete_name-Returns self lt to (some name) =
      Returns->>= _ _ (Returns-delete ctx _) (λ u. Returns-delete ctx _)

  delete_indices-Returns :
      (self lt to : Str) (o : Option J)
      → Returns (delete_indices ctx print_name unique_str_id before_separator self lt to o)
  unfolding delete_indices
  delete_indices-Returns self lt to none = Returns-pure tt
  delete_indices-Returns self lt to (some body) =
      Returns->>= _ _ (delete_name-Returns self lt to _)
        (λ u. Returns-for_each _ _ (λ tag. Returns-delete ctx _))

  pub tell_end-Returns :
      (typename suffix query_id self lt to : Str)
      → Returns (
          tell_end ctx print_name unique_str_id before_separator typename suffix query_id self lt
            to)
  unfolding tell_end
  tell_end-Returns typename suffix query_id self lt to =
      Returns->>= _ _ (Returns-send ctx _ _ _) (λ r. Returns-pure tt)

  pub delete_there-Returns :
      (typename query_id self lt to : Str)
      → Returns
          (delete_there ctx print_name unique_str_id before_separator typename query_id self lt to)
  unfolding delete_there
  delete_there-Returns typename query_id self lt to = Returns->>= _ _ (Returns-reads _) (λ body.
      Returns->>= _ _ (Returns-delete ctx _) (λ u1.
        Returns->>= _ _ (delete_indices-Returns self lt to body) (λ u2.
          Returns->>= _ _ (tell_end-Returns typename _ query_id self lt to)
            (λ u3. Returns-pure body))))

  pub update_there-Returns :
      (self lt to : Str) (old body : J)
      → Returns (update_there ctx print_name unique_str_id before_separator self lt to old body)
  unfolding update_there
  update_there-Returns self lt to old body =
      Returns->>= _ _ (delete_indices-Returns self lt to (some old)) (λ u.
        Returns->>= _ _ (name_link-Returns self body _) (λ (p : J × Str).
          Returns->>= _ _ (store_link-Returns self lt to p) (λ u'. Returns-pure p.0)))

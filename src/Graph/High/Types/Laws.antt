-- ===== src/Graph/High/Types/Laws.antt =====
-- embedded/graph/crud/hl_crud.go: what UpdateTypesLink asks for.
use mathlib.Core.Path.{subst}
use foliage_sdk.Common.{false, Option, none, some, List, [], ◌∷◌, ◌≡◌, refl, sym, ap, ◌∙◌, arith}
use foliage_sdk.Common.Text.{Str, codes}
use foliage_sdk.Graph.Context.{
  Context, Request, State, Result, ok, Action, pure, reads, ◌>>=◌, ◌>>◌, for_each,
}
use foliage_sdk.Graph.Outcome.{Ends, Ends->>=, Ends-pure, Ends-reads->>=, Ends-mono, ended}
use foliage_sdk.Graph.High.{Calls, Done, replied, text_at, text_or}
use foliage_sdk.Graph.High.Links.{body_key, targets, find_type_objects, get_types_link_body}
use foliage_sdk.Graph.High.Sending.{a_request, Sent, Ends-request_checked}
use foliage_sdk.Graph.High.Types.{
  rename_links, rename_object, rename_link, type_update, change_link_type, update_link_type,
  update_types_link_of, update_types_link, or_fail, is_empty,
}

module _ {J W : Type 0} (ctx : Context J W) (self : Str) (payload : J) where
  Ends-rename_object :
      (lt id : Str) (s : State J W)
      → ctx.get_keys s.world (body_key id [] (codes ">")) ≡ []
      → Ends (Sent s.sent) (rename_object ctx self payload [] lt id) s
  unfolding for_each
  Ends-rename_object lt id s h =
      Ends-reads->>= (Sent s.sent) _ (λ tos. for_each tos (rename_link ctx self payload id lt)) s
        (subst
          (λ keys.
            Ends (Sent s.sent) (for_each (targets keys) (rename_link ctx self payload id lt)) s)
          (sym h) (Ends-pure _ tt s refl))

  -- No link of an object has an empty type, so there is no link to rename.
  Ends-rename_links :
      (lt : Str) (objects : List Str) (s : State J W)
      → ((w : W) (id : Str) → ctx.get_keys w (body_key id [] (codes ">")) ≡ [])
      → Ends (Sent s.sent) (rename_links ctx self payload [] lt objects) s
  unfolding rename_links for_each
  Ends-rename_links lt [] s h = Ends-pure _ tt s refl
  Ends-rename_links lt (o ∷ objects) s h =
      Ends->>= (Sent s.sent) _ _ _ s (Ends-rename_object lt o s (h s.world o))
        (λ u s' e. Ends-mono _ s' (λ u' s'' e'. e' ∙ e) (Ends-rename_links lt objects s' h))

  abbrev pub type_change : Str → Str → Request J
  type_change to lt =
      a_request (codes "functions.graph.api.link.update") self (type_update ctx self payload to lt)

  Ends-renamed :
      (lt old : Str) (requests : List (Request J)) (s : State J W)
      → old ≡ []
      → s.sent ≡ requests
      → ((w : W) (id : Str) → ctx.get_keys w (body_key id [] (codes ">")) ≡ [])
      → Ends
          (Sent requests)
          (reads (λ w. find_type_objects ctx w self)
            >>= (λ objects. rename_links ctx self payload old lt objects >> pure replied))
          s
  Ends-renamed lt old requests s e e' h = Ends-reads->>= _ _ _ s (
      Ends->>= (Sent requests) _ _ _ s
        (subst
          (λ old'.
            Ends (Sent requests)
              (rename_links ctx self payload old' lt (find_type_objects ctx s.world self)) s)
          (sym e)
          (Ends-mono _ s (λ u s2 e2. e2 ∙ e')
            (Ends-rename_links lt (find_type_objects ctx s.world self) s h)))
        (λ u s2 e2. Ends-pure _ replied s2 e2))

  Ends-change_link_type :
      (to lt : Str) (body : J) (s : State J W)
      → text_at ctx body (codes "link_body.link_type") ≡ none
      → ((w : W) (id : Str) → ctx.get_keys w (body_key id [] (codes ">")) ≡ [])
      → Ends (Sent (type_change to lt ∷ s.sent)) (change_link_type ctx self payload to lt body) s
  unfolding change_link_type
  Ends-change_link_type to lt body s e h =
      Ends->>= (Sent (type_change to lt ∷ s.sent)) _ _ _ s (Ends-request_checked ctx _ self _ s)
        (λ j s1 e1. Ends-renamed lt _ _ s1 (ap (text_or []) e) e1 h)

  Ends-or_fail :
      {B : Type 0} (r : Result J) (body : J) (R : B → State J W → Type 0) (k : J → Action J W B)
      (s : State J W)
      → r ≡ ok body
      → Ends R (k body) s
      → Ends R (or_fail ctx self payload r >>= k) s
  unfolding ◌>>=◌ pure Ends
  Ends-or_fail r body R k s e h =
      subst (λ r'. Ends R (or_fail ctx self payload r' >>= k) s) (sym e) h

  Ends-update_types_link :
      (calls : Calls J W) (to lt : Str) (o : Option Str) (body : J) (s : State J W)
      → o ≡ some to
      → is_empty lt ≡ false
      → get_types_link_body ctx s.world self to ≡ ok body
      → text_at ctx body (codes "link_body.link_type") ≡ none
      → ((w : W) (id : Str) → ctx.get_keys w (body_key id [] (codes ">")) ≡ [])
      → Ends
          (Sent (type_change to lt ∷ s.sent))
          (update_types_link_of ctx self payload calls.is_non_empty_object o lt)
          s
  unfolding update_link_type
  Ends-update_types_link calls to (c ∷ lt) o body s e n b t h =
      subst
        (λ o'.
          Ends (Sent (type_change to (c ∷ lt) ∷ s.sent))
            (update_types_link_of ctx self payload calls.is_non_empty_object o' (c ∷ lt)) s)
        (sym e)
        (Ends-reads->>= _ _ _ s
          (Ends-or_fail _ body _ _ s b (Ends-change_link_type to (c ∷ lt) body s t h)))
  Ends-update_types_link calls to [] o body s e n b t h = ground arith

  -- A stored body that has no text at link_body.link_type: when UpdateTypesLink succeeds with a new type for
  -- the links of the objects, and no key of a link has an empty type, it has sent the update of the
  -- link between the types and nothing else; so no link of an object is updated.
  pub update_types_link-renames_none :
      (calls : Calls J W) (to lt : Str) (d : Done) (body : J) (s : State J W)
      → text_at ctx payload (codes "to") ≡ some to
      → text_or [] (text_at ctx payload (codes "object_link_type")) ≡ lt
      → is_empty lt ≡ false
      → get_types_link_body ctx s.world self to ≡ ok body
      → text_at ctx body (codes "link_body.link_type") ≡ none
      → ((w : W) (id : Str) → ctx.get_keys w (body_key id [] (codes ">")) ≡ [])
      → (update_types_link ctx self payload calls s).0 ≡ ok d
      → (update_types_link ctx self payload calls s).1.sent ≡ type_change to lt ∷ s.sent
  unfolding update_types_link
  update_types_link-renames_none calls to lt d body s t l n b none_there h e =
      ended (Sent (type_change to lt ∷ s.sent)) _ s d
        (subst
          (λ lt'.
            Ends (Sent (type_change to lt ∷ s.sent))
              (update_types_link_of ctx self payload calls.is_non_empty_object
                (text_at ctx payload (codes "to")) lt')
              s)
          (sym l) (Ends-update_types_link calls to lt _ body s t n b none_there h))
        e

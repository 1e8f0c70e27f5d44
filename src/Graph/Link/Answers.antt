-- ===== src/Graph/Link/Answers.antt =====
-- LLAPILinkCreate, LLAPILinkUpdate and LLAPILinkDelete of embedded/graph/crud/ll_crud.go answer every request.
use foliage_sdk.Common.{Option, none, some, [], ◌∷◌, ◌≡◌}
use foliage_sdk.Common.Int.{ℤ}
use foliage_sdk.Common.Text.{Str, codes}
use foliage_sdk.Graph.Context.{Context, State, Action, ok, nothing}
use foliage_sdk.Graph.Returns.{
  Returns, Returns-pure, Returns-reads, Returns-set, Returns-delete, Returns-send_by, Returns->>=,
  Returns-if, Returns-Ends,
}
use foliage_sdk.Graph.High.Triggers.{Cud, link_name}
use foliage_sdk.Graph.Link.{text_at}
use foliage_sdk.Graph.Link.Handlers.{
  change_in_key, at_end, delete_existing, create_out, link_create, delete_found, delete_out,
  link_delete,
}
use foliage_sdk.Graph.Link.Replies.{OfEnds, RepliesOfSelf, link_delete-OfEnds, link_create-OfEnds}
use foliage_sdk.Graph.OpStack.{StackCalls, Answer}
use foliage_sdk.Graph.OpStack.Laws.{JsonLaws}
use foliage_sdk.Graph.Link.Parts.{
  or_unique-Returns, name_link-Returns, store_link-Returns, tell_end-Returns, delete_there-Returns,
}

module _ {J W : Type 0} (ctx : Context J W) (print_name : ℤ → Str) (unique_str_id : W → Str)
    (before_separator : Str → Str) where
  module _ (calls : StackCalls J W) (options : Option J) (typename query_id self caller : Str) where
    change_in_key-Returns :
        (change : Str → Action J W (Unit {0})) (id lt : Str)
        → ((key : Str) → Returns (change key))
        → Returns (
            change_in_key ctx print_name unique_str_id before_separator calls options typename
              query_id self caller change id lt)
    change_in_key-Returns change [] lt h = Returns-pure _
    change_in_key-Returns change (c ∷ id) lt h = Returns->>= _ _ (h _) (λ u. Returns-pure _)

    at_end-Returns :
        (handler : Str) (change : Str → Action J W (Unit {0})) (o : Option Str)
        → ((key : Str) → Returns (change key))
        → Returns (
            at_end ctx print_name unique_str_id before_separator calls options typename query_id
              self caller handler change o)
    unfolding at_end
    at_end-Returns handler change none h = Returns-pure _
    at_end-Returns handler change (some lt) h = change_in_key-Returns change caller lt h

    delete_existing-Returns :
        (lt to : Str)
        → Returns (
            delete_existing ctx print_name unique_str_id before_separator calls options typename
              query_id self caller lt to)
    unfolding delete_existing
    delete_existing-Returns lt to = Returns-send_by _ _ _ _

    create_out-Returns :
        (payload : J) (body : Option J)
        → Returns (
            create_out ctx print_name unique_str_id before_separator calls options typename query_id
              self caller payload body)
    unfolding create_out
    create_out-Returns payload none = Returns-pure _
    create_out-Returns payload (some link_body) =
        Returns->>= _ _ (or_unique-Returns ctx print_name unique_str_id before_separator _) (λ lt.
          Returns->>= _ _ (or_unique-Returns ctx print_name unique_str_id before_separator _) (λ to.
            Returns->>= _ _ (Returns-reads _) (λ there.
              Returns->>= _ _
                (Returns-if there _ _ (delete_existing-Returns lt to) (Returns-pure none))
                (λ res.
                  Returns->>= _ _
                    (name_link-Returns ctx print_name unique_str_id before_separator self link_body
                      _)
                    (λ (p : J × Str).
                      Returns->>= _ _
                        (store_link-Returns ctx print_name unique_str_id before_separator self lt to
                          p)
                        (λ u.
                          Returns->>= _ _
                            (tell_end-Returns ctx print_name unique_str_id before_separator typename
                              _ query_id self lt to)
                            (λ u'. Returns-pure _)))))))

    link_create-Returns :
        (payload : J)
        → Returns (
            link_create ctx print_name unique_str_id before_separator calls options typename
              query_id self caller payload)
    unfolding link_create
    link_create-Returns payload =
        Returns-if (ctx.json.path_exists payload (codes "in_link_type")) _ _
          (at_end-Returns _ _ _ (λ key. Returns-set ctx key nothing)) (create_out-Returns payload _)

    delete_out-Returns :
        (lt to : Option Str)
        → Returns (
            delete_out ctx print_name unique_str_id before_separator calls options typename query_id
              self caller lt to)
    unfolding delete_out delete_found
    delete_out-Returns (some lt) (some to) = Returns->>= _ _ (Returns-reads _) (λ there.
        Returns-if there _ _
          (Returns->>= _ _
            (delete_there-Returns ctx print_name unique_str_id before_separator typename query_id
              self lt to)
            (λ body. Returns-pure _))
          (Returns-pure _))
    delete_out-Returns (some lt) none = Returns-pure _
    delete_out-Returns none to = Returns-pure _

    link_delete-Returns :
        (payload : J)
        → Returns (
            link_delete ctx print_name unique_str_id before_separator calls options typename
              query_id self caller payload)
    unfolding link_delete
    link_delete-Returns payload =
        Returns-if (ctx.json.path_exists payload (codes "in_link_type")) _ _
          (at_end-Returns _ _ _ (λ key. Returns-delete ctx key)) (delete_out-Returns _ _)

  module _ (calls : StackCalls J W) (laws : JsonLaws ctx calls) (options : Option J)
      (query_id self caller : Str) where
    -- LLAPILinkDelete answers every request that names the end of a link, and each operation of the
    -- stack of its answer, if there is one, is of both ends of the link; easyjson is as documented.
    pub link_delete_lem :
        (to : Str) (payload : J) (s : State J W)
        → text_at ctx print_name unique_str_id before_separator payload (codes "descendant_uuid")
          ≡ some to
        → (a : Answer J) × ((link_delete ctx print_name unique_str_id before_separator calls options
              (link_name Cud.delete)
              query_id
              self
              caller
              payload
              s).0
            ≡ ok a)
          × OfEnds ctx print_name unique_str_id before_separator calls laws options query_id self
              caller to a
              (link_delete ctx print_name unique_str_id before_separator calls options
                (link_name Cud.delete)
                query_id
                self
                caller
                payload
                s).1
    link_delete_lem to payload s e =
        Returns-Ends _ _ s
          (link_delete-Returns calls options (link_name Cud.delete) query_id self caller payload)
          (link_delete-OfEnds ctx print_name unique_str_id before_separator calls laws options
            query_id self caller to payload s e)

    -- LLAPILinkCreate answers every request that names the end of a link, and each operation of the
    -- stack of its answer, if there is one, is of both ends of the link, if the operations in the reply to the
    -- deletion of the link that is there are; easyjson is as documented.
    link_create_lem :
        (to : Str) (payload : J) (s : State J W)
        → RepliesOfSelf ctx print_name unique_str_id before_separator calls laws options query_id
            self caller
        → text_at ctx print_name unique_str_id before_separator payload (codes "descendant_uuid")
          ≡ some to
        → (a : Answer J) × ((link_create ctx print_name unique_str_id before_separator calls options
              (link_name Cud.create)
              query_id
              self
              caller
              payload
              s).0
            ≡ ok a)
          × OfEnds ctx print_name unique_str_id before_separator calls laws options query_id self
              caller to a
              (link_create ctx print_name unique_str_id before_separator calls options
                (link_name Cud.create)
                query_id
                self
                caller
                payload
                s).1
    link_create_lem to payload s of_self e =
        Returns-Ends _ _ s
          (link_create-Returns calls options (link_name Cud.create) query_id self caller payload)
          (link_create-OfEnds ctx print_name unique_str_id before_separator calls laws options
            query_id self caller of_self to payload s e)

-- ===== src/Graph/Link/Replies.antt =====
-- embedded/graph/crud/ll_crud.go: the stack that LLAPILinkDelete and LLAPILinkCreate answer with.
use foliage_sdk.Common.{Option, none, some, [], ◌∷◌, none-some, ◌≡◌, some_inj}
use mathlib.Core.Path.{subst}
use foliage_sdk.Common.Int.{ℤ}
use foliage_sdk.Common.Text.{Str, codes}
use foliage_sdk.Graph.Context.{Context, State, Action, send_by}
use foliage_sdk.Graph.Outcome.{
  Ends, Ends-pure, Ends-reads->>=, Ends->>=, Ends-mono, Ends-after_any, Ends-either,
}
use foliage_sdk.Graph.High.Triggers.{Cud, link_name}
use foliage_sdk.Graph.Link.{text_at, or_unique}
use foliage_sdk.Graph.Link.Handlers.{
  op_stack, body_of, at_end, change_in_key, delete_found, delete_out, link_delete, names_of_link,
  delete_existing, create_out, link_create,
}
use foliage_sdk.Graph.OpStack.{
  OpStack, StackCalls, Answer, merge_reply, add_link_op, get_op_stack_from_options,
}
use foliage_sdk.Graph.OpStack.Laws.{
  JsonLaws, AllOf, stack_in, link_op-IsOf_start, link_op-IsOf_end, AllOf-add_op, AllOf-merge_reply,
  AllOf-get_op_stack,
}

module _ {J W : Type 0} (ctx : Context J W) (print_name : ℤ → Str) (unique_str_id : W → Str)
    (before_separator : Str → Str) (calls : StackCalls J W) (laws : JsonLaws ctx calls)
    (options : Option J) (query_id self caller : Str) where
  abbrev text_of : J → Str → Option Str
  text_of j path = text_at ctx print_name unique_str_id before_separator j path

  -- The operations of an answer are of both ends of a link.
  abbrev pub OfEnds : Str → Answer J → State J W → Type 0
  OfEnds to a s = AllOf ctx calls laws self a.stack × AllOf ctx calls laws to a.stack

  change_in_key-OfEnds :
      (typename to id lt : Str) (change : Str → Action J W (Unit {0})) (s : State J W)
      → Ends
          (OfEnds to)
          (change_in_key ctx print_name unique_str_id before_separator calls options typename
            query_id self caller change id lt)
          s
  change_in_key-OfEnds typename to [] lt change s = Ends-pure (OfEnds to) _ s (tt, tt)
  change_in_key-OfEnds typename to (c ∷ id) lt change s =
      Ends-after_any (OfEnds to) _ _ s (λ u s'. Ends-pure (OfEnds to) _ s' (tt, tt))

  at_end-OfEnds :
      (typename to handler : Str) (change : Str → Action J W (Unit {0})) (lt : Option Str)
      (s : State J W)
      → Ends
          (OfEnds to)
          (at_end ctx print_name unique_str_id before_separator calls options typename query_id self
            caller handler change lt)
          s
  unfolding at_end
  at_end-OfEnds typename to handler change none s = Ends-pure (OfEnds to) _ s (tt, tt)
  at_end-OfEnds typename to handler change (some lt) s =
      change_in_key-OfEnds typename to caller lt change s

  op_added :
      (k : Cud) (to lt : Str) (stack : OpStack J) (old_body new_body : Option J)
      → AllOf ctx calls laws self stack × AllOf ctx calls laws to stack
      → AllOf ctx calls laws self (add_link_op ctx stack (link_name k) self to lt old_body new_body)
        × AllOf ctx calls laws to (add_link_op ctx stack (link_name k) self to lt old_body new_body)
  unfolding add_link_op
  op_added k to lt stack old_body new_body h = (
    AllOf-add_op ctx calls laws self stack _ h.0
        (link_op-IsOf_start ctx calls laws k self to lt old_body new_body),
    AllOf-add_op ctx calls laws to stack _ h.1
        (link_op-IsOf_end ctx calls laws k self to lt old_body new_body),
  )

  own_stack :
      (to : Str)
      → AllOf ctx calls laws self (
          op_stack ctx print_name unique_str_id before_separator calls options [] query_id self
            caller)
        × AllOf ctx calls laws to (
            op_stack ctx print_name unique_str_id before_separator calls options [] query_id self
              caller)
  own_stack to =
      (AllOf-get_op_stack ctx calls laws self options, AllOf-get_op_stack ctx calls laws to options)

  delete_out-OfEnds :
      (to : Str) (lt o : Option Str) (s : State J W)
      → o ≡ some to
      → Ends
          (OfEnds to)
          (delete_out ctx print_name unique_str_id before_separator calls options
            (link_name Cud.delete)
            query_id
            self
            caller
            lt
            o)
          s
  unfolding delete_out delete_found
  delete_out-OfEnds to (some lt) (some to') s e =
      subst
        (λ x.
          Ends (OfEnds x)
            (delete_out ctx print_name unique_str_id before_separator calls options
              (link_name Cud.delete) query_id self caller (some lt) (some to'))
            s)
        (some_inj e)
        (Ends-reads->>= (OfEnds to') _ _ s (
          Ends-either (OfEnds to') _ _ _ s
            (Ends-after_any (OfEnds to') _ _ s (λ link_body s'.
              Ends-pure (OfEnds to') _ s'
                (op_added Cud.delete to' lt _ link_body none (own_stack to'))))
            (Ends-pure (OfEnds to') _ s (own_stack to'))))
  delete_out-OfEnds to (some lt) none s e = Ends-pure (OfEnds to) _ s (own_stack to)
  delete_out-OfEnds to none o s e = Ends-pure (OfEnds to) _ s (own_stack to)

  -- When LLAPILinkDelete, for a link to the vertex that the payload names, answers with a stack, each
  -- of its operations is of both ends of the link.
  pub link_delete-OfEnds :
      (to : Str) (payload : J) (s : State J W)
      → text_of payload (codes "descendant_uuid") ≡ some to
      → Ends
          (OfEnds to)
          (link_delete ctx print_name unique_str_id before_separator calls options
            (link_name Cud.delete)
            query_id
            self
            caller
            payload)
          s
  unfolding link_delete
  link_delete-OfEnds to payload s e =
      Ends-either (OfEnds to) _ _ _ s (at_end-OfEnds (link_name Cud.delete) to _ _ _ s)
        (delete_out-OfEnds to (text_of payload (codes "link_type")) _ s e)

  -- The replies to the deletion of the link that is there.
  abbrev pub RepliesOfSelf : Type 0
  RepliesOfSelf =
      (w : W) (lt to : Str)
      → let reply =
          stack_in ctx calls laws
            (calls.request_with options w (codes "functions.graph.api.link.delete") self (
              names_of_link ctx print_name unique_str_id before_separator calls options
                (link_name Cud.create) query_id self caller lt to)).0 in
        AllOf ctx calls laws self reply × AllOf ctx calls laws to reply

  module _ (of_self : RepliesOfSelf) where
    existing-OfEnds :
        (to lt : Str) (s : State J W)
        → Ends
            (λ res s'.
              AllOf ctx calls laws self (stack_in ctx calls laws res)
              × AllOf ctx calls laws to (stack_in ctx calls laws res))
            (delete_existing ctx print_name unique_str_id before_separator calls options
              (link_name Cud.create)
              query_id
              self
              caller
              lt
              to)
            s
    unfolding delete_existing send_by Ends
    existing-OfEnds to lt s = of_self s.world lt to

    merged :
        (to : Str) (res : Option J)
        → AllOf ctx calls laws self (stack_in ctx calls laws res)
          × AllOf ctx calls laws to (stack_in ctx calls laws res)
        → AllOf ctx calls laws self
            (merge_reply ctx calls (get_op_stack_from_options ctx options) res)
          × AllOf ctx calls laws to
              (merge_reply ctx calls (get_op_stack_from_options ctx options) res)
    merged to res h = (
      AllOf-merge_reply ctx calls laws self _ res (own_stack to).0 h.0,
      AllOf-merge_reply ctx calls laws to _ res (own_stack to).1 h.1,
    )

    or_unique-some :
        (to : Str) (o : Option Str) (s : State J W)
        → o ≡ some to
        → Ends (λ to' s'. to' ≡ to) (or_unique ctx print_name unique_str_id before_separator o) s
    or_unique-some to none s e = none-some e
    or_unique-some to (some to') s e = Ends-pure _ to' s (some_inj e)

    abbrev OfBoth : Str → Option J → State J W → Type 0
    OfBoth to res s =
        AllOf ctx calls laws self (stack_in ctx calls laws res)
        × AllOf ctx calls laws to (stack_in ctx calls laws res)

    create_out-OfEnds :
        (to : Str) (payload : J) (body : Option J) (s : State J W)
        → text_of payload (codes "descendant_uuid") ≡ some to
        → Ends
            (OfEnds to)
            (create_out ctx print_name unique_str_id before_separator calls options
              (link_name Cud.create)
              query_id
              self
              caller
              payload
              body)
            s
    unfolding create_out
    create_out-OfEnds to payload none s e = Ends-pure (OfEnds to) _ s (tt, tt)
    create_out-OfEnds to payload (some link_body) s e = Ends-after_any (OfEnds to) _ _ s (λ lt s1.
        Ends->>= (λ to' s'. to' ≡ to) (OfEnds to) _ _ s1 (or_unique-some to _ s1 e)
          (λ to' s2 same.
            Ends-mono {Q = OfEnds to'} _ s2 (λ a s' h. subst (λ x. OfEnds x a s') same h)
              (Ends-reads->>= (OfEnds to') _ _ s2 (
                Ends->>= (OfBoth to') (OfEnds to') _ _ s2
                  (Ends-either (OfBoth to') _ _ _ s2 (existing-OfEnds to' lt s2)
                    (Ends-pure (OfBoth to') none s2 (tt, tt)))
                  (λ res s3 of. Ends-after_any (OfEnds to') _ _ s3 (λ (body_and_name : J × Str) s4.
                    Ends-after_any (OfEnds to') _ _ s4 (λ u s5.
                      Ends-after_any (OfEnds to') _ _ s5 (λ u' s6. Ends-pure (OfEnds to') _ s6 (
                        op_added Cud.create to' lt _ none (some body_and_name.0)
                          (merged to' res of))))))))))

    -- When LLAPILinkCreate, for a link to the vertex that the payload names, answers with a stack, each
    -- of its operations is of both ends of the link, if those are in the reply to the deletion of a link
    -- that is there.
    pub link_create-OfEnds :
        (to : Str) (payload : J) (s : State J W)
        → text_of payload (codes "descendant_uuid") ≡ some to
        → Ends
            (OfEnds to)
            (link_create ctx print_name unique_str_id before_separator calls options
              (link_name Cud.create)
              query_id
              self
              caller
              payload)
            s
    unfolding link_create
    link_create-OfEnds to payload s e =
        Ends-either (OfEnds to) _ _ _ s (at_end-OfEnds (link_name Cud.create) to _ _ _ s) (
          create_out-OfEnds to payload
            (body_of ctx print_name unique_str_id before_separator calls options
              (link_name Cud.create) query_id self caller payload)
            s e)

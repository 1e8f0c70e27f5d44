-- ===== src/Graph/Vertex/Laws.antt =====
-- embedded/graph/crud/ll_crud.go: what LLAPIVertexDelete answers.
use foliage_sdk.Common.{Option, none, some, List, [], ◌∷◌, ◌≡◌, refl}
use foliage_sdk.Common.Text.{Str, codes}
use foliage_sdk.Graph.Keys.{last_two_of, name_gen}
use foliage_sdk.Graph.Context.{
  Context, State, Action, pure, raise, reads, ◌>>=◌, ◌>>◌, send_by, delete,
}
use foliage_sdk.Graph.Outcome.{Ends, Ends-pure, Ends-reads->>=, Ends->>=}
use foliage_sdk.Graph.High.Triggers.{Cud, vertex_name}
use foliage_sdk.Graph.OpStack.{OpStack, StackCalls, Answer, succeeded, merge_each, add_vertex_op}
use foliage_sdk.Graph.OpStack.Laws.{
  JsonLaws, AllOf, stack_in, vertex_op-IsOf, AllOf-add_op, AllOf-merge_reply, AllOf-get_op_stack,
}
use foliage_sdk.Graph.Vertex.{
  delete_link_payload, delete_link, delete_out_link, delete_in_link, vertex_delete, body_for,
}

module _ {J W : Type 0} (ctx : Context J W) (calls : StackCalls J W) (laws : JsonLaws ctx calls)
    (options : Option J) (query_id self : Str) where
  abbrev payload_of : Str → Str → J
  payload_of lt to =
      delete_link_payload ctx calls options (vertex_name Cud.delete) query_id self lt to

  abbrev stack_of_deletion : W → Str → Str → Str → OpStack J
  stack_of_deletion w from lt to =
      stack_in ctx calls laws
        (calls.request_with options w (codes "functions.graph.api.link.delete") from
          (payload_of lt to)).0

  -- The operations in a reply to the deletion of a link are of both its ends.
  abbrev pub RepliesOfEnds : Type 0
  RepliesOfEnds =
      (w : W) (from lt to : Str)
      → AllOf ctx calls laws from (stack_of_deletion w from lt to)
        × AllOf ctx calls laws to (stack_of_deletion w from lt to)

  module _ (of_ends : RepliesOfEnds) where
    abbrev OfSelf : Option J → State J W → Type 0
    OfSelf res s = AllOf ctx calls laws self (stack_in ctx calls laws res)

    out_link-OfSelf :
        (pair : Option (Str × Str)) (s : State J W)
        → Ends OfSelf
            (delete_out_link ctx calls options (vertex_name Cud.delete) query_id self pair)
            s
    unfolding delete_out_link delete_link send_by Ends raise
    out_link-OfSelf none s = tt
    out_link-OfSelf (some (lt, to)) s = (of_ends s.world self lt to).0

    in_link-OfSelf :
        (pair : Option (Str × Str)) (s : State J W)
        → Ends OfSelf
            (delete_in_link ctx calls options (vertex_name Cud.delete) query_id self pair)
            s
    unfolding delete_in_link delete_link send_by Ends raise
    in_link-OfSelf none s = tt
    in_link-OfSelf (some (from, lt)) s = (of_ends s.world from lt self).1

    abbrev StackOfSelf : OpStack J → State J W → Type 0
    StackOfSelf stack s = AllOf ctx calls laws self stack

    merge_each-AllOf :
        {A : Type 0} (keys : List A) (f : A → Action J W (Option J)) (stack : OpStack J)
        (s : State J W)
        → ((a : A) (s' : State J W) → Ends OfSelf (f a) s')
        → AllOf ctx calls laws self stack
        → Ends StackOfSelf (merge_each ctx calls keys f stack) s
    unfolding merge_each
    merge_each-AllOf [] f stack s h k = Ends-pure StackOfSelf stack s k
    merge_each-AllOf (a ∷ keys) f stack s h k =
        Ends->>= OfSelf StackOfSelf (f a) _ s (h a s) (λ res s' of.
          merge_each-AllOf keys f _ s' h (AllOf-merge_reply ctx calls laws self stack res k of))

    abbrev pub AnswerOfSelf : Answer J → State J W → Type 0
    AnswerOfSelf a s = (a.status ≡ some (codes "ok")) × AllOf ctx calls laws self a.stack

    delete_last-AllOf :
        (stack : OpStack J) (s : State J W)
        → AllOf ctx calls laws self stack
        → Ends AnswerOfSelf
            (delete ctx (name_gen self)
              >> (reads (body_for ctx calls options (vertex_name Cud.delete) query_id self stack)
                  >>= (λ old_body.
                      delete ctx self
                      >> pure (
                          succeeded (
                            add_vertex_op ctx stack (vertex_name Cud.delete) self old_body none)))))
            s
    unfolding delete reads ◌>>=◌ pure Ends add_vertex_op
    delete_last-AllOf stack s h = (
      refl,
      AllOf-add_op ctx calls laws self stack _ h
          (vertex_op-IsOf ctx calls laws Cud.delete self _ none),
    )

    -- LLAPIVertexDelete, when it ends, answers ok and with a stack, if it is asked for one, of which each operation is of the vertex
    -- or of a link that begins or ends at it, when the replies to the deletion of a link are so.
    pub vertex_delete-AllOf :
        (s : State J W)
        → Ends AnswerOfSelf
            (vertex_delete ctx calls options (vertex_name Cud.delete) query_id self)
            s
    unfolding vertex_delete
    vertex_delete-AllOf s = Ends-reads->>= AnswerOfSelf _ _ s (
        Ends->>= StackOfSelf AnswerOfSelf _ _ s
          (merge_each-AllOf _ _ _ s (λ key s1. out_link-OfSelf (last_two_of key) s1)
            (AllOf-get_op_stack ctx calls laws self options))
          (λ out_stack s2 of. Ends-reads->>= AnswerOfSelf _ _ s2 (
            Ends->>= StackOfSelf AnswerOfSelf _ _ s2
              (merge_each-AllOf _ _ out_stack s2 (λ key s3. in_link-OfSelf (last_two_of key) s3) of)
              (λ stack s4 of'. delete_last-AllOf stack s4 of'))))

-- ===== src/Graph/High/Objects/Deletion.antt =====
-- embedded/graph/crud/hl_crud.go and ll_crud.go: DeleteObject when LLAPIVertexDelete serves its request.
use mathlib.Core.Path.{subst}
use foliage_sdk.Common.{
  ℕ, Bool, true, false, none, some, [], ◌∷◌, ◌≡◌, refl, sym, ◌∙◌, All, if◌then◌else◌,
}
use foliage_sdk.Common.Text.{Str, codes, str_eq}
use foliage_sdk.Graph.Context.{Context, State, ok, reads, signal, pure, for_each, ◌>>=◌, send_by}
use foliage_sdk.Graph.Outcome.{ended}
use foliage_sdk.Graph.High.{
  Calls, replied, text_at, text_or, put, check_request_error, request_stack,
}
use foliage_sdk.Graph.High.Links.{find_object_type, is_vertex_an_object}
use foliage_sdk.Graph.High.Objects.{delete_object}
use foliage_sdk.Graph.High.Triggers.{
  Cud, vertex_name, or_no_ops, triggers_from_op_stack, fire, request_firing,
}
use foliage_sdk.Graph.High.Triggers.Silence.{triggers_from_op_stack-silent}
use foliage_sdk.Graph.OpStack.{OpStack, StackCalls, Answer, result_of}
use foliage_sdk.Graph.OpStack.Results.{stack_in-result_of, status-result_of}
use foliage_sdk.Graph.OpStack.Laws.{JsonLaws, AllOf, IsOf}
use foliage_sdk.Graph.Vertex.{vertex_delete}
use foliage_sdk.Graph.Vertex.Laws.{RepliesOfEnds, vertex_delete-AllOf}

module _ {J W : Type 0} (ctx : Context J W) (calls : Calls J W) where
  -- `options` of DeleteObject
  abbrev pub stack_option : J
  stack_option = put ctx (codes "return_op_stack") (ctx.json.of_bool Bool.true) ctx.json.new_object

  check_request_error-ok :
      (r : J) (s : State J W)
      → text_at ctx r (codes "status") ≡ some (codes "ok")
      → check_request_error ctx (some r) s ≡ (ok r, s)
  unfolding check_request_error str_eq pure
  check_request_error-ok r s e = rw e refl

  fire-silent :
      (r : J) (s : State J W)
      → triggers_from_op_stack ctx calls s.world (ctx.json.get_by_path r (codes "op_stack")) ≡ []
      → fire ctx calls r s ≡ (ok tt, s)
  unfolding fire reads for_each ◌>>=◌ pure
  fire-silent r s e = by_test (ctx.json.path_exists r (codes "op_stack"))
    where
      by_test :
          (b : Bool)
          → for_each
              (if b
                then triggers_from_op_stack ctx calls s.world
                    (ctx.json.get_by_path r (codes "op_stack"))
                else [])
              signal
              s
            ≡ (ok tt, s)
      by_test true = rw e refl
      by_test false = refl

  -- What DeleteObject has done when its request is answered.
  request_firing-silent :
      (op id : Str) (j r : J) (w : W) (s : State J W)
      → calls.request_with stack_option s.world op id j ≡ (some r, w)
      → text_at ctx r (codes "status") ≡ some (codes "ok")
      → triggers_from_op_stack ctx calls w (ctx.json.get_by_path r (codes "op_stack")) ≡ []
      → request_firing ctx calls op id j s
        ≡ (ok tt, record s { world = w; sent = record { op = op; id = id; payload = j } ∷ s.sent })
  unfolding request_firing request_stack send_by ◌>>=◌
  request_firing-silent op id j r w s served status silent =
      rw (served, check_request_error-ok r _ status) (fire-silent r _ silent)

  -- The world that a handler finds for its request.
  abbrev pub begin_with : W → State J W
  begin_with w = record { world = w; sent = []; signalled = []; written = [] }

  module _ (stacks : StackCalls J W) (laws : JsonLaws ctx stacks)
      (same_elements : (j : J) → calls.elements j ≡ stacks.elements j) where
    All-or_no_ops :
        (id : Str) (stack : OpStack J)
        → AllOf ctx stacks laws id stack
        → All (λ op. IsOf ctx stacks laws id op) (or_no_ops ctx calls stack)
    All-or_no_ops id none h = tt
    All-or_no_ops id (some ops) h = h

    All-result_of :
        (id : Str) (a : Answer J)
        → AllOf ctx stacks laws id a.stack
        → All
            (λ op. IsOf ctx stacks laws id op)
            (or_no_ops ctx calls
              (calls.elements (ctx.json.get_by_path (result_of ctx stacks a) (codes "op_stack"))))
    All-result_of id a h =
        subst (λ o. All (λ op. IsOf ctx stacks laws id op) (or_no_ops ctx calls o))
          (sym (same_elements _ ∙ stack_in-result_of ctx stacks laws a))
          (All-or_no_ops id a.stack h)

    no_object :
        (w : W) (id : Str) → find_object_type ctx w id ≡ [] → is_vertex_an_object ctx w id ≡ false
    unfolding is_vertex_an_object
    no_object w id e = rw e refl

    -- DeleteObject of a vertex, with LLAPIVertexDelete to serve its request, replies ok and signals nothing when the
    -- type of the object cannot be found once it is deleted, whatever functions the type lists for
    -- deletions: the replies to the deletions of links are of the links' ends, and easyjson is as
    -- documented.
    pub delete_object-silent :
        (fuel : ℕ) (self query_id : Str) (payload : J) (a : Answer J) (s : State J W)
        → RepliesOfEnds ctx stacks laws (some stack_option) query_id self
        → text_or (codes "vertex") (text_at ctx payload (codes "mode")) ≡ codes "vertex"
        → (vertex_delete ctx stacks
            (some stack_option)
            (vertex_name Cud.delete)
            query_id
            self
            (begin_with s.world)).0
          ≡ ok a
        → calls.request_with stack_option s.world (vertex_name Cud.delete) self ctx.json.new_object
          ≡ (
            some (result_of ctx stacks a),
            (vertex_delete ctx stacks
                (some stack_option)
                (vertex_name Cud.delete)
                query_id
                self
                (begin_with s.world)).1.world,
          )
        → find_object_type ctx
            (vertex_delete ctx stacks
              (some stack_option)
              (vertex_name Cud.delete)
              query_id
              self
              (begin_with s.world)).1.world
            self
          ≡ []
        → ((delete_object ctx calls self payload fuel s).0 ≡ ok replied)
          × ((delete_object ctx calls self payload fuel s).1.signalled ≡ s.signalled)
    unfolding delete_object str_eq ◌>>=◌ pure
    delete_object-silent fuel self query_id payload a s ends mode answered served gone =
        let (status, of_self) =
          ended _ _ (begin_with s.world) a
            (vertex_delete-AllOf ctx stacks laws (some stack_option) query_id self ends
              (begin_with s.world))
            answered in
        let fired =
          request_firing-silent (vertex_name Cud.delete) self ctx.json.new_object
            (result_of ctx stacks a) _ s served (status-result_of ctx stacks laws a _ status)
            (triggers_from_op_stack-silent ctx calls stacks laws _ self (no_object _ self gone) _
              (All-result_of self a of_self)) in
        rw (mode, fired) (refl, refl)

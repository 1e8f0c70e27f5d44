-- ===== src/Graph/OpStack/Results.antt =====
-- embedded/graph/crud/ll_crud.go: what is read back from the result of a handler.
use foliage_sdk.Common.{none-some, true, Option, none, some, ◌≡◌, refl, ap, ◌∙◌}
use foliage_sdk.Common.Text.{Str, codes, str_eq, split}
use foliage_sdk.Graph.Context.{Context}
use foliage_sdk.Graph.OpStack.{
  OpStack, StackCalls, Answer, add_op_stack_to_result, result_of, put_status, put_text,
}
use foliage_sdk.Graph.OpStack.Laws.{
  JsonLaws, text_at, stack_in, text-put_text, text-put_text_ne, is_object-put_text,
}

module _ {J W : Type 0} (ctx : Context J W) (calls : StackCalls J W)
    (laws : JsonLaws ctx calls) where
  put_status_is_object :
      (status : Option Str) (content : Str)
      → ctx.json.is_object
          (put_text ctx (codes "result") content (put_status ctx calls status ctx.json.new_object))
        ≡ true
  put_status_is_object none content =
      is_object-put_text ctx calls laws _ content _ laws.new_is_object
  put_status_is_object (some s) content =
      is_object-put_text ctx calls laws _ content _
        (is_object-put_text ctx calls laws _ s _ laws.new_is_object)

  elements-no_stack :
      (status : Option Str) (content : Str)
      → calls.elements (
          ctx.json.get_by_path
            (put_text ctx
              (codes "result")
              content
              (put_status ctx calls status ctx.json.new_object))
            (codes "op_stack"))
        ≡ none
  unfolding split str_eq
  elements-no_stack none content =
      ap calls.elements (laws.get_put_ne _ _ (codes "result") (codes "op_stack") refl refl refl)
      ∙ laws.no_elements _
  elements-no_stack (some s) content =
      ap calls.elements (
        laws.get_put_ne _ _ (codes "result") (codes "op_stack") refl refl refl
        ∙ laws.get_put_ne _ _ (codes "status") (codes "op_stack") refl refl refl)
      ∙ laws.no_elements _

  -- The stack of an answer is read back from its result.
  pub stack_in-result_of :
      (a : Answer J) → stack_in ctx calls laws (some (result_of ctx calls a)) ≡ a.stack
  unfolding result_of add_op_stack_to_result split
  stack_in-result_of a = read_back a.stack
    where
      read_back :
          (stack : OpStack J)
          → stack_in ctx calls laws (some (result_of ctx calls (record a { stack = stack })))
            ≡ stack
      read_back none = elements-no_stack a.status a.content
      read_back (some ops) = rw (put_status_is_object a.status a.content) (
          ap calls.elements (
            laws.get_put _ (calls.of_array ops) (codes "op_stack")
              (put_status_is_object a.status a.content) refl)
          ∙ laws.elements_of ops)

  text-put_status :
      (status : Option Str) (content s : Str)
      → status ≡ some s
      → text_at ctx calls laws
          (put_text ctx (codes "result") content (put_status ctx calls status ctx.json.new_object))
          (codes "status")
        ≡ some s
  unfolding split str_eq
  text-put_status none content s e = none-some e
  text-put_status (some s') content s e =
      text-put_text_ne ctx calls laws (codes "result") (codes "status") content _ refl refl refl
      ∙ (text-put_text ctx calls laws (codes "status") s' _ laws.new_is_object refl ∙ e)

  pub status-result_of :
      (a : Answer J) (s : Str)
      → a.status ≡ some s
      → text_at ctx calls laws (result_of ctx calls a) (codes "status") ≡ some s
  unfolding result_of add_op_stack_to_result split str_eq
  status-result_of a s e = read_back a.stack
    where
      read_back :
          (stack : OpStack J)
          → text_at ctx calls laws
              (result_of ctx calls (record a { stack = stack }))
              (codes "status")
            ≡ some s
      read_back none = text-put_status a.status a.content s e
      read_back (some ops) = rw (put_status_is_object a.status a.content) (
          ap ctx.json.as_string (
            laws.get_put_ne _ (calls.of_array ops) (codes "op_stack") (codes "status") refl refl
              refl)
          ∙ text-put_status a.status a.content s e)

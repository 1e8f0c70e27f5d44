-- ===== src/Graph/High/Triggers/Silence.antt =====
-- embedded/graph/crud/hl_crud.go: operations on a vertex that is no object fire no trigger.
use foliage_sdk.Common.{
  true-false, true, false, Option, some, List, [], ◌∷◌, ◌≡◌, refl, sym, ap, ◌∙◌, All, Among, here,
}
use foliage_sdk.Common.Text.{Str, str_eq, str_eq_refl}
use foliage_sdk.Graph.Context.{Context, Request}
use foliage_sdk.Graph.High.{Calls, text_or}
use foliage_sdk.Graph.High.Links.{is_vertex_an_object}
use foliage_sdk.Graph.High.Triggers.{
  Cud, create, update, delete, vertex_name, link_name, or_no_ops, triggers_from_op_stack,
}
use foliage_sdk.Graph.High.Triggers.Laws.{
  Fires, object_fires, link_fires, FiresIn, fires_here, fires_later, triggers_from_op_stack_lem,
}
use foliage_sdk.Graph.OpStack.{StackCalls}
use foliage_sdk.Graph.OpStack.Laws.{JsonLaws, IsOf, of_vertex, of_start, of_end}

vertex_or_link : (k l : Cud) → str_eq (vertex_name k) (link_name l) ≡ false
unfolding str_eq
vertex_or_link create create = refl
vertex_or_link create update = refl
vertex_or_link create delete = refl
vertex_or_link update create = refl
vertex_or_link update update = refl
vertex_or_link update delete = refl
vertex_or_link delete create = refl
vertex_or_link delete update = refl
vertex_or_link delete delete = refl

vertex-link : {A : Type 0} (k l : Cud) → vertex_name k ≡ link_name l → A
vertex-link k l e =
    true-false (ap (str_eq (vertex_name k)) (sym e) ∙ str_eq_refl (vertex_name k))
      (vertex_or_link k l)

module _ {J W : Type 0} (ctx : Context J W) (calls : Calls J W) (stacks : StackCalls J W)
    (laws : JsonLaws ctx stacks) (w : W) (id : Str)
    (gone : is_vertex_an_object ctx w id ≡ false) where
  field_of : {o : Option Str} {s : Str} → o ≡ some s → text_or [] o ≡ s
  field_of e = ap (text_or []) e

  is_id :
      {A : Type 0} {o : Option Str}
      → o ≡ some id
      → is_vertex_an_object ctx w (text_or [] o) ≡ true
      → A
  is_id e h = true-false (ap (is_vertex_an_object ctx w) (sym (field_of e)) ∙ h) gone

  Fires-absurd :
      {A : Type 0} {op : J} {m : Request J}
      → IsOf ctx stacks laws id op
      → Fires ctx calls w op m
      → A
  Fires-absurd (of_vertex l n e) (object_fires k f named s o ne listed e') = is_id e o
  Fires-absurd (of_start l n e) (object_fires k f named s o ne listed e') =
      vertex-link k l (sym named ∙ field_of n)
  Fires-absurd (of_end l n e) (object_fires k f named s o ne listed e') =
      vertex-link k l (sym named ∙ field_of n)
  Fires-absurd (of_vertex l n e) (link_fires k f named sf st sl of ot ne r listed e') =
      vertex-link l k (sym (field_of n) ∙ named)
  Fires-absurd (of_start l n e) (link_fires k f named sf st sl of ot ne r listed e') = is_id e of
  Fires-absurd (of_end l n e) (link_fires k f named sf st sl of ot ne r listed e') = is_id e ot

  FiresIn-absurd :
      {A : Type 0} {m : Request J} (ops : List J)
      → All (λ op. IsOf ctx stacks laws id op) ops
      → FiresIn ctx calls w m ops
      → A
  FiresIn-absurd [] h f = elim f [ ]
  FiresIn-absurd (op ∷ ops) h (fires_here f) = Fires-absurd h.0 f
  FiresIn-absurd (op ∷ ops) h (fires_later f) = FiresIn-absurd ops h.1 f

  nothing-Among : {M : Type 0} (xs : List M) → ((m : M) → Among m xs → xs ≡ []) → xs ≡ []
  nothing-Among [] h = refl
  nothing-Among (x ∷ xs) h = h x (here refl)

  -- A stack of operations on a vertex, and on links that begin or end at it, signals nothing where
  -- the vertex has no type.
  pub triggers_from_op_stack-silent :
      (op_stack : J)
      → All (λ op. IsOf ctx stacks laws id op) (or_no_ops ctx calls (calls.elements op_stack))
      → triggers_from_op_stack ctx calls w op_stack ≡ []
  triggers_from_op_stack-silent op_stack h =
      nothing-Among _ (λ m among.
        FiresIn-absurd _ h ((triggers_from_op_stack_lem ctx calls w op_stack m).0 among))

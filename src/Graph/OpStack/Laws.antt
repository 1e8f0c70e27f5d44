-- ===== src/Graph/OpStack/Laws.antt =====
-- embedded/graph/crud/ll_crud.go: which vertex the operations of a stack are of.
use foliage_sdk.Common.{
  Bool, true, false, Option, none, some, List, [], ◌∷◌, ◌≡◌, refl, ap, ◌∙◌, All, All-append,
  if◌then◌else◌,
}
use foliage_sdk.Common.Text.{Str, codes, str_eq, split, dot}
use foliage_sdk.Graph.Context.{Context}
use foliage_sdk.Graph.High.Triggers.{Cud, vertex_name, link_name}
use foliage_sdk.Graph.OpStack.{
  OpStack, StackCalls, put_text, put_body, put_bodies, merge_op_stack, merge_reply, add_op,
  vertex_op, get_op_stack_from_options, link_op,
}

-- A path of one name.
abbrev pub is_plain : Str → Bool
is_plain path = is_one (split dot path)
  where
    is_one : List Str → Bool
    is_one (s ∷ []) = true
    is_one _ = false

-- What easyjson documents of GetByPath, SetByPath and of arrays.
pub record JsonLaws {J W : Type 0} (ctx : Context J W) (calls : StackCalls J W) : Type 0 where
  pub new_is_object : ctx.json.is_object ctx.json.new_object ≡ true
  pub put_is_object :
      (j v : J) (path : Str)
      → ctx.json.is_object j ≡ true
      → ctx.json.is_object (ctx.json.set_by_path j path v) ≡ true
  pub get_put :
      (j v : J) (path : Str)
      → ctx.json.is_object j ≡ true
      → is_plain path ≡ true
      → ctx.json.get_by_path (ctx.json.set_by_path j path v) path ≡ v
  pub get_put_ne :
      (j v : J) (path other : Str)
      → is_plain path ≡ true
      → is_plain other ≡ true
      → str_eq path other ≡ false
      → ctx.json.get_by_path (ctx.json.set_by_path j path v) other ≡ ctx.json.get_by_path j other
  pub no_elements :
      (path : Str) → calls.elements (ctx.json.get_by_path ctx.json.new_object path) ≡ none
  pub text_put : (s : Str) → ctx.json.as_string (ctx.json.of_string s) ≡ some s
  pub elements_of : (ops : List J) → calls.elements (calls.of_array ops) ≡ some ops

module _ {J W : Type 0} (ctx : Context J W) (calls : StackCalls J W)
    (laws : JsonLaws ctx calls) where
  abbrev pub text_at : J → Str → Option Str
  text_at op path = ctx.json.as_string (ctx.json.get_by_path op path)

  -- An operation on the vertex, or on a link that begins or ends at it.
  pub data IsOf (id : Str) (op : J) : Type 0 where
    of_vertex :
        (k : Cud)
        → text_at op (codes "op") ≡ some (vertex_name k)
        → text_at op (codes "id") ≡ some id
        → IsOf id op
    of_start :
        (k : Cud)
        → text_at op (codes "op") ≡ some (link_name k)
        → text_at op (codes "from_id") ≡ some id
        → IsOf id op
    of_end :
        (k : Cud)
        → text_at op (codes "op") ≡ some (link_name k)
        → text_at op (codes "to_id") ≡ some id
        → IsOf id op

  -- Every operation of the stack, if there is one, is of the vertex.
  abbrev pub AllOf : Str → OpStack J → Type 0
  AllOf id none = Unit
  AllOf id (some ops) = All (λ op. IsOf id op) ops

  pub text-put_text :
      (path s : Str) (j : J)
      → ctx.json.is_object j ≡ true
      → is_plain path ≡ true
      → text_at (put_text ctx path s j) path ≡ some s
  text-put_text path s j o p = ap ctx.json.as_string (laws.get_put j _ path o p) ∙ laws.text_put s

  pub text-put_text_ne :
      (path other s : Str) (j : J)
      → is_plain path ≡ true
      → is_plain other ≡ true
      → str_eq path other ≡ false
      → text_at (put_text ctx path s j) other ≡ text_at j other
  text-put_text_ne path other s j p q e =
      ap ctx.json.as_string (laws.get_put_ne j _ path other p q e)

  text-put_body_ne :
      (path other : Str) (body : Option J) (j : J)
      → is_plain path ≡ true
      → is_plain other ≡ true
      → str_eq path other ≡ false
      → text_at (put_body ctx path body j) other ≡ text_at j other
  text-put_body_ne path other none j p q e = refl
  text-put_body_ne path other (some body) j p q e =
      ap ctx.json.as_string (laws.get_put_ne j body path other p q e)

  -- The bodies of an operation leave its other fields.
  text-put_bodies :
      (other : Str) (old_body new_body : Option J) (j : J)
      → is_plain other ≡ true
      → str_eq (codes "old_body") other ≡ false
      → str_eq (codes "new_body") other ≡ false
      → text_at (put_bodies ctx old_body new_body j) other ≡ text_at j other
  unfolding split
  text-put_bodies other old_body new_body j q e e' =
      text-put_body_ne (codes "new_body") other new_body _ refl q e'
      ∙ text-put_body_ne (codes "old_body") other old_body j refl q e

  pub is_object-put_text :
      (path s : Str) (j : J)
      → ctx.json.is_object j ≡ true
      → ctx.json.is_object (put_text ctx path s j) ≡ true
  is_object-put_text path s j o = laws.put_is_object j _ path o

  pub vertex_op-IsOf :
      (k : Cud) (id : Str) (old_body new_body : Option J)
      → IsOf id (vertex_op ctx (vertex_name k) id old_body new_body)
  unfolding vertex_op split str_eq
  vertex_op-IsOf k id old_body new_body =
      of_vertex k
        (text-put_bodies (codes "op") old_body new_body _ refl refl refl
          ∙ (text-put_text_ne (codes "id") (codes "op") id _ refl refl refl
              ∙ text-put_text (codes "op") (vertex_name k) _ laws.new_is_object refl))
        (text-put_bodies (codes "id") old_body new_body _ refl refl refl
          ∙ text-put_text (codes "id") id _ (is_object-put_text _ _ _ laws.new_is_object) refl)

  -- The fields of an operation on a link.
  text-link_op :
      (op_name from to lt : Str) (old_body new_body : Option J)
      → (text_at (link_op ctx op_name from to lt old_body new_body) (codes "op") ≡ some op_name)
        × (text_at (link_op ctx op_name from to lt old_body new_body) (codes "from_id") ≡ some from)
        × (text_at (link_op ctx op_name from to lt old_body new_body) (codes "to_id") ≡ some to)
  unfolding link_op split str_eq
  text-link_op op_name from to lt old_body new_body =
      let named_is = is_object-put_text (codes "op") op_name _ laws.new_is_object in
      let from_is = is_object-put_text (codes "from_id") from _ named_is in
      (
        text-put_bodies (codes "op") old_body new_body _ refl refl refl
            ∙ (text-put_text_ne (codes "type") (codes "op") lt _ refl refl refl
                ∙ (text-put_text_ne (codes "to_id") (codes "op") to _ refl refl refl
                    ∙ (text-put_text_ne (codes "from_id") (codes "op") from _ refl refl refl
                        ∙ text-put_text (codes "op") op_name _ laws.new_is_object refl))),
        text-put_bodies (codes "from_id") old_body new_body _ refl refl refl
            ∙ (text-put_text_ne (codes "type") (codes "from_id") lt _ refl refl refl
                ∙ (text-put_text_ne (codes "to_id") (codes "from_id") to _ refl refl refl
                    ∙ text-put_text (codes "from_id") from _ named_is refl)),
        text-put_bodies (codes "to_id") old_body new_body _ refl refl refl
            ∙ (text-put_text_ne (codes "type") (codes "to_id") lt _ refl refl refl
                ∙ text-put_text (codes "to_id") to _ from_is refl),
      )

  pub link_op-IsOf_start :
      (k : Cud) (from to lt : Str) (old_body new_body : Option J)
      → IsOf from (link_op ctx (link_name k) from to lt old_body new_body)
  link_op-IsOf_start k from to lt old_body new_body =
      let (named, starts, ends) = text-link_op (link_name k) from to lt old_body new_body in
      of_start k named starts

  pub link_op-IsOf_end :
      (k : Cud) (from to lt : Str) (old_body new_body : Option J)
      → IsOf to (link_op ctx (link_name k) from to lt old_body new_body)
  link_op-IsOf_end k from to lt old_body new_body =
      let (named, starts, ends) = text-link_op (link_name k) from to lt old_body new_body in
      of_end k named ends

  pub AllOf-add_op :
      (id : Str) (stack : OpStack J) (op : J)
      → AllOf id stack
      → IsOf id op
      → AllOf id (add_op stack op)
  AllOf-add_op id none op h h' = tt
  AllOf-add_op id (some ops) op h h' = All-append (λ o. IsOf id o) ops (op ∷ []) h (h', tt)

  AllOf-merge :
      (id : Str) (stack donor : OpStack J)
      → AllOf id stack
      → AllOf id donor
      → AllOf id (merge_op_stack stack donor)
  unfolding merge_op_stack
  AllOf-merge id none donor h h' = tt
  AllOf-merge id (some ops) none h h' = h
  AllOf-merge id (some ops) (some donor) h h' = All-append (λ o. IsOf id o) ops donor h h'

  -- The stack that a reply carries.
  abbrev pub stack_in : Option J → OpStack J
  stack_in none = none
  stack_in (some res) = calls.elements (ctx.json.get_by_path res (codes "op_stack"))

  pub AllOf-merge_reply :
      (id : Str) (stack : OpStack J) (res : Option J)
      → AllOf id stack
      → AllOf id (stack_in res)
      → AllOf id (merge_reply ctx calls stack res)
  unfolding merge_reply
  AllOf-merge_reply id stack none h h' = h
  AllOf-merge_reply id stack (some res) h h' = AllOf-merge id stack _ h h'

  AllOf-empty_if : (id : Str) (asked : Bool) → AllOf id (if asked then some [] else none)
  AllOf-empty_if id true = tt
  AllOf-empty_if id false = tt

  pub AllOf-get_op_stack :
      (id : Str) (options : Option J) → AllOf id (get_op_stack_from_options ctx options)
  unfolding get_op_stack_from_options
  AllOf-get_op_stack id none = tt
  AllOf-get_op_stack id (some options) = AllOf-empty_if id _

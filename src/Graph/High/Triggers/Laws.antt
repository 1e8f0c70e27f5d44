-- ===== src/Graph/High/Triggers/Laws.antt =====
-- embedded/graph/crud/hl_crud.go: which messages a stack of operations signals.
use mathlib.Core.Path.{subst}
use foliage_sdk.Common.{
  Bool, true, false, ◌&&◌, List, [], ◌∷◌, ◌++◌, ◌≡◌, refl, sym, ap, ◌∙◌, inl, inr, ◌↔◌,
  if◌then◌else◌, arith, Among, Among-if, Among-append, Among-append_left, Among-append_right,
  map-Among, Among-map,
}
use foliage_sdk.Common.Text.{Str, codes, str_eq, str_eq_iff, str_eq_refl}
use foliage_sdk.Graph.Context.{Context, Request, Result, ok, err}
use foliage_sdk.Graph.High.{Calls}
use foliage_sdk.Graph.High.Links.{is_vertex_an_object, get_reference_link_type}
use foliage_sdk.Graph.High.Triggers.{
  Cud, create, update, delete, vertex_name, link_name, is_some_text, get_object_type_triggers,
  get_objects_link_type_triggers, functions_of, object_message, link_message, op_text,
  execute_object_triggers, execute_link_triggers, is_object_op, is_link_op, is_reference,
  execute_op, execute_ops, or_no_ops, triggers_from_op_stack,
}

and_both : (a b : Bool) → (a && b) ≡ true → (a ≡ true) × (b ≡ true)
and_both true b h = (refl, h)
and_both false b h = ground arith

and_intro : (a b : Bool) → a ≡ true → b ≡ true → (a && b) ≡ true
and_intro a b h k = ground arith

module _ {J W : Type 0} (ctx : Context J W) (calls : Calls J W) (w : W) where
  abbrev id_of : J → Str
  id_of op = op_text ctx calls op (codes "id")

  abbrev from_of : J → Str
  from_of op = op_text ctx calls op (codes "from_id")

  abbrev to_of : J → Str
  to_of op = op_text ctx calls op (codes "to_id")

  abbrev type_of : J → Str
  type_of op = op_text ctx calls op (codes "type")

  -- What the triggers of an object's type, and of the link between two types, are fired by.
  pub data Fires (op : J) (m : Request J) : Type 0 where
    object_fires :
        (k : Cud) (f : Str)
        → op_text ctx calls op (codes "op") ≡ vertex_name k
        → is_some_text (id_of op) ≡ true
        → is_vertex_an_object ctx w (id_of op) ≡ true
        → calls.is_non_empty_object (get_object_type_triggers ctx calls w (id_of op)) ≡ true
        → Among f (functions_of ctx calls (get_object_type_triggers ctx calls w (id_of op)) k)
        → object_message ctx calls op (id_of op) k f ≡ m
        → Fires op m
    link_fires :
        (k : Cud) (f : Str)
        → op_text ctx calls op (codes "op") ≡ link_name k
        → is_some_text (from_of op) ≡ true
        → is_some_text (to_of op) ≡ true
        → is_some_text (type_of op) ≡ true
        → is_vertex_an_object ctx w (from_of op) ≡ true
        → is_vertex_an_object ctx w (to_of op) ≡ true
        → calls.is_non_empty_object
            (get_objects_link_type_triggers ctx calls w (from_of op) (to_of op))
          ≡ true
        → get_reference_link_type ctx w (from_of op) (to_of op) ≡ ok (type_of op)
        → Among f (
            functions_of ctx calls
              (get_objects_link_type_triggers ctx calls w (from_of op) (to_of op))
              k)
        → link_message ctx calls op (from_of op) (to_of op) (type_of op) k f ≡ m
        → Fires op m

  is_reference-ok : (lt : Str) (r : Result Str) → is_reference ctx calls lt r ≡ true → r ≡ ok lt
  is_reference-ok lt (err e) h = ground arith
  is_reference-ok lt (ok lt') h = ap ok ((str_eq_iff lt' lt).0 h)

  object-Fires :
      (op : J) (m : Request J) (k : Cud)
      → is_object_op ctx calls w op k ≡ true
      → Among m (execute_object_triggers ctx calls w op (op_text ctx calls op (codes "id")) k)
      → Fires op m
  unfolding execute_object_triggers
  object-Fires op m k h a =
      let (named, h') = and_both _ _ h in
      let (some_id, is_object) = and_both _ _ h' in
      let (non_empty, a') = Among-if m _ _ a in
      let (f, listed, e) = map-Among _ m _ a' in
      object_fires k f ((str_eq_iff _ _).0 named) some_id is_object non_empty listed e

  link-Fires :
      (op : J) (m : Request J) (k : Cud)
      → is_link_op ctx calls w op k ≡ true
      → Among m (
          execute_link_triggers ctx calls w op
            (op_text ctx calls op (codes "from_id"))
            (op_text ctx calls op (codes "to_id"))
            (op_text ctx calls op (codes "type"))
            k)
      → Fires op m
  unfolding execute_link_triggers
  link-Fires op m k h a =
      let (named, h1) = and_both _ _ h in
      let (some_type, h2) = and_both _ _ h1 in
      let (some_from, h3) = and_both _ _ h2 in
      let (some_to, h4) = and_both _ _ h3 in
      let (from_object, to_object) = and_both _ _ h4 in
      let (tested, a') = Among-if m _ _ a in
      let (non_empty, reference) = and_both _ _ tested in
      let (f, listed, e) = map-Among _ m _ a' in
      link_fires k f ((str_eq_iff _ _).0 named) some_from some_to some_type from_object to_object
        non_empty (is_reference-ok _ _ reference) listed e

  execute_op-Fires :
      (op : J) (m : Request J) (k : Cud) → Among m (execute_op ctx calls w op k) → Fires op m
  unfolding execute_op
  execute_op-Fires op m k h = elim (Among-append m _ _ h) [
    | inl a ↦ (let (b, a') = Among-if m _ _ a in object-Fires op m k b a')
    | inr a ↦ (let (b, a') = Among-if m _ _ a in link-Fires op m k b a')
  ]

  if-Among :
      {A : Type 0} (a : A) (b : Bool) (xs : List A)
      → b ≡ true
      → Among a xs
      → Among a (if b then xs else [])
  if-Among a true xs e h = h
  if-Among a false xs e h = ground arith

  Fires-execute_object :
      (op : J) (m : Request J) (k : Cud) (f : Str)
      → calls.is_non_empty_object (get_object_type_triggers ctx calls w (id_of op)) ≡ true
      → Among f (functions_of ctx calls (get_object_type_triggers ctx calls w (id_of op)) k)
      → object_message ctx calls op (id_of op) k f ≡ m
      → Among m (execute_object_triggers ctx calls w op (id_of op) k)
  unfolding execute_object_triggers
  Fires-execute_object op m k f e listed e' = if-Among m _ _ e (Among-map _ m f _ listed e')

  is_reference-true : (lt : Str) (r : Result Str) → r ≡ ok lt → is_reference ctx calls lt r ≡ true
  is_reference-true lt r e =
      subst (λ r'. is_reference ctx calls lt r' ≡ true) (sym e) (str_eq_refl lt)

  Fires-execute_link :
      (op : J) (m : Request J) (k : Cud) (f : Str)
      → calls.is_non_empty_object
          (get_objects_link_type_triggers ctx calls w (from_of op) (to_of op))
        ≡ true
      → get_reference_link_type ctx w (from_of op) (to_of op) ≡ ok (type_of op)
      → Among f (
          functions_of ctx calls
            (get_objects_link_type_triggers ctx calls w (from_of op) (to_of op))
            k)
      → link_message ctx calls op (from_of op) (to_of op) (type_of op) k f ≡ m
      → Among m (execute_link_triggers ctx calls w op (from_of op) (to_of op) (type_of op) k)
  unfolding execute_link_triggers
  Fires-execute_link op m k f e r listed e' =
      if-Among m _ _ (and_intro _ _ e (is_reference-true _ _ r)) (Among-map _ m f _ listed e')

  -- The operation that a firing is for.
  abbrev cud_of : {op : J} {m : Request J} → Fires op m → Cud
  cud_of (object_fires k f _ _ _ _ _ _) = k
  cud_of (link_fires k f _ _ _ _ _ _ _ _ _ _) = k

  str_eq_of : (s t : Str) → s ≡ t → str_eq s t ≡ true
  str_eq_of s t e = (str_eq_iff s t).1 e

  Fires-execute_op :
      (op : J) (m : Request J) (h : Fires op m) → Among m (execute_op ctx calls w op (cud_of h))
  unfolding execute_op
  Fires-execute_op op m (object_fires k f named s o n listed e) = Among-append_left m _ _ (
      if-Among m _ _ (and_intro _ _ (str_eq_of _ _ named) (and_intro _ _ s o))
        (Fires-execute_object op m k f n listed e))
  Fires-execute_op op m (link_fires k f named sf st sl of ot n r listed e) =
      Among-append_right m _ _ (
        if-Among m _ _
          (and_intro _ _ (str_eq_of _ _ named)
            (and_intro _ _ sl (and_intro _ _ sf (and_intro _ _ st (and_intro _ _ of ot)))))
          (Fires-execute_link op m k f n r listed e))

  abbrev all_of_op : J → List (Request J)
  all_of_op op =
      execute_op ctx calls w op create
      ++ (execute_op ctx calls w op update ++ execute_op ctx calls w op delete)

  abbrev is_named : J → Bool
  is_named op = is_some_text (op_text ctx calls op (codes "op"))

  abbrev tested : J → List (Request J)
  tested op = if is_named op then all_of_op op else []

  Among-all_of_op :
      (op : J) (m : Request J) (k : Cud)
      → Among m (execute_op ctx calls w op k)
      → Among m (all_of_op op)
  Among-all_of_op op m create h = Among-append_left m _ _ h
  Among-all_of_op op m update h = Among-append_right m _ _ (Among-append_left m _ _ h)
  Among-all_of_op op m delete h = Among-append_right m _ _ (Among-append_right m _ _ h)

  all_of_op-Fires : (op : J) (m : Request J) → Among m (all_of_op op) → Fires op m
  all_of_op-Fires op m h = elim (Among-append m _ _ h) [
    | inl a ↦ execute_op-Fires op m create a
    | inr a ↦ elim (Among-append m _ _ a) [
      | inl a' ↦ execute_op-Fires op m update a'
      | inr a' ↦ execute_op-Fires op m delete a'
    ]
  ]

  vertex-is_some : (k : Cud) → is_some_text (vertex_name k) ≡ true
  vertex-is_some create = refl
  vertex-is_some update = refl
  vertex-is_some delete = refl

  link-is_some : (k : Cud) → is_some_text (link_name k) ≡ true
  link-is_some create = refl
  link-is_some update = refl
  link-is_some delete = refl

  Fires-is_some :
      (op : J) (m : Request J)
      → Fires op m
      → is_some_text (op_text ctx calls op (codes "op")) ≡ true
  Fires-is_some op m (object_fires k f named _ _ _ _ _) = ap is_some_text named ∙ vertex-is_some k
  Fires-is_some op m (link_fires k f named _ _ _ _ _ _ _ _ _) =
      ap is_some_text named ∙ link-is_some k

  -- An operation of the list fires the message.
  pub data FiresIn (m : Request J) : List J → Type 0 where
    fires_here : {op : J} {ops : List J} → Fires op m → FiresIn m (op ∷ ops)
    fires_later : {op : J} {ops : List J} → FiresIn m ops → FiresIn m (op ∷ ops)

  execute_ops-FiresIn :
      (ops : List J) (m : Request J) → Among m (execute_ops ctx calls w ops) → FiresIn m ops
  unfolding execute_ops
  execute_ops-FiresIn [] m h = elim h [ ]
  execute_ops-FiresIn (op ∷ ops) m h = elim (Among-append m (tested op) _ h) [
    | inl a ↦ fires_here (all_of_op-Fires op m (Among-if m (is_named op) _ a).1)
    | inr a ↦ fires_later (execute_ops-FiresIn ops m a)
  ]

  FiresIn-execute_ops :
      (ops : List J) (m : Request J) → FiresIn m ops → Among m (execute_ops ctx calls w ops)
  unfolding execute_ops
  FiresIn-execute_ops [] m h = elim h [ ]
  FiresIn-execute_ops (op ∷ ops) m (fires_here h) = Among-append_left m _ _ (
      if-Among m _ _ (Fires-is_some op m h)
        (Among-all_of_op op m (cud_of h) (Fires-execute_op op m h)))
  FiresIn-execute_ops (op ∷ ops) m (fires_later h) =
      Among-append_right m _ _ (FiresIn-execute_ops ops m h)

  -- A stack of operations signals exactly the messages that its operations fire: to each function that
  -- the type of a created, updated or deleted object, or the link between the types of a link's two
  -- objects, lists for the operation.
  pub triggers_from_op_stack_lem :
      (op_stack : J) (m : Request J)
      → Among m (triggers_from_op_stack ctx calls w op_stack)
        ↔ FiresIn m (or_no_ops ctx calls (calls.elements op_stack))
  unfolding triggers_from_op_stack
  triggers_from_op_stack_lem op_stack m = (execute_ops-FiresIn _ m, FiresIn-execute_ops _ m)

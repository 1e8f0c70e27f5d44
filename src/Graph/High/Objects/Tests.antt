-- ===== src/Graph/High/Objects/Tests.antt =====
-- Runs of DeleteObject and LLAPIVertexDelete of embedded/graph/crud on a small store.
use foliage_sdk.Common.{Bool, Option, none, some, List, [], ◌∷◌, ◌≡◌, refl, ap, if◌then◌else◌}
use foliage_sdk.Common.Dict
use foliage_sdk.Common.Dict.{Dict, load}
use foliage_sdk.Common.Text.{Str, codes, str_eq, str_eq_refl, has_prefix, split}
use foliage_sdk.Cache.Key.Laws.{last_token}
use foliage_sdk.Graph.Keys.{out_body, in_link, name_gen, last_two}
use foliage_sdk.Graph.Context.{Context, Result, ok, err, State, pure, reads, send_by, delete, ◌>>=◌}
use foliage_sdk.Graph.Docs.{Doc, absent, text, texts, with_field, field, docs}
use foliage_sdk.Common.Int.{ℤ}
use foliage_sdk.Graph.Link.Handlers.{link_delete}
use foliage_sdk.Graph.Link.Replies.{OfEnds}
use foliage_sdk.Graph.Link.Answers.{link_delete_lem}
use foliage_sdk.Graph.High.{Calls, replied, text_at}
use foliage_sdk.Graph.High.Links.{body_key, find_object_type}
use foliage_sdk.Graph.High.Objects.{delete_object}
use foliage_sdk.Graph.High.Objects.Deletion.{begin_with, stack_option, delete_object-silent}
use foliage_sdk.Graph.High.Tests.{Store, store, is_there}
use foliage_sdk.Graph.High.Triggers.{Cud, vertex_name, link_name}
use foliage_sdk.Graph.OpStack.{
  StackCalls, Answer, result_of, succeeded, link_op, get_op_stack_from_options, merge_each,
  merge_reply, merge_op_stack, add_vertex_op, vertex_op,
}
use foliage_sdk.Graph.OpStack.Laws.{JsonLaws, link_op-IsOf_start, link_op-IsOf_end}
use foliage_sdk.Graph.Vertex.{vertex_delete, delete_out_link, delete_in_link, delete_link}
use foliage_sdk.Graph.Vertex.Laws.{RepliesOfEnds}

abbrev is_true : Doc → Option Bool
is_true (text s) = some (str_eq s (codes "true"))
is_true _ = none

-- The small store, with Booleans.
abbrev with_flags : Context Doc Store
with_flags = record store {
  json = record docs {
    of_bool = λ b. text (if b then codes "true" else codes "false");
    as_bool = is_true;
  };
}

-- An array as a chain.
abbrev of_array : List Doc → Doc
of_array [] = text []
of_array (d ∷ ds) = with_field (of_array ds) [] d

abbrev or_cons : Doc → Option (List Doc) → Option (List Doc)
or_cons d none = none
or_cons d (some ds) = some (d ∷ ds)

abbrev elements : Doc → Option (List Doc)
elements absent = none
elements (text s) = some []
elements (texts ss) = none
elements (with_field j path v) = or_cons v (elements j)

abbrev or_empty : Option Str → Str
or_empty none = []
or_empty (some s) = s

-- The deletion of a link, which is served by the store itself.
abbrev stacks : StackCalls Doc Store
stacks = record {
  of_array = of_array;
  elements = elements;
  request_with = λ options w op id payload.
      let to = or_empty (text_at with_flags payload (codes "descendant_uuid")) in
      let lt = or_empty (text_at with_flags payload (codes "link_type")) in
      (
        some (
            with_field absent (codes "op_stack")
              (of_array (link_op with_flags (link_name Cud.delete) id to lt none none ∷ []))),
        Dict.delete (body_key id lt to) w,
      );
}

elements-of_array : (ops : List Doc) → elements (of_array ops) ≡ some ops
elements-of_array [] = refl
elements-of_array (op ∷ ops) = ap (or_cons op) (elements-of_array ops)

laws : JsonLaws with_flags stacks
unfolding field
laws = record {
  new_is_object = refl;
  put_is_object = λ j v path o. refl;
  get_put = λ j v path o p. rw (str_eq_refl path) refl;
  get_put_ne = λ j v path other p q e. rw e refl;
  no_elements = λ path. refl;
  text_put = λ s. refl;
  elements_of = elements-of_array;
}

replies : (options : Option Doc) → RepliesOfEnds with_flags stacks laws options [] (codes "o")
unfolding field str_eq
replies options w from lt to = (
  (link_op-IsOf_start with_flags stacks laws Cud.delete from to lt none none, tt),
  (link_op-IsOf_end with_flags stacks laws Cud.delete from to lt none none, tt),
)

abbrev answer_of : Result (Answer Doc) → Answer Doc
answer_of (ok a) = a
answer_of (err e) = succeeded none

-- "o" has the type "t", which lists "f" for deletions.
abbrev world : Store
world =
    (codes "o.out.body.__type.t", absent)
    ∷ (
      codes "t",
      with_field absent (codes "triggers")
          (with_field absent (codes "delete") (texts (codes "f" ∷ []))),
    )
    ∷ []

abbrev options : Option Doc
options = some (with_field absent (codes "return_op_stack") (text (codes "true")))

abbrev deletion : Store → Result (Answer Doc) × State Doc Store
deletion w =
    vertex_delete with_flags stacks options (vertex_name Cud.delete) [] (codes "o")
      record { world = w; sent = []; signalled = []; written = [] }

-- Each request is served by LLAPIVertexDelete.
abbrev calls : Calls Doc Store
calls = record {
  request_with = λ opts w op id payload.
      (some (result_of with_flags stacks (answer_of (deletion w).0)), (deletion w).1.world);
  elements = elements;
  is_non_empty_object = is_there;
  error_of = λ e. codes "error";
  cache_error = codes "no value";
}

program : Unit {0}
unfolding Dict.delete load str_eq field out_body in_link name_gen last_two has_prefix last_token
    split find_object_type vertex_delete delete_out_link delete_in_link delete_link merge_each
    merge_reply merge_op_stack get_op_stack_from_options add_vertex_op vertex_op link_op pure reads
    send_by delete ◌>>=◌
program = tt

-- The stack has the deletion of the link and that of the vertex.
answered :
    (deletion world).0
    ≡ ok (
        succeeded (
          some (
            link_op with_flags
              (link_name Cud.delete)
              (codes "o")
              (codes "t")
              (codes "__type")
              none
              none
            ∷ vertex_op with_flags (vertex_name Cud.delete) (codes "o") (some absent) none
            ∷ [])))
unfolding program
answered = refl

abbrev stack_of_o : Answer Doc
stack_of_o = answer_of (deletion world).0

-- The function that "t" lists for deletions is not signalled when "o" is deleted.
delete_object-silent_example :
    ((delete_object with_flags calls (codes "o") absent 0 (begin_with with_flags calls world)).0
      ≡ ok replied)
    × ((delete_object with_flags calls
          (codes "o")
          absent
          0
          (begin_with with_flags calls world)).1.signalled
        ≡ [])
unfolding program
delete_object-silent_example =
    delete_object-silent with_flags calls stacks laws (λ j. refl) 0 (codes "o") [] absent stack_of_o
      (begin_with with_flags calls world) (replies (some (stack_option with_flags calls))) refl refl
      refl refl

abbrev name_of : ℤ → Str
name_of n = codes "name0"

abbrev unique_id : Store → Str
unique_id w = codes "id"

abbrev whole : Str → Str
whole s = s

-- The link from "o" to "t" of the type "__type".
abbrev link_payload : Doc
link_payload =
    with_field
      (with_field (with_field absent (codes "link_body") absent) (codes "link_type")
        (text (codes "__type")))
      (codes "descendant_uuid") (text (codes "t"))

link_delete_lem_example :
    (a : Answer Doc) × ((link_delete with_flags name_of unique_id whole stacks options
        (link_name Cud.delete)
        []
        (codes "o")
        []
        link_payload
        (begin_with with_flags calls world)).0
      ≡ ok a)
    × OfEnds with_flags name_of unique_id whole stacks laws options []
        (codes "o")
        []
        (codes "t")
        a
        (link_delete with_flags name_of unique_id whole stacks options
          (link_name Cud.delete)
          []
          (codes "o")
          []
          link_payload
          (begin_with with_flags calls world)).1
unfolding program
link_delete_lem_example =
    link_delete_lem with_flags name_of unique_id whole stacks laws options [] (codes "o") []
      (codes "t") link_payload (begin_with with_flags calls world) refl

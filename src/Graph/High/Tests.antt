-- ===== src/Graph/High/Tests.antt =====
-- Runs of the handlers of embedded/graph/crud/hl_crud.go on a small store.
use foliage_sdk.Common.{
  Bool, true, false, ◌||◌, Option, none, some, List, [], ◌∷◌, ◌≡◌, refl, ap, ◌↔◌, if◌then◌else◌,
  arith, Among,
}
use foliage_sdk.Common.Dict
use foliage_sdk.Common.Dict.{Dict, load, assign}
use foliage_sdk.Common.Text.{Str, codes, str_eq, has_prefix, split}
use foliage_sdk.Cache.Key.Laws.{last_token}
use foliage_sdk.Graph.Keys.{out_body}
use foliage_sdk.Graph.Context.{
  Context, Request, State, ok, no_link_type, pure, raise, reads, ◌>>=◌, for_each, send, send_by,
  signal,
}
use foliage_sdk.Graph.Docs.{Doc, absent, text, texts, with_field, field, docs}
use foliage_sdk.Graph.High.{Calls, replied, check_request_error, request_checked, request_stack}
use foliage_sdk.Graph.High.Links.{
  body_key, find_object_type, find_type_objects, is_vertex_an_object, get_types_link_body,
  get_reference_link_type,
}
use foliage_sdk.Graph.High.Triggers.{
  triggers_from_op_stack, fire, request_firing, execute_ops, execute_op, execute_object_triggers,
  execute_link_triggers, get_object_type_triggers,
}
use foliage_sdk.Graph.High.Triggers.Laws.{FiresIn, triggers_from_op_stack_lem}
use foliage_sdk.Graph.High.Relations.{
  create_objects_link, update_objects_link, delete_objects_link, create_link_of_type,
  with_reference,
}
use foliage_sdk.Graph.High.Relations.Laws.{
  link_creation, create_objects_link_lem, objects_link-no_reference, FailsWith,
}
use foliage_sdk.Graph.High.Types.{
  update_types_link, update_link_type, change_link_type, rename_links,
}
use foliage_sdk.Graph.High.Types.Laws.{type_change, update_types_link-renames_none}
use foliage_sdk.Graph.High.Objects.{create_object, create_link, create_new_object}
use foliage_sdk.Graph.High.Objects.Laws.{object_requests, create_object_lem}

abbrev pub Store : Type 0
Store = Dict Doc

abbrev is_held : Option Doc → Bool
is_held none = false
is_held (some v) = true

-- Two dots in a row: an empty token, which no key has.
abbrev is_dotted : Str → Bool
is_dotted [] = false
is_dotted (c ∷ s) = has_prefix (c ∷ s) (codes "..") || is_dotted s

abbrev but_last : Str → Str
but_last [] = []
but_last (c ∷ []) = []
but_last (c ∷ d ∷ s) = c ∷ but_last (d ∷ s)

abbrev keys_with : Str → Store → List Str
keys_with p [] = []
keys_with p ((k, v) ∷ w) = if has_prefix k p then k ∷ keys_with p w else keys_with p w

-- The reply to every request: a document whose stack of operations is the creation of "o".
abbrev creation : Doc
creation =
    with_field (with_field absent (codes "op") (text (codes "functions.graph.api.vertex.create")))
      (codes "id") (text (codes "o"))

abbrev success : Doc
success =
    with_field (with_field absent (codes "op_stack") creation) (codes "status") (text (codes "ok"))

abbrev pub store : Context Doc Store
store = record {
  json = docs;
  get_value_as_json = λ w key. load key w;
  has_value = λ w key. is_held (load key w);
  get_keys = λ w pattern. if is_dotted pattern then [] else keys_with (but_last pattern) w;
  get_int64 = λ w key. none;
  set_value = λ w key v. w;
  delete_value = λ w key. Dict.delete key w;
  request = λ w op id payload. (some success, w);
  object_mutex_lock = λ w. (true, w);
  object_mutex_unlock = λ w. w;
  get_object_context = λ w. absent;
  set_object_context = λ w j. w;
  now = λ w. 0;
}

abbrev pub is_there : Doc → Bool
is_there absent = false
is_there _ = true

abbrev calls : Calls Doc Store
calls = record {
  request_with = λ options w op id payload. (some success, w);
  elements = λ j. some (j ∷ []);
  is_non_empty_object = is_there;
  error_of = λ e. codes "error";
  cache_error = codes "no value";
}

-- "o" has the type "t", which lists "f" for creations; "p" has the type "u", and links from "t" to "u"
-- have the type "l".
abbrev world : Store
world =
    (codes "o.out.body.__type.t", absent)
    ∷ (codes "p.out.body.__type.u", absent)
    ∷ (
      codes "t",
      with_field absent (codes "triggers")
          (with_field absent (codes "create") (texts (codes "f" ∷ []))),
    )
    ∷ (codes "t.out.body.__type.u", with_field absent (codes "link_type") (text (codes "l")))
    ∷ []

abbrev begin_with : Store → State Doc Store
begin_with w = record { world = w; sent = []; signalled = []; written = [] }

abbrev payload : Doc
payload = with_field absent (codes "origin_type") (text (codes "t"))

-- CreateObject on an object that is not there: the requests, and what is signalled.
created : (create_object store calls (codes "o") payload (begin_with world)).0 ≡ ok replied
unfolding create_object create_link create_new_object send send_by pure raise reads ◌>>=◌
    check_request_error request_checked request_stack for_each fire triggers_from_op_stack
    execute_ops field str_eq load out_body execute_op is_vertex_an_object find_object_type
    has_prefix last_token split execute_object_triggers get_object_type_triggers signal
created = refl

create_object_lem_example :
    (replied ≡ replied)
    × ((create_object store calls (codes "o") payload (begin_with world)).1.sent
        ≡ object_requests store calls (codes "o") payload [] (codes "t"))
unfolding field str_eq load out_body
create_object_lem_example =
    create_object_lem store calls (codes "o") payload [] (codes "t") replied (begin_with world) refl
      refl refl created

abbrev signalled : Request Doc
signalled = record {
  op = codes "f";
  id = codes "o";
  payload = with_field absent (codes "trigger.object.create") absent;
}

-- The creation of "o" signals the function that its type lists.
fired : triggers_from_op_stack store calls world creation ≡ signalled ∷ []
unfolding triggers_from_op_stack execute_ops execute_op execute_object_triggers
    get_object_type_triggers find_object_type is_vertex_an_object field str_eq load out_body
    has_prefix last_token split
fired = refl

triggers_from_op_stack_lem_example :
    Among signalled (triggers_from_op_stack store calls world creation)
    ↔ FiresIn store calls world signalled (creation ∷ [])
triggers_from_op_stack_lem_example = triggers_from_op_stack_lem store calls world creation signalled

-- A link from "o" to "p" has the type "l".
abbrev to_p : Doc
to_p = with_field absent (codes "to") (text (codes "p"))

reference : get_reference_link_type store world (codes "o") (codes "p") ≡ ok (codes "l")
unfolding get_reference_link_type get_types_link_body find_object_type field str_eq load out_body
    has_prefix last_token split
reference = refl

link_created : (create_objects_link store calls (codes "o") to_p (begin_with world)).0 ≡ ok replied
unfolding create_objects_link create_link_of_type with_reference send_by pure raise reads ◌>>=◌
    check_request_error request_stack request_firing for_each signal fire triggers_from_op_stack
    execute_ops execute_op execute_object_triggers execute_link_triggers get_object_type_triggers
    get_reference_link_type get_types_link_body find_object_type is_vertex_an_object field str_eq
    load out_body has_prefix last_token split
link_created = refl

create_objects_link_lem_example :
    (create_objects_link store calls (codes "o") to_p (begin_with world)).1.sent ≡ (
      if store.has_value world (body_key (codes "o") (codes "l") (codes "p"))
      then []
      else link_creation store calls (codes "o") to_p (codes "p") (codes "l") ∷ [])
unfolding field str_eq
create_objects_link_lem_example =
    create_objects_link_lem store calls (codes "o") to_p (codes "p") (codes "l") replied
      (begin_with world) refl reference link_created

-- The link from "t" to "u" sets no type.
abbrev untyped : Store
untyped =
    (codes "o.out.body.__type.t", absent)
    ∷ (codes "p.out.body.__type.u", absent)
    ∷ (codes "t.out.body.__type.u", absent)
    ∷ []

no_type_body :
    store.get_value_as_json untyped (
      body_key
        (find_object_type store untyped (codes "o"))
        (codes "__type")
        (find_object_type store untyped (codes "p")))
    ≡ some absent
unfolding find_object_type field str_eq load out_body has_prefix last_token split
no_type_body = refl

objects_link-no_reference_example :
    FailsWith store calls
      (codes "o")
      to_p
      no_link_type
      (create_objects_link store calls (codes "o") to_p)
      (begin_with untyped)
    × FailsWith store calls
        (codes "o")
        to_p
        no_link_type
        (update_objects_link store calls (codes "o") to_p)
        (begin_with untyped)
    × FailsWith store calls
        (codes "o")
        to_p
        no_link_type
        (delete_objects_link store calls (codes "o") to_p)
        (begin_with untyped)
unfolding field str_eq
objects_link-no_reference_example =
    objects_link-no_reference store calls (codes "o") to_p (codes "p") (some absent)
      (begin_with untyped) refl no_type_body refl

-- An object "o" of the type "t" has a link of the type "l", and the type is to be "m".
abbrev linked : Store
linked = (codes "t.out.body.__object.o", absent) ∷ (codes "o.out.body.l.p", absent) ∷ world

abbrev to_u : Doc
to_u =
    with_field (with_field absent (codes "object_link_type") (text (codes "m"))) (codes "to")
      (text (codes "u"))

body_of_t :
    get_types_link_body store linked (codes "t") (codes "u")
    ≡ ok (with_field absent (codes "link_type") (text (codes "l")))
unfolding get_types_link_body str_eq load out_body
body_of_t = refl

or_later : (a b : Bool) → b ≡ true → (a || b) ≡ true
or_later a b h = ground arith

dotted : (id : Str) → is_dotted (body_key id [] (codes ">")) ≡ true
unfolding out_body has_prefix
dotted [] = refl
dotted (c ∷ id) = or_later _ _ (dotted id)

empty_type_has_no_key : (w : Store) (id : Str) → store.get_keys w (body_key id [] (codes ">")) ≡ []
empty_type_has_no_key w id =
    ap (λ b. if b then [] else keys_with (but_last (body_key id [] (codes ">"))) w) (dotted id)

type_updated : (update_types_link store (codes "t") to_u calls (begin_with linked)).0 ≡ ok replied
unfolding update_types_link update_link_type change_link_type rename_links send pure raise reads
    ◌>>=◌ check_request_error request_checked for_each field str_eq load out_body has_prefix
    last_token split get_types_link_body find_type_objects
type_updated = refl

update_types_link-renames_none_example :
    (update_types_link store (codes "t") to_u calls (begin_with linked)).1.sent
    ≡ type_change store (codes "t") to_u (codes "u") (codes "m") ∷ []
unfolding field str_eq
update_types_link-renames_none_example =
    update_types_link-renames_none store (codes "t") to_u calls (codes "u") (codes "m") replied
      (with_field absent (codes "link_type") (text (codes "l"))) (begin_with linked) refl refl refl
      body_of_t refl empty_type_has_no_key type_updated

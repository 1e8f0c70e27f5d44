-- ===== src/Graph/Tests.antt =====
-- Runs of embedded/graph/crud: a link is created and deleted in a small store.
use foliage_sdk.Common.{Bool, true, false, Option, none, some, [], ◌∷◌, ◌≡◌, refl}
use foliage_sdk.Common.Dict
use foliage_sdk.Common.Dict.{Dict, load, assign}
use foliage_sdk.Common.Int.{ℤ, pos, ◌+ℤ◌}
use foliage_sdk.Common.Text.{Str, codes, str_eq, str_eq_refl}
use foliage_sdk.Graph.Keys.{out_body, out_index, out_name, name_gen, in_link}
use foliage_sdk.Graph.Context.{
  Context, Stored, document, int64, State, ok, reads, pure, raise, set, delete, send, ◌>>=◌,
  for_each,
}
use foliage_sdk.Graph.Docs.{Doc, absent, text, texts, with_field, field, docs}
use foliage_sdk.Graph.Link.{
  body_key, text_at, put_text, defined_name, name_link, generate_name, store_link, delete_there,
  delete_indices, tell_end,
}
use foliage_sdk.Graph.Link.Handlers.{delete_out, delete_found, create_out, link_create, link_delete}
use foliage_sdk.Graph.OpStack.{
  StackCalls, get_op_stack_from_options, merge_op_stack, merge_reply, add_link_op, link_op,
}
use foliage_sdk.Graph.Link.Laws.{sets, deletes, store_link-delete_there}

abbrev Store : Type 0
Store = Dict (Stored Doc)

abbrev as_document : Option (Stored Doc) → Option Doc
as_document (some (document j)) = some j
as_document _ = none

abbrev as_int64 : Option (Stored Doc) → Option ℤ
as_int64 (some (int64 n)) = some n
as_int64 _ = none

abbrev is_held : Option (Stored Doc) → Bool
is_held none = false
is_held (some v) = true

abbrev store : Context Doc Store
store = record {
  json = docs;
  get_value_as_json = λ w key. as_document (load key w);
  has_value = λ w key. is_held (load key w);
  get_keys = λ w pattern. [];
  get_int64 = λ w key. as_int64 (load key w);
  set_value = λ w key v. assign key v w;
  delete_value = λ w key. Dict.delete key w;
  request = λ w op id payload. (some absent, w);
  object_mutex_lock = λ w. (true, w);
  object_mutex_unlock = λ w. w;
  get_object_context = λ w. absent;
  set_object_context = λ w j. w;
  now = λ w. 0;
}

abbrev first_name : ℤ → Str
first_name n = codes "name0"

abbrev same_id : Store → Str
same_id w = codes "id"

abbrev same_text : Str → Str
same_text s = s

-- No array is in a reply.
abbrev calls : StackCalls Doc Store
calls = record {
  of_array = λ ops. absent;
  elements = λ j. none;
  request_with = λ options w op id payload. (some absent, w);
}

abbrev start : State Doc Store
start = record { world = []; sent = []; signalled = []; written = [] }

-- A link from "a" to "b" of the type "t", with the tag "x" and no name.
abbrev link_body : Doc
link_body = with_field absent (codes "tags") (texts (codes "x" ∷ []))

abbrev named_body : Doc
named_body = with_field link_body (codes "name") (text (codes "name0"))

abbrev payload : Doc
payload =
    with_field
      (with_field (with_field absent (codes "link_body") link_body) (codes "link_type")
        (text (codes "t")))
      (codes "descendant_uuid") (text (codes "b"))

program : Unit {0}
unfolding Dict.load Dict.assign Dict.delete str_eq field out_body out_index out_name name_gen
    in_link reads pure raise set delete send ◌>>=◌ for_each name_link generate_name store_link
    delete_there delete_indices delete_out delete_found create_out tell_end link_create link_delete
    get_op_stack_from_options merge_reply merge_op_stack add_link_op link_op ◌+ℤ◌
program = tt

abbrev created : State Doc Store
created =
    (link_create store first_name same_id same_text calls none
      (codes "functions.graph.api.link.create") (codes "q") (codes "a") [] payload start).1

-- After the link is created and deleted only the counter of the names is left.
create_and_delete :
    (link_delete store first_name same_id same_text calls none
      (codes "functions.graph.api.link.delete")
      (codes "q")
      (codes "a")
      []
      payload
      created).1.world
    ≡ (codes "a.out.namegen", int64 (pos 1)) ∷ []
unfolding program
create_and_delete = refl

stored :
    (j : Doc) (name : Str)
    → docs.is_object j ≡ true
    → text_at store first_name same_id same_text
        (put_text store first_name same_id same_text (codes "name") name j)
        (codes "name")
      ≡ some name
unfolding field
stored j name object = rw (str_eq_refl (codes "name")) refl

chosen :
    (name_link store first_name same_id same_text
      (codes "a")
      link_body
      (defined_name (text_at store first_name same_id same_text link_body (codes "name")))
      start).0
    ≡ ok (named_body, codes "name0")
unfolding program
chosen = refl

abbrev with_link : State Doc Store
with_link = record {
  world = (codes "a.out.body.t.b", document named_body) ∷ [];
  sent = [];
  signalled = [];
  written = [];
}

reads_back :
    store.get_value_as_json with_link.world (body_key (codes "a") (codes "t") (codes "b"))
    ≡ some named_body
unfolding program
reads_back = refl

store_link-delete_there_example :
    let created =
      (store_link store first_name same_id same_text
        (codes "a")
        (codes "t")
        (codes "b")
        (named_body, codes "name0")
        start).1.written in
    let removed =
      (delete_there store first_name same_id same_text
        (codes "functions.graph.api.link.delete")
        (codes "q")
        (codes "a")
        (codes "t")
        (codes "b")
        with_link).1.written in
    (sets (codes "a.out.index.t.b.tag.x") created ≡ deletes (codes "a.out.index.t.b.tag.x") removed)
    × (deletes (codes "a.out.index.t.b.tag.x") created ≡ false)
    × (sets (codes "a.out.index.t.b.tag.x") removed ≡ false)
store_link-delete_there_example =
    store_link-delete_there store first_name same_id same_text stored
      (codes "a.out.index.t.b.tag.x") (codes "functions.graph.api.link.delete") (codes "q")
      (codes "a") (codes "t") (codes "b") link_body named_body (codes "name0") start start with_link
      refl refl refl chosen reads_back

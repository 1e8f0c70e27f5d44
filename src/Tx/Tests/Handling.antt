-- ===== src/Tx/Tests/Handling.antt =====
-- Runs of the handlers and of the merge of embedded/graph/tx, with a small model of the documents of
-- easyjson.
use foliage_sdk.Common.{
  rev_onto, ℕ, suc, true, false, Option, none, some, List, [], ◌∷◌, ◌++◌, ◌≡◌, refl, All, map,
  if◌then◌else◌, all_of,
}
use foliage_sdk.Common.Dict
use foliage_sdk.Common.Dict.{Dict, load}
use foliage_sdk.Common.Text
use foliage_sdk.Common.Text.{Str, codes, has_prefix, str_eq, str_eq_refl}
use foliage_sdk.Cache.Key.Laws.{last_token}
use foliage_sdk.Graph.Keys.{out_body}
use foliage_sdk.Tx.Merge.Deleted.{is_name, spares, deleted_ids}
use foliage_sdk.Tx.Merge.Laws.{spares-merge_graphs}
use foliage_sdk.Graph.Docs.{Doc, absent, text, with_field, field, docs}
use foliage_sdk.Graph.Context.{
  Context, Request, State, ok, ◌>>=◌, pure, raise, reads, send, for_each,
}
use foliage_sdk.Tx.Types.{delete_type}
use foliage_sdk.Tx.Types.Laws.{object_deletions, type_deletion, delete_type_lem}
use foliage_sdk.Tx.Objects.{handle, type_delete}
use foliage_sdk.Tx.Requests.{sent_pass}
use foliage_sdk.Tx.Isolation.{is_of_tx, is_inside}
use foliage_sdk.Tx.Isolation.Handlers.{sent_pass-handle}
use foliage_sdk.Tx.Isolation.Begin.{is_start, sent_pass-begin}
use foliage_sdk.Tx.Clone.Select.{BeginTxType}
use foliage_sdk.Tx.Session.{begin}
use foliage_sdk.Tx.Merge.{
  Merger, new_merger, merge_graphs, merge_objects, merge_object, merge_known, merge_new, merge_link,
  merge_live_link, remove_tx_prefix, apply_opts,
}
use foliage_sdk.Tx.Merge.Prefix.{remove_tx_prefix_lem}
use foliage_sdk.Tx.Helper.{
  generate_prefix, string_at, set_string, set_json, find_type_objects, generate_deleted_meta,
  request_sent, request_checked, check_request_error, fetch_json, create_low_level_link,
  update_low_level_link, delete_low_level_link, create_low_level_object, update_low_level_object,
  delete_low_level_object,
}
use foliage_sdk.Tx.Traverse.{Link, GraphState, has_object}

program : Unit {0}
unfolding Text.str_eq Text.split last_token out_body has_object
program = tt

abbrev deleted_doc : Doc
deleted_doc = with_field absent (codes "__meta.status") (text (codes "deleted"))

-- The vertex "t=a" is marked as deleted; every type of the transaction has the object "t=o". The world
-- counts the requests.
abbrev small : Context Doc ℕ
small = record {
  json = docs;
  get_value_as_json = λ n key. some (if str_eq key (codes "t=a") then deleted_doc else absent);
  has_value = λ n key. true;
  get_int64 = λ n key. none;
  set_value = λ n key v. n;
  delete_value = λ n key. n;
  get_keys = λ n pattern. codes "t=x.out.body.__object.t=o" ∷ [];
  request = λ n op id payload.
      (some (with_field absent (codes "payload.status") (text (codes "ok"))), suc n);
  object_mutex_lock = λ n. (true, n);
  object_mutex_unlock = λ n. n;
  get_object_context = λ n. absent;
  set_object_context = λ n j. n;
  now = λ n. n;
}

stored :
    (path v : Str)
    → is_name path ≡ true
    → string_at small (set_string small path v absent) path ≡ some v
unfolding field
stored path v h = rw (str_eq_refl path) refl

kept :
    (j v : Doc) (path q : Str)
    → is_name path ≡ true
    → is_name q ≡ true
    → str_eq path q ≡ false
    → string_at small (set_json small path v j) q ≡ string_at small j q
unfolding field
kept j v path q h h' e = rw e refl

abbrev start : State Doc ℕ
start = record { world = 0; sent = []; signalled = []; written = [] }

abbrev with_id : Str → Doc
with_id id = with_field absent (codes "id") (text id)

types_inside :
    (n : ℕ) (id : Str)
    → All
        (λ (o : Str). is_of_tx (codes "t") o ≡ true)
        (find_type_objects small n (generate_prefix (codes "t") ++ id))
unfolding program find_type_objects has_prefix
types_inside n id = (refl, tt)

sent_pass-handle_example :
    sent_pass small
      (is_inside (codes "t"))
      (handle small (codes "t") (with_id (codes "x")) type_delete start).1
    ≡ true
sent_pass-handle_example =
    sent_pass-handle small (codes "t") (with_id (codes "x")) types_inside type_delete start refl

abbrev same_objects : List Str → List Str
same_objects ids = ids

abbrev all_links : Dict Link → List Link
all_links links = map (λ (p : Str × Link). p.1) links

abbrev no_types : Doc → Option (Dict BeginTxType)
no_types j = some []

sent_pass-begin_example :
    sent_pass small
      (is_start (codes "t"))
      (begin small same_objects all_links 9 no_types (codes "t") absent start).1
    ≡ true
sent_pass-begin_example =
    sent_pass-begin small (codes "t") same_objects all_links 9 no_types absent start refl

abbrev main_graph : GraphState
main_graph = record { objects = codes "a" ∷ codes "root" ∷ []; links = [] }

abbrev merger : Merger
merger = new_merger (codes "t") []

abbrev tx_objects : List Str
tx_objects = codes "t=root" ∷ codes "t=a" ∷ []

-- From "root" to "a", which is deleted, and from "root" to itself.
abbrev tx_links : List Link
tx_links =
    record {
      from = codes "t=root";
      to = codes "t=a";
      lt = codes "e";
      object_lt = [];
      cache_id = codes "k";
    }
    ∷ record {
      from = codes "t=root";
      to = codes "t=root";
      lt = codes "e";
      object_lt = [];
      cache_id = codes "l";
    }
    ∷ []

spares-merge_graphs_example :
    all_of
      (spares small
        (deleted_ids (merge_graphs small merger main_graph tx_objects tx_links start).1.sent))
      (merge_graphs small merger main_graph tx_objects tx_links start).1.sent
    ≡ true
spares-merge_graphs_example =
    spares-merge_graphs small merger main_graph stored kept tx_objects tx_links start refl

unfoldable runs : Unit {0}
unfolding program Dict.load apply_opts find_type_objects Text.has_prefix Text.trim_prefix field
    delete_type merge_graphs merge_objects merge_object merge_known merge_new merge_link
    merge_live_link remove_tx_prefix request_sent request_checked check_request_error fetch_json
    create_low_level_link update_low_level_link delete_low_level_link create_low_level_object
    update_low_level_object delete_low_level_object ◌>>=◌ pure raise reads send for_each
    generate_deleted_meta
runs = tt

-- What that merge asks for: it updates "root", deletes "a", and creates the link from "root" to itself.
merge_requests :
    map {B = Str × Str}
      (λ (r : Request Doc). (r.op, r.id))
      (merge_graphs small merger main_graph tx_objects tx_links start).1.sent
    ≡ (codes "functions.graph.api.link.create", codes "root")
      ∷ (codes "functions.graph.api.vertex.delete", codes "a")
      ∷ (codes "functions.graph.api.vertex.update", codes "root")
      ∷ []
unfolding runs
merge_requests = refl

deletes_x : (delete_type small (codes "t") (with_id (codes "x")) start).0 ≡ ok tt
unfolding runs
deletes_x = refl

has_id : string_at small (with_id (codes "x")) (codes "id") ≡ some (codes "x")
unfolding runs
has_id = refl

delete_type_example :
    (delete_type small (codes "t") (with_id (codes "x")) start).1.sent
    ≡ type_deletion small (generate_deleted_meta small 0) (codes "t=x")
      ∷ rev_onto
          (object_deletions small
            (generate_deleted_meta small 0)
            (find_type_objects small 0 (codes "t=x")))
          []
delete_type_example =
    delete_type_lem small (codes "t") (codes "x") (with_id (codes "x")) start has_id deletes_x

body_keeps_id :
    (j body : Doc)
    → string_at small (set_json small (codes "body") body j) (codes "id")
      ≡ string_at small j (codes "id")
unfolding runs
body_keeps_id j body = refl

has_absent : small.get_value_as_json 0 (codes "x") ≡ some absent
unfolding runs
has_absent = refl

abbrev typed_link : Doc
typed_link = with_field absent (codes "link_type") (text (codes "t=e"))

no_tags : docs.as_strings (docs.get_by_path typed_link (codes "tags")) ≡ none
unfolding runs
no_tags = refl

has_link_type : string_at small typed_link (codes "link_type") ≡ some (codes "t=e")
unfolding runs
has_link_type = refl

link_type_stored :
    (j : Doc) (v : Str)
    → small.json.is_object j ≡ true
    → string_at small (set_string small (codes "link_type") v j) (codes "link_type") ≡ some v
unfolding runs
link_type_stored j v object = refl

removed_prefix :
    string_at small (remove_tx_prefix small (codes "t=") typed_link) (codes "link_type")
    ≡ some (codes "t=")
removed_prefix =
    remove_tx_prefix_lem small link_type_stored (codes "t=") (b'e') [] typed_link refl no_tags
      has_link_type

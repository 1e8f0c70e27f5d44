-- ===== src/Tx/Merge.antt =====
-- embedded/graph/tx/merge.go: the merge of a transaction's graph into the main graph. The orders in
-- which Go ranges over the maps of the transaction's graph are parameters.
pub mod Deleted
pub mod Laws
pub mod Prefix
use foliage_sdk.Common.{
  ℕ, Bool, true, false, ◌||◌, ◌&&◌, Option, none, some, List, [], ◌∷◌, ◌++◌, map, if◌then◌else◌,
}
use foliage_sdk.Common.Dict.{Dict, load}
use foliage_sdk.Common.Text.{Str, codes, str_eq, has_prefix, trim_prefix, remove_all}
use foliage_sdk.Jpgql.Links.{is_some}
use foliage_sdk.Graph.Context.{
  Context, State, Result, Action, pure, raise, reads, ◌>>=◌, ◌>>◌, when, for_each, uninited_object,
}
use foliage_sdk.Tx.Helper.{
  generate_prefix, or_default, string_at, set_string, fetch_json, create_low_level_link,
  update_low_level_link, delete_low_level_link, create_low_level_object, update_low_level_object,
  delete_low_level_object,
}
use foliage_sdk.Tx.Traverse.{
  GraphState, Link, Traversed, finished, panicked, has_object, graph_state,
}

-- `objectsPolicy`
pub data ObjectsPolicy : Type 0 where
  strict allow_creation : ObjectsPolicy

-- `merger`
pub record Merger : Type 0 where
  pub debug : Bool
  pub uninited_objects_policy : ObjectsPolicy
  pub tx_id : Str
  pub mode : Str

-- `mergerOpt`: withDebug and withMode.
pub data MergerOpt : Type 0 where
  with_debug : MergerOpt
  with_mode : Str → MergerOpt

abbrev pub apply_opt : MergerOpt → Merger → Merger
apply_opt with_debug m = record m { debug = true }
apply_opt (with_mode mode) m = record m { mode = mode }

unfoldable pub apply_opts : List MergerOpt → Merger → Merger
apply_opts [] m = m
apply_opts (opt ∷ opts) m = apply_opts opts (apply_opt opt m)

-- newMerger
abbrev pub new_merger : Str → List MergerOpt → Merger
new_merger tx_id opts = apply_opts opts (record {
  debug = false;
  uninited_objects_policy = allow_creation;
  tx_id = tx_id;
  mode = codes "merge";
})

abbrev pub is_strict : ObjectsPolicy → Bool
is_strict strict = true
is_strict allow_creation = false

module _ {J W : Type 0} (ctx : Context J W) where
  abbrev pub is_deleted : J → Bool
  is_deleted body =
      str_eq (or_default [] (string_at ctx body (codes "__meta.status"))) (codes "deleted")

  -- The tags without the prefix.
  abbrev pub remove_from_tags : Str → Option (List Str) → J → J
  remove_from_tags prefix none body = body
  remove_from_tags prefix (some tags) body =
      ctx.json.set_by_path body (codes "tags") (ctx.json.of_strings (map (remove_all prefix) tags))

  -- The arguments of TrimPrefix stand as in the source.
  abbrev pub remove_from_link_type : Str → Option Str → J → J
  remove_from_link_type prefix none body = body
  remove_from_link_type prefix (some lt) body =
      if has_prefix lt prefix
      then set_string ctx (codes "link_type") (trim_prefix prefix lt) body
      else body

  -- removeTxPrefix
  unfoldable pub remove_tx_prefix : Str → J → J
  remove_tx_prefix prefix body =
      let body' =
        remove_from_tags prefix (ctx.json.as_strings (ctx.json.get_by_path body (codes "tags")))
          body in
      remove_from_link_type prefix (string_at ctx body' (codes "link_type")) body'

  module _ (m : Merger) (main : GraphState) where
    -- An object that the main graph has; the answer is the set of the deleted objects.
    unfoldable pub merge_known : List Str → Str → J → Action J W (List Str)
    merge_known deleted id body =
        if is_deleted body
        then delete_low_level_object ctx id >>= (λ u. pure (id ∷ deleted))
        else update_low_level_object ctx m.mode id body >>= (λ u. pure deleted)

    unfoldable pub merge_new : List Str → Str → J → Action J W (List Str)
    merge_new deleted id body = do
      there ← reads (λ w. ctx.has_value w id)
      when (there && is_strict m.uninited_objects_policy) (raise (uninited_object id))
      create_low_level_object ctx id body
      pure deleted

    -- One round of the loop over the transaction's objects.
    unfoldable pub merge_object : List Str → Str → Action J W (List Str)
    merge_object deleted k = do
      body ← fetch_json ctx k
      let id = trim_prefix k (generate_prefix m.tx_id)
      if has_object id main.objects then merge_known deleted id body else merge_new deleted id body

    unfoldable pub merge_objects : List Str → List Str → Action J W (List Str)
    merge_objects deleted [] = pure deleted
    merge_objects deleted (k ∷ objects) =
        merge_object deleted k >>= (λ deleted'. merge_objects deleted' objects)

    -- A link with both ends outside the deleted objects.
    unfoldable pub merge_live_link : Str → Str → Link → Action J W (Unit {0})
    merge_live_link from to l = do
      let prefix = generate_prefix m.tx_id
      let lt = trim_prefix l.lt prefix
      tx_body ← fetch_json ctx l.cache_id
      let body = remove_tx_prefix prefix tx_body
      if is_some (load (from ++ (to ++ lt)) main.links)
          then if is_deleted body
            then delete_low_level_link ctx from to lt
            else update_low_level_link ctx from to lt body
          else create_low_level_link ctx from to lt [] body

    -- One round of the loop over the transaction's links.
    unfoldable pub merge_link : List Str → Link → Action J W (Unit {0})
    merge_link deleted l =
        let from = trim_prefix l.from (generate_prefix m.tx_id) in
        let to = trim_prefix l.to (generate_prefix m.tx_id) in
        if has_object from deleted || has_object to deleted
        then pure tt
        else merge_live_link from to l

    -- The two loops of Merge.
    unfoldable pub merge_graphs : List Str → List Link → Action J W (Unit {0})
    merge_graphs objects links =
        merge_objects [] objects >>= (λ deleted. for_each links (merge_link deleted))

  module _ (range_objects : List Str → List Str) (range_links : Dict Link → List Link) where
    abbrev pub merge_traversed :
        Merger
        → Option Traversed
        → Option Traversed
        → State J W
        → Option (Result (Unit {0}) × State J W)
    merge_traversed m (some (finished main)) (some (finished tx)) s =
        some (merge_graphs m main (range_objects tx.objects) (range_links tx.links) s)
    merge_traversed m _ _ s = none

    -- Merge, with fuel for the two traversals; `none` is a panic in them, or that the fuel is used up.
    unfoldable pub merge : Merger → ℕ → State J W → Option (Result (Unit {0}) × State J W)
    merge m fuel s =
        merge_traversed m
          (graph_state (ctx.get_keys s.world) (ctx.has_value s.world) fuel (codes "root"))
          (graph_state (ctx.get_keys s.world) (ctx.has_value s.world) fuel
            (generate_prefix m.tx_id ++ codes "root"))
          s

-- ===== src/Tx/Session.antt =====
-- embedded/graph/tx/statefun.go: Begin, Commit and Push.
use foliage_sdk.Common.{
  ℕ, suc, Bool, true, false, Option, none, some, List, [], ◌∷◌, ◌++◌, if◌then◌else◌,
}
use foliage_sdk.Common.Dict.{Dict}
use foliage_sdk.Common.Text.{Str, codes, str_eq}
use foliage_sdk.Graph.Context.{
  Context, State, Result, err, Action, raise, changes, ◌>>=◌, ◌>>◌, or_raise, ignore, no_lock,
  no_traversal, no_value,
}
use foliage_sdk.Tx.Helper.{
  or_default, string_at, set_string, request_sent, create_low_level_link, answer,
}
use foliage_sdk.Tx.Traverse.{Link}
use foliage_sdk.Tx.Clone.{clone_graph}
use foliage_sdk.Tx.Clone.Select.{BeginTxType}
use foliage_sdk.Tx.Merge.{MergerOpt, with_debug, with_mode, new_merger, merge}

abbrev pub tx_master : Str
tx_master = codes "txmaster"

abbrev or_zero : Option ℕ → ℕ
or_zero none = 0
or_zero (some n) = n

module _ {J W : Type 0} (ctx : Context J W) where
  -- nonce++ in the object's context.
  abbrev pub count_nonce : W → W
  count_nonce w =
      let body = ctx.get_object_context w in
      let nonce = or_zero (ctx.json.as_number (ctx.json.get_by_path body (codes "nonce"))) in
      ctx.set_object_context w
        (ctx.json.set_by_path body (codes "nonce") (ctx.json.of_number (suc nonce)))

  abbrev bool_at : J → Str → Option Bool
  bool_at j path = ctx.json.as_bool (ctx.json.get_by_path j path)

  abbrev copy_mode : Option Str → J → J
  copy_mode none j = j
  copy_mode (some mode) j = set_string ctx (codes "mode") mode j

  abbrev copy_debug : Option Bool → J → J
  copy_debug none j = j
  copy_debug (some debug) j = ctx.json.set_by_path j (codes "debug") (ctx.json.of_bool debug)

  -- Commit
  unfoldable pub commit : J → Action J W (Unit {0})
  commit payload = do
    ignore (
        request_sent ctx (codes "functions.cmdb.tx.push") tx_master (
          copy_debug (bool_at payload (codes "debug"))
            (copy_mode (string_at ctx payload (codes "mode")) ctx.json.new_object)))
    changes ctx.object_mutex_unlock

  abbrev mode_opts : Option Str → List MergerOpt
  mode_opts none = []
  mode_opts (some mode) = with_mode mode ∷ []

  abbrev debug_opts : Option Bool → List MergerOpt
  debug_opts (some true) = with_debug ∷ []
  debug_opts (some false) = []
  debug_opts none = []

  -- The options of a merge.
  abbrev pub merge_opts : J → List MergerOpt
  merge_opts payload =
      mode_opts (string_at ctx payload (codes "mode"))
      ++ debug_opts (bool_at payload (codes "debug"))

  module _ (range_objects : List Str → List Str) (range_links : Dict Link → List Link)
      (fuel : ℕ) where
    abbrev merged :
        Option (Result (Unit {0}) × State J W) → State J W → Result (Unit {0}) × State J W
    merged none s = (err no_traversal, s)
    merged (some r) s = r

    abbrev merge_action : Str → J → Action J W (Unit {0})
    merge_action tx_id payload s =
        merged (merge ctx range_objects range_links (new_merger tx_id (merge_opts payload)) fuel s)
          s

    -- Push; `none` is a handler that does not answer, since it is not the master's.
    unfoldable pub push : Str → Str → J → State J W → Option (Result (Unit {0}) × State J W)
    push self_id caller_id payload s =
        if str_eq self_id tx_master
        then some (
            answer ctx
              (merge_action caller_id payload
                >> request_sent ctx (codes "functions.cmdb.api.object.delete") caller_id
                    (set_string ctx (codes "mode") (codes "cascade") ctx.json.new_object))
              s)
        else none

    -- json.Unmarshal of the types is a parameter; no bytes give no types.
    module _ (parse_types : J → Option (Dict BeginTxType)) where
      unfoldable pub begin_locked : Str → J → Action J W (Unit {0})
      begin_locked tx_id payload = do
        changes count_nonce
        create_low_level_link ctx tx_master tx_id (codes "tx") [] ctx.json.new_object
        types ← or_raise no_value (parse_types (ctx.json.get_by_path payload (codes "types")))
        clone_graph ctx tx_id range_objects range_links fuel
            (or_default (codes "full") (string_at ctx payload (codes "clone"))) types

      -- What Begin does with the answer to the lock.
      abbrev pub begin_with : Str → J → Bool → Action J W (Unit {0})
      begin_with tx_id payload false = raise no_lock
      begin_with tx_id payload true = answer ctx (begin_locked tx_id payload)

      -- Begin; the object stays locked when it succeeds, for Commit to unlock.
      unfoldable pub begin : Str → J → Action J W (Unit {0})
      begin tx_id payload s =
          let (locked, w) = ctx.object_mutex_lock s.world in
          begin_with tx_id payload locked (record s { world = w })

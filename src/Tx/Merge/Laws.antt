-- ===== src/Tx/Merge/Laws.antt =====
-- What the merge of embedded/graph/tx/merge.go asks of the main graph.
use foliage_sdk.Common.{
  true, false, ◌||◌, some, List, [], ◌∷◌, ◌≡◌, refl, ◌∙◌, ap, arith, all_of, All-any,
}
use foliage_sdk.Common.Text.{Str, codes, str_eq, has_prefix, trim_prefix}
use foliage_sdk.Graph.Context.{Context, State, Result, ok, err, carry, ◌>>=◌, for_each}
use foliage_sdk.Tx.Helper.{
  generate_prefix, or_default, string_at, set_string, set_json, create_low_level_link,
  update_low_level_link, delete_low_level_link, create_low_level_object, update_low_level_object,
  delete_low_level_object,
}
use foliage_sdk.Tx.Requests.{
  sent_pass, IsKept, pure-IsKept, raise-IsKept, reads-IsKept, >>=-IsKept, reads->>=-IsKept,
  either-IsKept, when-IsKept, for_each-IsKept, request_sent-IsKept, fetch_json-IsKept,
}
use foliage_sdk.Graph.Outcome.{After, Ends, Ends-pure, Ends-either, Ends->>=}
use foliage_sdk.Tx.Outcome.{Ends-kept}
use foliage_sdk.Tx.Traverse.{GraphState, Link, has_object}
use foliage_sdk.Tx.Merge.{
  Merger, merge_known, merge_new, merge_object, merge_objects, merge_live_link, merge_link,
  merge_graphs,
}
use foliage_sdk.Tx.Merge.Deleted.{
  is_delete, deleted_ids, is_gone, no_link, is_name, has_object_head, spares, is_gone_more,
  deleted_ids-is_gone, spares_less, no_link-spares, is_tame, no_link-is_tame, is_tame-both, neither,
  unless-IsKept, IsTracked,
}

module _ {J W : Type 0} (ctx : Context J W) where
  module _ (m : Merger) (main : GraphState) where
    -- The loop over the objects sends no request for a link.
    merge_known-no_link :
        (deleted : List Str) (id : Str) (body : J)
        → IsKept ctx no_link (merge_known ctx m main deleted id body)
    unfolding merge_known delete_low_level_object update_low_level_object has_prefix
    merge_known-no_link deleted id body =
        either-IsKept ctx no_link _ _ _
          (>>=-IsKept ctx no_link _ _ (request_sent-IsKept ctx no_link _ id _ refl)
            (λ u. pure-IsKept ctx no_link _))
          (>>=-IsKept ctx no_link _ _ (request_sent-IsKept ctx no_link _ id _ refl)
            (λ u. pure-IsKept ctx no_link _))

    merge_new-no_link :
        (deleted : List Str) (id : Str) (body : J)
        → IsKept ctx no_link (merge_new ctx m main deleted id body)
    unfolding merge_new create_low_level_object has_prefix
    merge_new-no_link deleted id body = reads->>=-IsKept ctx no_link _ _ λ w.
        >>=-IsKept ctx no_link _ _ (when-IsKept ctx no_link _ _ (raise-IsKept ctx no_link _ _)) λ u.
          >>=-IsKept ctx no_link _ _ (request_sent-IsKept ctx no_link _ id _ refl)
            (λ v. pure-IsKept ctx no_link _)

    merge_object-no_link :
        (deleted : List Str) (k : Str) → IsKept ctx no_link (merge_object ctx m main deleted k)
    unfolding merge_object
    merge_object-no_link deleted k =
        >>=-IsKept ctx no_link _ _ (fetch_json-IsKept ctx no_link k) λ body.
          either-IsKept ctx no_link _ _ _ (merge_known-no_link deleted _ body)
            (merge_new-no_link deleted _ body)

    merge_objects-no_link :
        (deleted objects : List Str) → IsKept ctx no_link (merge_objects ctx m main deleted objects)
    unfolding merge_objects
    merge_objects-no_link deleted [] = pure-IsKept ctx no_link deleted
    merge_objects-no_link deleted (k ∷ objects) =
        >>=-IsKept ctx no_link _ _ (merge_object-no_link deleted k)
          (λ D. merge_objects-no_link D objects)

    -- The set of the deleted objects grows with each deletion.
    merge_known-tracks :
        (deleted : List Str) (id : Str) (body : J) (s : State J W)
        → IsTracked ctx deleted s
        → Ends (IsTracked ctx) (merge_known ctx m main deleted id body) s
    unfolding merge_known delete_low_level_object update_low_level_object str_eq
    merge_known-tracks deleted id body s h =
        Ends-either (IsTracked ctx) _ _ _ s
          (Ends->>= _ (IsTracked ctx) _ _ s
            (Ends-kept ctx (is_gone (id ∷ deleted)) _ s
              (request_sent-IsKept ctx (is_gone (id ∷ deleted)) _ id _ (has_object_head id deleted))
              (is_gone_more ctx id deleted s.sent h))
            (λ u s' h'. Ends-pure (IsTracked ctx) (id ∷ deleted) s' h'))
          (Ends->>= _ (IsTracked ctx) _ _ s
            (Ends-kept ctx (is_gone deleted) _ s
              (request_sent-IsKept ctx (is_gone deleted) _ id _ refl) h)
            (λ u s' h'. Ends-pure (IsTracked ctx) deleted s' h'))

    merge_new-tracks :
        (deleted : List Str) (id : Str) (body : J) (s : State J W)
        → IsTracked ctx deleted s
        → Ends (IsTracked ctx) (merge_new ctx m main deleted id body) s
    unfolding merge_new create_low_level_object str_eq
    merge_new-tracks deleted id body s h =
        Ends->>= _ (IsTracked ctx) _ _ s
          (Ends-kept ctx (is_gone deleted) _ s (reads-IsKept ctx _ _) h)
          λ there s1 h1.
            Ends->>= _ (IsTracked ctx) _ _ s1
              (Ends-kept ctx (is_gone deleted) _ s1 (when-IsKept ctx _ _ _ (raise-IsKept ctx _ _ _))
                h1)
              λ u s2 h2.
                Ends->>= _ (IsTracked ctx) _ _ s2
                  (Ends-kept ctx (is_gone deleted) _ s2 (request_sent-IsKept ctx _ _ id _ refl) h2)
                  (λ v s3 h3. Ends-pure (IsTracked ctx) deleted s3 h3)

    merge_object-tracks :
        (deleted : List Str) (k : Str) (s : State J W)
        → IsTracked ctx deleted s
        → Ends (IsTracked ctx) (merge_object ctx m main deleted k) s
    unfolding merge_object
    merge_object-tracks deleted k s h =
        Ends->>= _ (IsTracked ctx) _ _ s
          (Ends-kept ctx (is_gone deleted) _ s (fetch_json-IsKept ctx _ k) h)
          (λ body s' h'.
            Ends-either (IsTracked ctx) _ _ _ s' (merge_known-tracks deleted _ body s' h')
              (merge_new-tracks deleted _ body s' h'))

    merge_objects-tracks :
        (deleted objects : List Str) (s : State J W)
        → IsTracked ctx deleted s
        → Ends (IsTracked ctx) (merge_objects ctx m main deleted objects) s
    unfolding merge_objects
    merge_objects-tracks deleted [] s h = Ends-pure (IsTracked ctx) deleted s h
    merge_objects-tracks deleted (k ∷ objects) s h =
        Ends->>= (IsTracked ctx) (IsTracked ctx) _ _ s (merge_object-tracks deleted k s h)
          (λ D s' h'. merge_objects-tracks D objects s' h')

    module _
        (stored : (path v : Str)
          → is_name path ≡ true
          → string_at ctx (set_string ctx path v ctx.json.new_object) path ≡ some v)
        (kept : (j v : J) (path q : Str)
          → is_name path ≡ true
          → is_name q ≡ true
          → str_eq path q ≡ false
          → string_at ctx (set_json ctx path v j) q ≡ string_at ctx j q) where
      uuid_of_link :
          (to lt : Str)
          → string_at ctx
              (set_string ctx
                (codes "link_type")
                lt
                (set_string ctx (codes "descendant_uuid") to ctx.json.new_object))
              (codes "descendant_uuid")
            ≡ some to
      unfolding str_eq
      uuid_of_link to lt = kept _ _ _ _ refl refl refl ∙ stored _ _ refl

      uuid_of_body :
          (to lt : Str) (body : J)
          → string_at ctx
              (set_json ctx (codes "link_body") body (
                set_string ctx
                  (codes "link_type")
                  lt
                  (set_string ctx (codes "descendant_uuid") to ctx.json.new_object)))
              (codes "descendant_uuid")
            ≡ some to
      unfolding str_eq
      uuid_of_body to lt body = kept _ _ _ _ refl refl refl ∙ uuid_of_link to lt

      is_tame_link :
          (D : List Str) (op from to : Str) (j : J)
          → has_object from D ≡ false
          → has_object to D ≡ false
          → is_delete (record { op = op; id = from; payload = j }) ≡ false
          → string_at ctx j (codes "descendant_uuid") ≡ some to
          → is_tame ctx D (record { op = op; id = from; payload = j }) ≡ true
      is_tame_link D op from to j hf ht hd e =
          ground (arith, hf, ht, hd, ap (λ o. has_object (or_default [] o) D) e)

      merge_live_link-tame :
          (D : List Str) (from to : Str) (l : Link)
          → has_object from D ≡ false
          → has_object to D ≡ false
          → IsKept ctx (is_tame ctx D) (merge_live_link ctx m main from to l)
      unfolding merge_live_link create_low_level_link update_low_level_link delete_low_level_link
          str_eq
      merge_live_link-tame D from to l hf ht =
          >>=-IsKept ctx (is_tame ctx D) _ _ (fetch_json-IsKept ctx (is_tame ctx D) _) λ body.
            either-IsKept ctx (is_tame ctx D) _ _ _
              (either-IsKept ctx (is_tame ctx D) _ _ _
                (request_sent-IsKept ctx (is_tame ctx D) _ from _
                  (is_tame_link D _ from to _ hf ht refl (uuid_of_link to _)))
                (request_sent-IsKept ctx (is_tame ctx D) _ from _
                  (is_tame_link D _ from to _ hf ht refl (uuid_of_body to _ _))))
              (request_sent-IsKept ctx (is_tame ctx D) _ from _
                (is_tame_link D _ from to _ hf ht refl (uuid_of_body to _ _)))

      merge_link-tame :
          (D : List Str) (l : Link) → IsKept ctx (is_tame ctx D) (merge_link ctx m main D l)
      unfolding merge_link
      merge_link-tame D l =
          let from = trim_prefix l.from (generate_prefix m.tx_id) in
          let to = trim_prefix l.to (generate_prefix m.tx_id) in
          unless-IsKept ctx (is_tame ctx D) (has_object from D || has_object to D)
            (merge_live_link ctx m main from to l)
            (λ e. let (hf, ht) = neither ctx D from to e in merge_live_link-tame D from to l hf ht)

      merge_links-tame :
          (D : List Str) (links : List Link)
          → IsKept ctx (is_tame ctx D) (for_each links (merge_link ctx m main D))
      merge_links-tame D links =
          for_each-IsKept ctx (is_tame ctx D) links _ (All-any links (λ l. merge_link-tame D l))

      links_spare :
          (links : List Link) (r : Result (List Str)) (s' : State J W)
          → sent_pass ctx no_link s' ≡ true
          → After (IsTracked ctx) r s'
          → let sent = (carry (λ D. for_each links (merge_link ctx m main D)) r s').1.sent in
            all_of (spares ctx (deleted_ids sent)) sent ≡ true
      unfolding IsKept
      links_spare links (err e) s' h t = no_link-spares ctx _ s'.sent h
      links_spare links (ok D) s' h t =
          let sent = (for_each links (merge_link ctx m main D) s').1.sent in
          let tame = merge_links-tame D links s' (no_link-is_tame ctx D s'.sent h t) in
          let (spared, gone) = is_tame-both ctx D sent tame in
          spares_less ctx D (deleted_ids sent) sent (λ x. deleted_ids-is_gone ctx D x sent gone)
            spared

      -- In a merge, no request for a link names as its start or its end an object whose deletion the same
      -- merge requests, whether it succeeds or fails; easyjson reads back a name that is set in a new object, and what is set under
      -- one name leaves the others.
      pub spares-merge_graphs :
          (objects : List Str) (links : List Link) (s : State J W)
          → s.sent ≡ []
          → let sent = (merge_graphs ctx m main objects links s).1.sent in
            all_of (spares ctx (deleted_ids sent)) sent ≡ true
      unfolding merge_graphs ◌>>=◌ IsKept Ends
      spares-merge_graphs objects links s fresh =
          let run = merge_objects ctx m main [] objects s in
          links_spare links run.0 run.1 (merge_objects-no_link [] objects s (rw fresh refl))
            (merge_objects-tracks [] objects s (rw fresh refl))

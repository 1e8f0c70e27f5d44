-- ===== src/Tx/Merge/Prefix.antt =====
-- What removeTxPrefix of embedded/graph/tx/merge.go does to the link type of a link's body.
use foliage_sdk.Common.{ℕ, true, false, none, some, [], ◌∷◌, ◌++◌, ◌≡◌, refl, arith}
use foliage_sdk.Common.Text.{Str, codes, has_prefix, trim_prefix}
use foliage_sdk.Cache.Key.Laws.{has_prefix-append}
use foliage_sdk.Graph.Context.{Context}
use foliage_sdk.Tx.Helper.{string_at, set_string}
use foliage_sdk.Tx.Merge.{remove_tx_prefix, remove_from_link_type}

longer_is_no_prefix : (s : Str) (c : ℕ) (t : Str) → has_prefix s (s ++ (c ∷ t)) ≡ false
unfolding has_prefix
longer_is_no_prefix [] c t = refl
longer_is_no_prefix (x ∷ s) c t = ground (arith, longer_is_no_prefix s c t)

module _ {J W : Type 0} (ctx : Context J W)
    (stored : (j : J) (v : Str)
      → ctx.json.is_object j ≡ true
      → string_at ctx (set_string ctx (codes "link_type") v j) (codes "link_type") ≡ some v) where
  link_type_lem :
      (prefix : Str) (c : ℕ) (t : Str) (body : J)
      → ctx.json.is_object body ≡ true
      → string_at ctx
          (remove_from_link_type ctx prefix (some (prefix ++ (c ∷ t))) body)
          (codes "link_type")
        ≡ some prefix
  unfolding trim_prefix
  link_type_lem prefix c t body object =
      rw (has_prefix-append prefix (c ∷ t), longer_is_no_prefix prefix c t) (stored _ _ object)

  -- In the body of a link without tags, whose link type goes on after the prefix of the transaction,
  -- removeTxPrefix leaves the prefix as the link type, and drops what follows the prefix.
  pub remove_tx_prefix_lem :
      (prefix : Str) (c : ℕ) (t : Str) (body : J)
      → ctx.json.is_object body ≡ true
      → ctx.json.as_strings (ctx.json.get_by_path body (codes "tags")) ≡ none
      → string_at ctx body (codes "link_type") ≡ some (prefix ++ (c ∷ t))
      → string_at ctx (remove_tx_prefix ctx prefix body) (codes "link_type") ≡ some prefix
  unfolding remove_tx_prefix
  remove_tx_prefix_lem prefix c t body object no_tags e =
      rw (no_tags, e) (link_type_lem prefix c t body object)

-- ===== src/Jpgql/Filter/Laws.antt =====
-- What filters mean for a link (embedded/graph/jpgql/tools.go).
use foliage_sdk.Common.{
  Bool, true, false, ◌&&◌, ◌||◌, List, [], ◌∷◌, ◌++◌, ◌≡◌, refl, arith, map, any_of, all_of,
  any_of-append, all_of-append, ◌∙◌, sym, not,
}
use foliage_sdk.Common.Text.{Str, codes, dot}
use foliage_sdk.Jpgql.Filter.{
  Feature, FilterData, or_filter, append_features, and_filter, FilterResult, filter_of,
  filter_error, tags_filter, name_filter, Expr, tags, name, or, and, evaluate, found_all, matches,
  tag_feature, both, index_of,
}

module _ (indices : Str → Bool) where
  -- A link matches a disjunction exactly if it matches a side.
  matches-or_filter :
      (a b : FilterData)
      → matches indices (or_filter a b) ≡ (matches indices a || matches indices b)
  unfolding matches or_filter
  matches-or_filter a b = any_of-append (found_all indices) a b

  matches-append_features :
      (features : List Feature) (a : FilterData)
      → matches indices (append_features features a)
        ≡ (matches indices a && found_all indices features)
  unfolding matches append_features found_all
  matches-append_features features [] = refl
  matches-append_features features (c ∷ a) = ground (
    arith,
    all_of-append (λ f. indices (index_of f)) c features,
    matches-append_features features a,
  )

  -- A link matches the filter that the code makes for `a && b` exactly if it matches `a` and every
  -- conjunction of `b`, where a conjunction of `a` and one of `b` would do.
  matches-and_filter :
      (a b : FilterData)
      → matches indices (and_filter a b) ≡ (matches indices a && all_of (found_all indices) b)
  unfolding and_filter
  matches-and_filter a [] = ground arith
  matches-and_filter a (c ∷ b) =
      ground (arith, matches-and_filter (append_features c a) b, matches-append_features c a)

  -- What a filter means.
  unfoldable pub holds : Expr → Bool
  holds (tags args) = all_of (λ (arg : Str). indices (codes "tag" ++ (dot ∷ arg))) args
  holds (name args) = any_of (λ (arg : Str). indices (codes "name" ++ (dot ∷ arg))) args
  holds (or a b) = holds a || holds b
  holds (and a b) = holds a && holds b

  found_tags :
      (args : List Str)
      → found_all indices (map tag_feature args)
        ≡ all_of (λ (arg : Str). indices (codes "tag" ++ (dot ∷ arg))) args
  unfolding found_all
  found_tags [] = refl
  found_tags (a ∷ args) = ground (arith, found_tags args)

-- No operand on the right of `&&` has an `||`.
unfoldable pub has_or : Expr → Bool
has_or (tags args) = false
has_or (name args) = false
has_or (or a b) = true
has_or (and a b) = has_or a || has_or b

unfoldable pub is_plain : Expr → Bool
is_plain (tags args) = true
is_plain (name args) = true
is_plain (or a b) = is_plain a && is_plain b
is_plain (and a b) = is_plain a && (is_plain b && not (has_or b))

both_inv :
    (f : FilterData → FilterData → FilterData) (r s : FilterResult) (d : FilterData)
    → both f r s ≡ filter_of d
    → (a : FilterData) × (b : FilterData) × (r ≡ filter_of a) × (s ≡ filter_of b) × (f a b ≡ d)
both_inv f (filter_error e) s d h = absurd (cc)
both_inv f (filter_of a) (filter_error e) d h = absurd (cc)
both_inv f (filter_of a) (filter_of b) d h = (a, b, refl, refl, cc)

filter_of_inj : {a d : FilterData} → filter_of a ≡ filter_of d → a ≡ d
filter_of_inj h = cc

-- A filter without `||` is one conjunction.
one_conjunction :
    (e : Expr) (d : FilterData)
    → has_or e ≡ false
    → evaluate e ≡ filter_of d
    → (c : List Feature) × (d ≡ c ∷ [])
unfolding has_or evaluate tags_filter name_filter and_filter append_features
one_conjunction (tags []) d p h = absurd (cc)
one_conjunction (tags (a ∷ args)) d p h = (map tag_feature (a ∷ args), sym (filter_of_inj h))
one_conjunction (name []) d p h = absurd (cc)
one_conjunction (name ([] ∷ [])) d p h = absurd (cc)
one_conjunction (name ((c ∷ s) ∷ [])) d p h =
    (record { name = codes "name"; value = c ∷ s } ∷ [], sym (filter_of_inj h))
one_conjunction (name (a ∷ b ∷ args)) d p h = absurd (cc)
one_conjunction (or a b) d p h = absurd (cc)
one_conjunction (and a b) d p h =
    let (da, db, ea, eb, e) = both_inv and_filter (evaluate a) (evaluate b) d h in
    let (ca, fa) = one_conjunction a da (ground arith) ea in
    let (cb, fb) = one_conjunction b db (ground arith) eb in (ca ++ cb, sym e ∙ rw fa (rw fb refl))

matches_one_found :
    (indices : Str → Bool) (c : List Feature) → matches indices (c ∷ []) ≡ found_all indices c
unfolding matches
matches_one_found indices c = ground arith

matches-one :
    (indices : Str → Bool) (d : FilterData) (c : List Feature)
    → d ≡ c ∷ []
    → all_of (found_all indices) d ≡ matches indices d
unfolding matches
matches-one indices d c e = rw e (ground arith)

-- A filter in which no operand on the right of `&&` has an `||` matches a link exactly if it holds of
-- the link's indices. The filter has no error.
pub matches-evaluate :
    (indices : Str → Bool) (e : Expr) (d : FilterData)
    → is_plain e ≡ true
    → evaluate e ≡ filter_of d
    → matches indices d ≡ holds indices e
unfolding is_plain evaluate holds tags_filter name_filter found_all
matches-evaluate indices (tags []) d p h = absurd (cc)
matches-evaluate indices (tags (a ∷ args)) d p h =
    rw (sym (filter_of_inj h)) (matches_one_found indices _ ∙ found_tags indices (a ∷ args))
matches-evaluate indices (name []) d p h = absurd (cc)
matches-evaluate indices (name ([] ∷ [])) d p h = absurd (cc)
matches-evaluate indices (name ((c ∷ s) ∷ [])) d p h =
    rw (sym (filter_of_inj h)) (matches_one_found indices _ ∙ ground arith)
matches-evaluate indices (name (a ∷ b ∷ args)) d p h = absurd (cc)
matches-evaluate indices (or a b) d p h =
    let (da, db, ea, eb, e) = both_inv or_filter (evaluate a) (evaluate b) d h in
    let ha = matches-evaluate indices a da (ground arith) ea in
    let hb = matches-evaluate indices b db (ground arith) eb in
    rw (sym e) (ground (arith, matches-or_filter indices da db, ha, hb))
matches-evaluate indices (and a b) d p h =
    let (da, db, ea, eb, e) = both_inv and_filter (evaluate a) (evaluate b) d h in
    let ha = matches-evaluate indices a da (ground arith) ea in
    let hb = matches-evaluate indices b db (ground arith) eb in
    let (c, one) = one_conjunction b db (ground arith) eb in
    rw (sym e)
      (ground (arith, matches-and_filter indices da db, matches-one indices db c one, ha, hb))

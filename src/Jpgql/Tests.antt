-- ===== src/Jpgql/Tests.antt =====
-- Runs of embedded/graph/jpgql/tools.go on a small graph.
use foliage_sdk.Common.{
  Bool, true, false, ℕ, Option, none, some, List, [], ◌∷◌, ◌≡◌, refl, ◌&&◌, any_of, if◌then◌else◌,
}
use foliage_sdk.Common.Dict
use foliage_sdk.Common.Dict.{Dict, load}
use foliage_sdk.Common.Text
use foliage_sdk.Common.Text.{Str, codes, str_eq}
use foliage_sdk.Cache.Key.Laws.{last_token}
use foliage_sdk.Graph.Keys.{out_body, out_index, last_two}
use foliage_sdk.Jpgql.Filter.{
  FilterData, Expr, tags, or, and, evaluate, filter_of, matches, found_all, and_filter, or_filter,
  append_features, tags_filter, name_filter, Feature,
}
use foliage_sdk.Jpgql.Filter.Laws.{holds, is_plain, has_or, matches-evaluate}
use foliage_sdk.Jpgql.Links.{
  get_object_ids_from_link_type, get_object_ids_from_filter_data, get_all_links, links_query,
  add_targets, pairs_of, indices_of, get_specific_link_indices, add_match, add_matches, is_some,
}
use foliage_sdk.Jpgql.Links.Laws.{link_matches, get_object_ids_from_filter_data_lem}
use foliage_sdk.Jpgql.Query.{get_query_head_and_tails_parts, head_of, parts}

abbrev tag : Str → Feature
tag value = record { name = codes "tag"; value = value }

-- (tags("a") || tags("b")) && tags("c")
abbrev plain : Expr
plain = and (or (tags (codes "a" ∷ [])) (tags (codes "b" ∷ []))) (tags (codes "c" ∷ []))

abbrev plain_dnf : FilterData
plain_dnf = (tag (codes "a") ∷ tag (codes "c") ∷ []) ∷ (tag (codes "b") ∷ tag (codes "c") ∷ []) ∷ []

abbrev one_tag : Str → Bool
one_tag i = str_eq i (codes "tag.c")

-- One link of type "t" from "v" to "w", with the tag "c".
abbrev keys : Str → List Str
keys pattern =
    if str_eq pattern (codes "v.out.body.t.>")
    then codes "v.out.body.t.w" ∷ []
    else if str_eq pattern (codes "v.out.index.t.w.>")
    then codes "v.out.index.t.w.tag.c" ∷ []
    else []

program : Unit {0}
unfolding Text.str_eq Text.split Text.remove_first Text.has_prefix Dict.load Dict.assign last_token
    out_body out_index last_two evaluate matches found_all and_filter or_filter append_features
    tags_filter name_filter holds is_plain has_or get_object_ids_from_link_type
    get_object_ids_from_filter_data get_all_links links_query add_targets pairs_of indices_of
    get_specific_link_indices add_match add_matches get_query_head_and_tails_parts head_of
program = tt

plain_evaluates : evaluate plain ≡ filter_of plain_dnf
unfolding program
plain_evaluates = refl

plain-is_plain : is_plain plain ≡ true
unfolding program
plain-is_plain = refl

matches-evaluate_example : matches one_tag plain_dnf ≡ holds one_tag plain
matches-evaluate_example = matches-evaluate one_tag plain plain_dnf plain-is_plain plain_evaluates

-- A link with the tag "c" alone does not match tags("c") && (tags("c") || tags("a")).
and_or :
    matches one_tag (
      and_filter
        ((tag (codes "c") ∷ []) ∷ [])
        ((tag (codes "c") ∷ []) ∷ (tag (codes "a") ∷ []) ∷ []))
    ≡ false
unfolding program
and_or = refl

links_of_v : get_all_links keys (codes "v") (codes "t") ≡ some ((codes "t", codes "w") ∷ [])
unfolding program
links_of_v = refl

finds_w :
    get_object_ids_from_filter_data keys (codes "v") (codes "t") ((tag (codes "c") ∷ []) ∷ [])
    ≡ some ((codes "w", 0) ∷ [])
unfolding program
finds_w = refl

abbrev only_w : Dict ℕ
only_w = (codes "w", 0) ∷ []

get_object_ids_from_filter_data_example :
    is_some (load (codes "w") only_w)
    ≡ any_of
        (λ (p : Str × Str).
          str_eq p.1 (codes "w") && link_matches keys (codes "v") ((tag (codes "c") ∷ []) ∷ []) p)
        ((codes "t", codes "w") ∷ [])
get_object_ids_from_filter_data_example =
    get_object_ids_from_filter_data_lem keys (codes "v") (codes "t") (codes "w")
      (tag (codes "c") ∷ []) [] ((codes "t", codes "w") ∷ []) ((codes "w", 0) ∷ []) links_of_v
      finds_w

abbrev no_match : Str → Option (Str × Str)
no_match query = none

cuts_any_depth :
    get_query_head_and_tails_parts no_match (codes "..t.u")
    ≡ parts (record {
      head_link_type = codes "*";
      head_filter = [];
      tail = codes "..t.u";
      any_depth_stop =
          some (record { link_type = codes "t"; filter_query = []; query_tail = codes ".u" });
    })
unfolding program
cuts_any_depth = refl

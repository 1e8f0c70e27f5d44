-- ===== src/Jpgql/Query.antt =====
-- `GetQueryHeadAndTailsParts` of embedded/graph/jpgql/tools.go. The first match of the expression
-- `jsonPathPartsExtractRegexp` (package regexp) is a parameter: its groups 1 and 2.
use foliage_sdk.Common.{Option, none, some, List, [], ◌∷◌, ◌==◌, if◌then◌else◌}
use foliage_sdk.Common.Text.{Str, codes, split, dot, remove_first}
use foliage_sdk.Jpgql.Links.{AnyDepthStop}

pub record QueryParts : Type 0 where
  pub head_link_type : Str
  pub head_filter : Str
  pub tail : Str
  pub any_depth_stop : Option AnyDepthStop

-- `panic` is an index out of range.
pub data Cut : Type 0 where
  parts : QueryParts → Cut
  no_dot : Cut
  panic : Cut

abbrev no_parts : QueryParts
no_parts = record { head_link_type = []; head_filter = []; tail = []; any_depth_stop = none }

abbrev first_token : List Str → Str
first_token [] = []
first_token (t ∷ ts) = t

abbrev cut_groups : Str → Option (Str × Str) → Str × Str
cut_groups query none = (query, [])
cut_groups query (some (whole, filter)) = (remove_first whole query, filter)

module _ (find_submatch : Str → Option (Str × Str)) where
  -- The type, the filter and the tail of a query that starts from one dot.
  unfoldable pub head_of : Str → Option QueryParts
  head_of query =
      let (without_filters, filter) = cut_groups query (find_submatch query) in
      elim without_filters [
        | [] ↦ none
        | c ∷ rest ↦
            let link_type = first_token (split dot rest) in
            some (record {
              head_link_type = link_type;
              head_filter = filter;
              tail = remove_first (dot ∷ link_type) (c ∷ rest);
              any_depth_stop = none;
            })
      ]

  abbrev any_depth : Str → Option QueryParts → Cut
  any_depth query none = panic
  any_depth query (some p) = parts (record {
    head_link_type = codes "*";
    head_filter = [];
    tail = dot ∷ query;
    any_depth_stop = some (record {
      link_type = p.head_link_type;
      filter_query = p.head_filter;
      query_tail = p.tail;
    });
  })

  abbrev one_level : Option QueryParts → Cut
  one_level none = panic
  one_level (some p) = parts p

  unfoldable pub get_query_head_and_tails_parts : Str → Cut
  get_query_head_and_tails_parts [] = panic
  get_query_head_and_tails_parts (c ∷ []) = if c == dot then parts no_parts else no_dot
  get_query_head_and_tails_parts (c ∷ d ∷ rest) =
      if c == dot
      then (if d == dot
          then any_depth (d ∷ rest) (head_of (d ∷ rest))
          else one_level (head_of (c ∷ d ∷ rest)))
      else no_dot

-- ===== src/Jpgql/Filter.antt =====
-- Link filters of embedded/graph/jpgql/tools.go: what `filterParseLanguage` makes of its operators and
-- functions, and the test of a disjunctive normal form against the indices of a link.
pub mod Laws
use foliage_sdk.Common.{
  Bool, true, false, List, [], ◌∷◌, ◌++◌, map, any_of, all_of, Option, none, some, ◌==◌,
  if◌then◌else◌,
}
use foliage_sdk.Common.Text.{Str, codes, dot}

-- `filterFeature`
pub record Feature : Type 0 where
  pub name : Str
  pub value : Str

-- The field `disjunctiveNormalFormOfFeatures` of `FilterData`.
abbrev pub FilterData : Type 0
FilterData = List (List Feature)

-- The operator `||`.
unfoldable pub or_filter : FilterData → FilterData → FilterData
or_filter a b = a ++ b

-- The inner loop of the operator `&&`: a conjunction of the right side is appended to every
-- conjunction of the left side.
unfoldable pub append_features : List Feature → FilterData → FilterData
append_features tags_b [] = []
append_features tags_b (tags_a ∷ a) = (tags_a ++ tags_b) ∷ append_features tags_b a

-- The operator `&&`.
unfoldable pub and_filter : FilterData → FilterData → FilterData
and_filter a [] = a
and_filter a (tags_b ∷ b) = and_filter (append_features tags_b a) b

pub data FilterError : Type 0 where
  no_tag : FilterError
  multiple_names : FilterError
  no_name : FilterError
  empty_name : FilterError
  not_parsed : FilterError

pub data FilterResult : Type 0 where
  filter_of : FilterData → FilterResult
  filter_error : FilterError → FilterResult

abbrev tag_feature : Str → Feature
tag_feature arg = record { name = codes "tag"; value = arg }

-- The function `tags`.
unfoldable pub tags_filter : List Str → FilterResult
tags_filter [] = filter_error no_tag
tags_filter (arg ∷ args) = filter_of (map tag_feature (arg ∷ args) ∷ [])

-- The function `name`.
unfoldable pub name_filter : List Str → FilterResult
name_filter [] = filter_error no_name
name_filter ([] ∷ []) = filter_error empty_name
name_filter ((c ∷ s) ∷ []) = filter_of ((record { name = codes "name"; value = c ∷ s } ∷ []) ∷ [])
name_filter (a ∷ b ∷ args) = filter_error multiple_names

-- A filter as gval (package PaesslerAG/gval, not in the repository) reads it.
pub data Expr : Type 0 where
  tags : List Str → Expr
  name : List Str → Expr
  or : Expr → Expr → Expr
  and : Expr → Expr → Expr

abbrev both : (FilterData → FilterData → FilterData) → FilterResult → FilterResult → FilterResult
both f (filter_error e) b = filter_error e
both f (filter_of a) (filter_error e) = filter_error e
both f (filter_of a) (filter_of b) = filter_of (f a b)

-- What gval computes by the operators and functions of the language.
unfoldable pub evaluate : Expr → FilterResult
evaluate (tags args) = tags_filter args
evaluate (name args) = name_filter args
evaluate (or a b) = both or_filter (evaluate a) (evaluate b)
evaluate (and a b) = both and_filter (evaluate a) (evaluate b)

abbrev evaluate_parsed : Option Expr → FilterResult
evaluate_parsed none = filter_error not_parsed
evaluate_parsed (some e) = evaluate e

-- `ParseFilter`, over the syntax of gval; `none` is a text that it refuses, or that is no filter.
module _ (parse : Str → Option Expr) where
  abbrev double_quotes : Str → Str
  double_quotes [] = []
  double_quotes (c ∷ s) = (if c == b'\'' then b'"' else c) ∷ double_quotes s

  unfoldable pub parse_filter : Str → FilterResult
  parse_filter query = evaluate_parsed (parse (double_quotes query))

-- The key of a feature among the indices of a link.
abbrev pub index_of : Feature → Str
index_of f = f.name ++ (dot ∷ f.value)

-- The loops over the disjunctions and their features; `indices` tells what is in `linkIndicesMap`.
unfoldable pub found_all : (Str → Bool) → List Feature → Bool
found_all indices features = all_of (λ f. indices (index_of f)) features

unfoldable pub matches : (Str → Bool) → FilterData → Bool
matches indices dnf = any_of (found_all indices) dnf

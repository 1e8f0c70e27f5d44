-- ===== src/Graph/Docs.antt =====
-- A small model of the documents of easyjson, for runs of the handlers of embedded/graph.
use foliage_sdk.Common.{Bool, true, false, Option, none, some, List, ◌∷◌, if◌then◌else◌}
use foliage_sdk.Common.Text.{Str, str_eq}
use foliage_sdk.Graph.Context.{JsonLib}

-- A document: a text, texts, or fields, the last one put first.
pub data Doc : Type 0 where
  absent : Doc
  text : Str → Doc
  texts : List Str → Doc
  with_field : Doc → Str → Doc → Doc

unfoldable pub field : Doc → Str → Doc
field (with_field j path v) q = if str_eq path q then v else field j q
field _ q = absent

abbrev as_text : Doc → Option Str
as_text (text s) = some s
as_text _ = none

abbrev as_texts : Doc → Option (List Str)
as_texts (texts ss) = some ss
as_texts _ = none

abbrev is_some_texts : Doc → Bool
is_some_texts (texts (s ∷ ss)) = true
is_some_texts _ = false

abbrev is_there : Doc → Bool
is_there absent = false
is_there _ = true

abbrev pub docs : JsonLib Doc
docs = record {
  new_object = absent;
  of_string = text;
  of_strings = texts;
  of_number = λ n. absent;
  of_bool = λ b. absent;
  get_by_path = field;
  set_by_path = with_field;
  path_exists = λ j path. is_there (field j path);
  as_string = as_text;
  as_strings = as_texts;
  as_bool = λ j. none;
  as_number = λ j. none;
  is_object = λ j. true;
  deep_merge = λ j k. k;
  is_non_empty_array = is_some_texts;
}

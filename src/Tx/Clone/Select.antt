-- ===== src/Tx/Clone/Select.antt =====
-- cloneGraphWithTypes of embedded/graph/tx/statefun.go: which objects and links it copies.
use foliage_sdk.Common.{
  Bool, true, false, not, ◌&&◌, ◌||◌, Option, none, some, List, [], ◌∷◌, ◌++◌, if◌then◌else◌,
}
use foliage_sdk.Common.Dict.{Dict, load, assign}
use foliage_sdk.Common.Text.{Str, codes, str_eq, split, dot}
use foliage_sdk.Cache.Key.Laws.{last_token}
use foliage_sdk.Graph.Keys.{out_body, last_two_of}
use foliage_sdk.Jpgql.Links.{is_some}
use foliage_sdk.Graph.Context.{Context}
use foliage_sdk.Tx.Helper.{link_body_key, string_at}
use foliage_sdk.Tx.Traverse.{Link, has_object, add_object}

-- `beginTxType`
pub record BeginTxType : Type 0 where
  pub mode : Str
  pub objects : List Str

-- `objects`, `links` and `uniqTypeObjects`.
pub record Selection : Type 0 where
  pub objects : List Str
  pub links : Dict Link
  pub unique_type_objects : Dict (List Str)

abbrev pub put_link : Str → Str → Str → Dict Link → Dict Link
put_link from to lt links =
    assign (from ++ (to ++ lt))
      (record { from = from; to = to; lt = lt; object_lt = []; cache_id = [] }) links

abbrev or_nothing : Option (List Str) → List Str
or_nothing none = []
or_nothing (some ids) = ids

-- The policies "none" and "only" of a type leave objects out.
abbrev pub takes : BeginTxType → Str → Bool
takes policy id =
    not (str_eq policy.mode (codes "none"))
    && (not (str_eq policy.mode (codes "only")) || has_object id policy.objects)

abbrev pub select_object : Str → Str → Selection → Selection
select_object v id sel = record {
  objects = add_object id sel.objects;
  links =
      put_link (codes "objects") id (codes "__object")
        (put_link id v (codes "__type") (put_link v id (codes "__object") sel.links));
  unique_type_objects =
      assign v (add_object id (or_nothing (load v sel.unique_type_objects)))
        sel.unique_type_objects;
}

-- One link that goes out of a type.
unfoldable pub select_link :
    Dict BeginTxType → Str → BeginTxType → Str → Str → Selection → Selection
select_link types v policy lt id sel =
    if str_eq lt (codes "__object")
    then if takes policy id then select_object v id sel else sel
    else if str_eq lt (codes "__type")
    then if is_some (load id types)
      then record sel {
        objects = add_object id sel.objects;
        links = put_link v id (codes "__type") sel.links;
      }
      else sel
    else sel

unfoldable pub select_links :
    Dict BeginTxType → Str → BeginTxType → List Str → Selection → Option Selection
select_links types v policy [] sel = some sel
select_links types v policy (key ∷ keys) sel = elim (last_two_of key) [
  | none ↦ none
  | some (lt, id) ↦ select_links types v policy keys (select_link types v policy lt id sel)
]

-- What a type adds before its links.
abbrev pub select_type : Str → Selection → Selection
select_type v sel = record {
  objects = add_object v sel.objects;
  links = put_link (codes "types") v (codes "__type") sel.links;
  unique_type_objects = assign v [] sel.unique_type_objects;
}

module _ {J W : Type 0} (ctx : Context J W) (w : W) where
  -- The loop over the types; `none` is an index out of range.
  unfoldable pub select_types : Dict BeginTxType → Dict BeginTxType → Selection → Option Selection
  select_types types [] sel = some sel
  select_types types ((v, policy) ∷ rest) sel = elim (ctx.has_value w v) [
    | false ↦ select_types types rest sel
    | true ↦
        elim (select_links types v policy (ctx.get_keys w (out_body v (codes ">")))
          (select_type v sel)) [ none ↦ none | some sel' ↦ select_types types rest sel' ]
  ]

  unfoldable pub link_targets : List Str → Str → Str → List Str → Dict Link → Dict Link
  link_targets objects_to link_type object_from [] links = links
  link_targets objects_to link_type object_from (key ∷ keys) links =
      let object_to = last_token (split dot key) in
      link_targets objects_to link_type object_from keys (
        if has_object object_to objects_to
        then put_link object_from object_to link_type links
        else links)

  unfoldable pub link_sources : List Str → Str → List Str → Dict Link → Dict Link
  link_sources objects_to link_type [] links = links
  link_sources objects_to link_type (object_from ∷ rest) links =
      link_sources objects_to link_type rest (
        link_targets objects_to link_type object_from
          (ctx.get_keys w (link_body_key object_from link_type (codes ">"))) links)

  -- The type of the links between the objects of two types.
  abbrev types_link_type : Option J → Option Str
  types_link_type none = none
  types_link_type (some body) = string_at ctx body (codes "link_type")

  abbrev link_objects : List Str → List Str → Option Str → Dict Link → Dict Link
  link_objects from to none links = links
  link_objects [] to (some link_type) links = links
  link_objects (f ∷ from) [] (some link_type) links = links
  link_objects (f ∷ from) (t ∷ to) (some link_type) links =
      link_sources (t ∷ to) link_type (f ∷ from) links

  -- The loop over the links between types, that adds those between their objects.
  unfoldable pub select_object_links : Dict (List Str) → List Link → Dict Link → Dict Link
  select_object_links unique [] links = links
  select_object_links unique (l ∷ rest) links =
      let linked =
        link_objects (or_nothing (load l.from unique)) (or_nothing (load l.to unique))
          (types_link_type (ctx.get_value_as_json w (link_body_key l.from (codes "__type") l.to)))
          links in
      select_object_links unique rest (if str_eq l.lt (codes "__type") then linked else links)

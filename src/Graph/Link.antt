-- ===== src/Graph/Link.antt =====
-- LLAPILinkCreate, LLAPILinkUpdate and LLAPILinkDelete of embedded/graph/crud/ll_crud.go: what they store and delete
-- for a link.
pub mod Handlers
pub mod Laws
pub mod Replies
pub mod Parts
pub mod Answers
use foliage_sdk.Common.{
  ℕ, Bool, true, false, not, ◌||◌, ◌&&◌, Option, none, some, List, [], ◌∷◌, ◌++◌, if◌then◌else◌,
}
use foliage_sdk.Common.Int.{ℤ, pos, ◌+ℤ◌}
use foliage_sdk.Common.Text.{Str, codes, str_eq}
use foliage_sdk.Graph.Keys.{◌/◌, out_body, out_index, out_name, name_gen, in_link}
use foliage_sdk.Graph.Context.{
  Context, Stored, document, int64, nothing, Action, pure, raise, reads, ◌>>=◌, ◌>>◌, or_raise,
  when, for_each, send, set, delete, invalid_argument,
}

abbrev pub body_key : Str → Str → Str → Str
body_key self lt to = out_body self (lt / to)

abbrev pub index_key : Str → Str → Str → Str → Str → Str
index_key self lt to index value = out_index self (lt / (to / (index / value)))

abbrev pub in_key : Str → Str → Str → Str
in_key to from lt = in_link to (from / lt)

abbrev pub is_empty : Str → Bool
is_empty [] = true
is_empty (c ∷ s) = false

abbrev pub or_none : Option (List Str) → List Str
or_none none = []
or_none (some tags) = tags

abbrev pub or_text : Str → Option Str → Str
or_text d none = d
or_text d (some s) = s

-- A name that is defined and not empty.
abbrev pub defined_name : Option Str → Option Str
defined_name none = none
defined_name (some []) = none
defined_name (some (c ∷ s)) = some (c ∷ s)

-- fmt.Sprintf("name%d", n), `unique_str_id` of the source's system package, and strings.Split(id, "===")[0]
-- are parameters.
module _ {J W : Type 0} (ctx : Context J W) (print_name : ℤ → Str) (unique_str_id : W → Str)
    (before_separator : Str → Str) where
  abbrev pub text_at : J → Str → Option Str
  text_at j path = ctx.json.as_string (ctx.json.get_by_path j path)

  abbrev pub put_text : Str → Str → J → J
  put_text path s j = ctx.json.set_by_path j path (ctx.json.of_string s)

  -- The tags of a link's body.
  abbrev pub tags_of : J → List Str
  tags_of body =
      let tags = ctx.json.get_by_path body (codes "tags") in
      if ctx.json.is_non_empty_array tags then or_none (ctx.json.as_strings tags) else []

  abbrev pub or_unique : Option Str → Action J W Str
  or_unique none = reads unique_str_id
  or_unique (some s) = pure s

  abbrev pub or_zero : Option ℤ → ℤ
  or_zero none = pos 0
  or_zero (some n) = n

  -- A new name of a link, from the counter of its start.
  unfoldable pub generate_name : Str → Action J W Str
  generate_name self = do
    n ← reads (λ w. ctx.get_int64 w (name_gen self))
    set ctx (name_gen self) (int64 (or_zero n +ℤ pos 1))
    pure (print_name (or_zero n))

  -- The name of a new link, and its body with the name.
  abbrev pub named : J → Str → J × Str
  named body name = (put_text (codes "name") name body, name)

  unfoldable pub name_link : Str → J → Option Str → Action J W (J × Str)
  name_link self body none = generate_name self >>= (λ name. pure (named body name))
  name_link self body (some name) = do
    taken ← reads (λ w. ctx.has_value w (out_name self name))
    if taken
        then generate_name self >>= (λ new_name. pure (named body new_name))
        else pure (body, name)

  -- What is stored for a link: its name, the index of the name, the body, and the index of each tag.
  unfoldable pub store_link : Str → Str → Str → J × Str → Action J W (Unit {0})
  store_link self lt to (body, name) = do
    set ctx (out_name self name) nothing
    set ctx (index_key self lt to (codes "name") name) nothing
    set ctx (body_key self lt to) (document body)
    for_each (tags_of body) (λ tag. set ctx (index_key self lt to (codes "tag") tag) nothing)

  abbrev pub delete_name : Str → Str → Str → Option Str → Action J W (Unit {0})
  delete_name self lt to none = pure tt
  delete_name self lt to (some name) = do
    delete ctx (out_name self name)
    delete ctx (index_key self lt to (codes "name") name)

  -- What is deleted for a link beside its body.
  unfoldable pub delete_indices : Str → Str → Str → Option J → Action J W (Unit {0})
  delete_indices self lt to none = pure tt
  delete_indices self lt to (some body) = do
    delete_name self lt to (text_at body (codes "name"))
    for_each (tags_of body) (λ tag. delete ctx (index_key self lt to (codes "tag") tag))

  -- The request to the end of a link, for the key of the link there; its answer is not looked at.
  unfoldable pub tell_end : Str → Str → Str → Str → Str → Str → Action J W (Unit {0})
  tell_end typename suffix query_id self lt to =
      send ctx typename (if str_eq to self then to ++ suffix else to) (
        put_text (codes "in_link_type") lt
          (put_text (codes "query_id") query_id ctx.json.new_object))
      >>= (λ r. pure tt)

  -- What is done with a link that is there, and the body that it had.
  unfoldable pub delete_there : Str → Str → Str → Str → Str → Action J W (Option J)
  delete_there typename query_id self lt to = do
    link_body ← reads (λ w. ctx.get_value_as_json w (body_key self lt to))
    delete ctx (body_key self lt to)
    delete_indices self lt to link_body
    tell_end typename (codes "===delete_in_link") query_id self lt to
    pure link_body

  abbrev pub new_body : J → J → J → J
  new_body payload old link_body =
      if str_eq (or_text (codes "merge") (text_at payload (codes "mode"))) (codes "replace")
      then link_body
      else ctx.json.deep_merge old link_body

  -- The new body of a link that is there, with the name that it gets.
  unfoldable pub update_there : Str → Str → Str → J → J → Action J W J
  update_there self lt to old body = do
    delete_indices self lt to (some old)
    body_and_name ← name_link self body (defined_name (text_at body (codes "name")))
    store_link self lt to body_and_name
    pure body_and_name.0

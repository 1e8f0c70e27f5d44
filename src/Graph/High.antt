-- ===== src/Graph/High.antt =====
-- embedded/graph/crud/hl_crud.go: what its handlers share, the calls, the requests and the replies.
pub mod Links
pub mod Triggers
pub mod Objects
pub mod Types
pub mod Relations
pub mod Sending
mod Tests
use foliage_sdk.Common.{Bool, Option, none, some, List, [], ◌∷◌, ◌++◌, if◌then◌else◌}
use foliage_sdk.Common.Text.{Str, codes, str_eq}
use foliage_sdk.Graph.Context.{
  Context, Result, ok, err, Failure, undefined_to, nothing_to_update, no_link_type, reply_failed,
  link_not_found, no_request, Action, pure, raise, send, send_by, ◌>>=◌, or_raise,
}

-- The calls of easyjson and of the runtime that only these handlers make: a request with options, the
-- elements of an array, IsNonEmptyObject, and the texts of the errors of other modules.
pub record Calls (J W : Type 0) : Type 0 where
  pub request_with : J → W → Str → Str → J → Option J × W
  pub elements : J → Option (List J)
  pub is_non_empty_object : J → Bool
  pub error_of : Failure → Str
  pub cache_error : Str

-- A handler ends with a reply, or with no reply at all.
pub data Done : Type 0 where
  replied : Done
  unanswered : Done

abbrev pub text_or : Str → Option Str → Str
text_or d none = d
text_or d (some s) = s

module _ {J W : Type 0} (ctx : Context J W) where
  abbrev pub text_at : J → Str → Option Str
  text_at j path = ctx.json.as_string (ctx.json.get_by_path j path)

  abbrev pub put : Str → J → J → J
  put path v j = ctx.json.set_by_path j path v

  abbrev pub put_text : Str → Str → J → J
  put_text path s j = put path (ctx.json.of_string s) j

  -- The payload of a request for a link of a type.
  abbrev pub link_to : Str → Str → J
  link_to to lt =
      put_text (codes "link_type") lt (put_text (codes "descendant_uuid") to ctx.json.new_object)

  abbrev pub put_type_tag : Str → J → J
  put_type_tag to j =
      put (codes "link_body.tags") (ctx.json.of_strings ((codes "TYPE_" ++ to) ∷ [])) j

  -- checkRequestError
  unfoldable pub check_request_error : Option J → Action J W J
  check_request_error none = raise no_request
  check_request_error (some result) =
      if str_eq (text_or (codes "failed") (text_at result (codes "status"))) (codes "failed")
      then raise (reply_failed (text_or (codes "unknown error") (text_at result (codes "result"))))
      else pure result

  -- A request whose reply is checked.
  unfoldable pub request_checked : Str → Str → J → Action J W J
  request_checked op id payload = send ctx op id payload >>= check_request_error

  -- A request of which only the sending is checked.
  unfoldable pub request_sent : Str → Str → J → Action J W J
  request_sent op id payload = send ctx op id payload >>= or_raise no_request

module _ {J W : Type 0} (ctx : Context J W) (calls : Calls J W) where
  -- A checked request with the option to return the stack of operations.
  unfoldable pub request_stack : Str → Str → J → Action J W J
  request_stack op id payload =
      send_by
        (calls.request_with
          (put ctx (codes "return_op_stack") (ctx.json.of_bool Bool.true) ctx.json.new_object))
        op id payload
      >>= check_request_error ctx

  -- err.Error()
  unfoldable pub error_text : Failure → Str
  error_text undefined_to = codes "to undefined"
  error_text nothing_to_update = codes "nothing to update"
  error_text no_link_type = codes "type of a link was not defined in link type"
  error_text (link_not_found from to) =
      codes "link " ++ (from ++ (codes ", " ++ (to ++ (codes " not found: " ++ calls.cache_error))))
  error_text (reply_failed message) = message
  error_text e = calls.error_of e

  -- The document of `reply`, which ReplyQueryID passes on.
  unfoldable pub reply : Str → J → J
  reply status content =
      put ctx (codes "payload")
        (put ctx (codes "result") content
          (put_text ctx (codes "status") status ctx.json.new_object))
        ctx.json.new_object

  -- replyOk, replyError, or no reply.
  unfoldable pub reply_of : Result Done → Option J
  reply_of (ok replied) = some (reply (codes "ok") (ctx.json.of_strings []))
  reply_of (ok unanswered) = none
  reply_of (err e) = some (reply (codes "failed") (ctx.json.of_string (error_text e)))

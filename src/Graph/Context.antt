-- ===== src/Graph/Context.antt =====
-- What the handlers of embedded/graph run in: the calls of easyjson, of the cache and of the runtime as
-- records of operations, and an action that reads and changes the world, sends requests, writes to the
-- cache, and can fail.
use foliage_sdk.Common.{ℕ, Bool, true, false, Option, none, some, List, [], ◌∷◌}
use foliage_sdk.Common.Int.{ℤ}
use foliage_sdk.Common.Text.{Str}

-- The calls of easyjson, a library, on its documents.
pub record JsonLib (J : Type 0) : Type 0 where
  pub new_object : J
  pub of_string : Str → J
  pub of_strings : List Str → J
  pub of_number : ℕ → J
  pub of_bool : Bool → J
  pub get_by_path : J → Str → J
  pub set_by_path : J → Str → J → J
  pub path_exists : J → Str → Bool
  pub as_string : J → Option Str
  pub as_strings : J → Option (List Str)
  pub as_bool : J → Option Bool
  pub as_number : J → Option ℕ
  pub is_object : J → Bool
  pub deep_merge : J → J → J
  pub is_non_empty_array : J → Bool

-- The bytes that are stored: a document, an int64 by Int64ToBytes, or none.
pub data Stored (J : Type 0) : Type 0 where
  document : J → Stored J
  int64 : ℤ → Stored J
  nothing : Stored J

-- StatefunContextProcessor and the clock: the world that another module's code reads and changes.
-- `none` is an error of the call.
pub record Context (J W : Type 0) : Type 0 where
  pub json : JsonLib J
  pub get_value_as_json : W → Str → Option J
  pub has_value : W → Str → Bool
  pub get_keys : W → Str → List Str
  pub get_int64 : W → Str → Option ℤ
  pub set_value : W → Str → Stored J → W
  pub delete_value : W → Str → W
  pub request : W → Str → Str → J → Option J × W
  pub object_mutex_lock : W → Bool × W
  pub object_mutex_unlock : W → W
  pub get_object_context : W → J
  pub set_object_context : W → J → W
  pub now : W → ℕ

pub record Request (J : Type 0) : Type 0 where
  pub op : Str
  pub id : Str
  pub payload : J

-- A call of SetValue or DeleteValue.
pub data Write (J : Type 0) : Type 0 where
  set_to : Str → Stored J → Write J
  deleted : Str → Write J

-- The world, the requests sent, the messages signalled and the writes to the cache, the last one first.
pub record State (J W : Type 0) : Type 0 where
  pub world : W
  pub sent : List (Request J)
  pub signalled : List (Request J)
  pub written : List (Write J)

pub data Failure : Type 0 where
  invalid_argument no_value no_request no_lock : Failure
  undefined_to nothing_to_update no_link_type : Failure
  link_not_found : Str → Str → Failure
  reply_failed missing_links uninited_object : Str → Failure
  -- A traversal panicked, or its fuel was used up.
  no_traversal : Failure

pub data Result (A : Type 0) : Type 0 where
  ok : A → Result A
  err : Failure → Result A

abbrev pub Action : Type 0 → Type 0 → Type 0 → Type 0
Action J W A = State J W → Result A × State J W

module _ {J W : Type 0} where
  unfoldable pub pure : {A : Type 0} → A → Action J W A
  pure a s = (ok a, s)

  unfoldable pub raise : {A : Type 0} → Failure → Action J W A
  raise e s = (err e, s)

  unfoldable pub changes : (W → W) → Action J W (Unit {0})
  changes f s = (ok tt, record s { world = f s.world })

  unfoldable pub reads : {A : Type 0} → (W → A) → Action J W A
  reads f s = (ok (f s.world), s)

  abbrev pub carry : {A B : Type 0} → (A → Action J W B) → Result A → Action J W B
  carry f (ok a) = f a
  carry f (err e) = λ s. (err e, s)

  -- The failure of the first action ends the whole.
  infixl 5 ◌>>=◌ ◌>>◌
  unfoldable pub ◌>>=◌ : {A B : Type 0} → Action J W A → (A → Action J W B) → Action J W B
  (m >>= f) s = carry f (m s).0 (m s).1

  abbrev pub ◌>>◌ : {B : Type 0} → Action J W (Unit {0}) → Action J W B → Action J W B
  m >> k = m >>= λ _. k

  abbrev pub or_raise : {A : Type 0} → Failure → Option A → Action J W A
  or_raise e none = raise e
  or_raise e (some a) = pure a

  abbrev pub when : Bool → Action J W (Unit {0}) → Action J W (Unit {0})
  when true m = m
  when false m = pure tt

  -- A loop over a slice or a map that ends with the first error.
  unfoldable pub for_each :
      {A : Type 0} → List A → (A → Action J W (Unit {0})) → Action J W (Unit {0})
  for_each [] f = pure tt
  for_each (a ∷ rest) f = f a >> for_each rest f

  -- The error of an action is dropped, as by `continue` at the end of a loop's body.
  unfoldable pub ignore : Action J W (Unit {0}) → Action J W (Unit {0})
  ignore m s = (ok tt, (m s).1)

  -- ctx.Request
  unfoldable pub send : Context J W → Str → Str → J → Action J W (Option J)
  send ctx op id payload s =
      let (r, w) = ctx.request s.world op id payload in
      (ok r, record s { world = w; sent = record { op = op; id = id; payload = payload } ∷ s.sent })

  -- ctx.Request with options, by the call that is given.
  unfoldable pub send_by :
      (W → Str → Str → J → Option J × W) → Str → Str → J → Action J W (Option J)
  send_by call op id payload s =
      let (r, w) = call s.world op id payload in
      (ok r, record s { world = w; sent = record { op = op; id = id; payload = payload } ∷ s.sent })

  -- ctx.Signal: the message is published to a stream, and an error is only logged.
  unfoldable pub signal : Request J → Action J W (Unit {0})
  signal message s = (ok tt, record s { signalled = message ∷ s.signalled })

  -- GlobalCache.SetValue
  unfoldable pub set : Context J W → Str → Stored J → Action J W (Unit {0})
  set ctx key v s =
      (ok tt, record s { world = ctx.set_value s.world key v; written = set_to key v ∷ s.written })

  -- GlobalCache.DeleteValue
  unfoldable pub delete : Context J W → Str → Action J W (Unit {0})
  delete ctx key s =
      (ok tt, record s { world = ctx.delete_value s.world key; written = deleted key ∷ s.written })

-- ===== src/Tx/Requests.antt =====
-- Actions that send only requests that pass a test, put together from such actions.
use foliage_sdk.Common.{
  Bool, true, false, Option, none, some, List, [], ◌∷◌, ◌≡◌, if◌then◌else◌, arith, All, all_of,
}
use foliage_sdk.Common.Text.{Str, codes}
use foliage_sdk.Graph.Context.{
  Context, Request, State, Failure, Result, ok, err, Action, carry, pure, raise, reads, changes,
  ignore, ◌>>=◌, or_raise, when, for_each, send,
}
use foliage_sdk.Tx.Helper.{
  answer, answer_of, check_request_error, request_checked, request_sent, answered, fetch_json,
  create_low_level_link,
}

module _ {J W : Type 0} (ctx : Context J W) (p : Request J → Bool) where
  -- All requests so far pass the test.
  abbrev pub sent_pass : State J W → Bool
  sent_pass s = all_of p s.sent

  unfoldable pub IsKept : {A : Type 0} → Action J W A → Type 0
  IsKept m = (s : State J W) → sent_pass s ≡ true → sent_pass (m s).1 ≡ true

  pub pure-IsKept : {A : Type 0} (a : A) → IsKept (pure a)
  unfolding pure IsKept
  pure-IsKept a s h = h

  pub raise-IsKept : (A : Type 0) (e : Failure) → IsKept {A = A} (raise e)
  unfolding raise IsKept
  raise-IsKept A e s h = h

  pub reads-IsKept : {A : Type 0} (f : W → A) → IsKept (reads f)
  unfolding reads IsKept
  reads-IsKept f s h = h

  pub changes-IsKept : (f : W → W) → IsKept (changes f)
  unfolding changes IsKept
  changes-IsKept f s h = h

  pub ignore-IsKept : (m : Action J W (Unit {0})) → IsKept m → IsKept (ignore m)
  unfolding ignore IsKept
  ignore-IsKept m h = h

  pub answer-IsKept : (m : Action J W (Unit {0})) → IsKept m → IsKept (answer ctx m)
  unfolding answer IsKept
  answer-IsKept m h s k = ends (m s).0 (m s).1 (h s k)
    where
      ends :
          (r : Result (Unit {0})) (s' : State J W)
          → sent_pass s' ≡ true
          → sent_pass (answer_of ctx r s').1 ≡ true
      ends (ok u) s' h' = h'
      ends (err e) s' h' = h'

  carry-IsKept :
      {A B : Type 0} (f : A → Action J W B)
      → ((a : A) → IsKept (f a))
      → (r : Result A) → IsKept (carry f r)
  unfolding IsKept
  carry-IsKept f hf (ok a) = hf a
  carry-IsKept f hf (err e) = λ s h. h

  pub >>=-IsKept :
      {A B : Type 0} (m : Action J W A) (f : A → Action J W B)
      → IsKept m
      → ((a : A) → IsKept (f a))
      → IsKept (m >>= f)
  unfolding ◌>>=◌ IsKept
  >>=-IsKept m f hm hf s h = carry-IsKept f hf (m s).0 (m s).1 (hm s h)

  -- What an action read is known afterwards.
  pub reads->>=-IsKept :
      {A B : Type 0} (f : W → A) (k : A → Action J W B)
      → ((w : W) → IsKept (k (f w)))
      → IsKept (reads f >>= k)
  unfolding ◌>>=◌ reads IsKept
  reads->>=-IsKept f k h s = h s.world s

  pub or_raise-IsKept : {A : Type 0} (e : Failure) (o : Option A) → IsKept (or_raise e o)
  or_raise-IsKept e none = raise-IsKept _ e
  or_raise-IsKept e (some a) = pure-IsKept a

  pub when-IsKept : (b : Bool) (m : Action J W (Unit {0})) → IsKept m → IsKept (when b m)
  when-IsKept true m h = h
  when-IsKept false m h = pure-IsKept tt

  pub either-IsKept :
      {A : Type 0} (b : Bool) (m k : Action J W A)
      → IsKept m
      → IsKept k
      → IsKept (if b then m else k)
  either-IsKept true m k h h' = h
  either-IsKept false m k h h' = h'

  pub for_each-IsKept :
      {A : Type 0} (xs : List A) (f : A → Action J W (Unit {0}))
      → All (λ a. IsKept (f a)) xs
      → IsKept (for_each xs f)
  unfolding for_each
  for_each-IsKept [] f h = pure-IsKept tt
  for_each-IsKept (x ∷ xs) f h = >>=-IsKept (f x) _ h.0 (λ u. for_each-IsKept xs f h.1)

  pub send-IsKept :
      (op id : Str) (payload : J)
      → p (record { op = op; id = id; payload = payload }) ≡ true
      → IsKept (send ctx op id payload)
  unfolding send IsKept
  send-IsKept op id payload e s h = ground (arith, e, h)

  check-IsKept : (o : Option J) → IsKept (check_request_error ctx o)
  unfolding check_request_error
  check-IsKept none = raise-IsKept _ _
  check-IsKept (some result) = either-IsKept _ _ _ (raise-IsKept _ _) (pure-IsKept tt)

  pub request_checked-IsKept :
      (op id : Str) (payload : J)
      → p (record { op = op; id = id; payload = payload }) ≡ true
      → IsKept (request_checked ctx op id payload)
  unfolding request_checked
  request_checked-IsKept op id payload e =
      >>=-IsKept (send ctx op id payload) _ (send-IsKept op id payload e) check-IsKept

  answered-IsKept : (o : Option J) → IsKept (answered ctx o)
  answered-IsKept none = raise-IsKept _ _
  answered-IsKept (some result) = pure-IsKept tt

  pub request_sent-IsKept :
      (op id : Str) (payload : J)
      → p (record { op = op; id = id; payload = payload }) ≡ true
      → IsKept (request_sent ctx op id payload)
  unfolding request_sent
  request_sent-IsKept op id payload e =
      >>=-IsKept (send ctx op id payload) _ (send-IsKept op id payload e) answered-IsKept

  pub fetch_json-IsKept : (key : Str) → IsKept (fetch_json ctx key)
  unfolding fetch_json
  fetch_json-IsKept key =
      reads->>=-IsKept _ _ (λ w. or_raise-IsKept _ (ctx.get_value_as_json w key))

  pub create_low_level_link-IsKept :
      (from to lt object_lt : Str) (body : J)
      → ((j : J)
          → p (record { op = codes "functions.graph.api.link.create"; id = from; payload = j })
            ≡ true)
      → IsKept (create_low_level_link ctx from to lt object_lt body)
  unfolding create_low_level_link
  create_low_level_link-IsKept from to lt object_lt body e = request_sent-IsKept _ from _ (e _)

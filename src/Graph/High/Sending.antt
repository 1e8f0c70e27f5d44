-- ===== src/Graph/High/Sending.antt =====
-- embedded/graph/crud/hl_crud.go: what the steps that its handlers share have sent when they succeed.
use foliage_sdk.Common.{Option, none, some, List, [], ◌∷◌, ◌≡◌, refl, ◌∙◌}
use foliage_sdk.Common.Text.{Str}
use foliage_sdk.Graph.Context.{
  Context, Request, State, Action, ◌>>=◌, for_each, send, send_by, signal,
}
use foliage_sdk.Graph.Outcome.{
  Ends, Ends->>=, Ends-pure, Ends-raise, Ends-reads->>=, Ends-either, Ends-mono,
}
use foliage_sdk.Graph.High.{Calls, check_request_error, request_checked, request_stack}
use foliage_sdk.Graph.High.Triggers.{fire, request_firing}

abbrev pub a_request : {J : Type 0} → Str → Str → J → Request J
a_request op id payload = record { op = op; id = id; payload = payload }

module _ {J W : Type 0} where
  -- After the action, the requests sent are these, and the ones before.
  abbrev pub Sent : {A : Type 0} → List (Request J) → A → State J W → Type 0
  Sent requests a s = s.sent ≡ requests

  Ends-Sent->>= :
      {A B : Type 0} (requests : List (Request J)) (R : B → State J W → Type 0) (m : Action J W A)
      (f : A → Action J W B) (s : State J W)
      → Ends (Sent requests) m s
      → ((a : A) (s' : State J W) → s'.sent ≡ requests → Ends R (f a) s')
      → Ends R (m >>= f) s
  Ends-Sent->>= requests R m f s h k = Ends->>= (Sent requests) R m f s h k

module _ {J W : Type 0} (ctx : Context J W) where
  Ends-check_request_error :
      (o : Option J) (s : State J W) → Ends (Sent s.sent) (check_request_error ctx o) s
  unfolding check_request_error
  Ends-check_request_error none s = Ends-raise _ _ s
  Ends-check_request_error (some result) s =
      Ends-either _ _ _ _ s (Ends-raise _ _ s) (Ends-pure _ result s refl)

  Ends-send :
      (op id : Str) (payload : J) (s : State J W)
      → Ends (Sent (a_request op id payload ∷ s.sent)) (send ctx op id payload) s
  unfolding Ends send
  Ends-send op id payload s = refl

  Ends-then_check :
      (m : Action J W (Option J)) (requests : List (Request J)) (s : State J W)
      → Ends (Sent requests) m s
      → Ends (Sent requests) (m >>= check_request_error ctx) s
  Ends-then_check m requests s h =
      Ends->>= (Sent requests) _ m _ s h
        (λ o s' e. Ends-mono _ s' (λ j s'' e'. e' ∙ e) (Ends-check_request_error o s'))

  pub Ends-request_checked :
      (op id : Str) (payload : J) (s : State J W)
      → Ends (Sent (a_request op id payload ∷ s.sent)) (request_checked ctx op id payload) s
  unfolding request_checked
  Ends-request_checked op id payload s = Ends-then_check _ _ s (Ends-send op id payload s)

module _ {J W : Type 0} (ctx : Context J W) (calls : Calls J W) where
  Ends-send_by :
      (call : W → Str → Str → J → Option J × W) (op id : Str) (payload : J) (s : State J W)
      → Ends (Sent (a_request op id payload ∷ s.sent)) (send_by call op id payload) s
  unfolding Ends send_by
  Ends-send_by call op id payload s = refl

  pub Ends-request_stack :
      (op id : Str) (payload : J) (s : State J W)
      → Ends (Sent (a_request op id payload ∷ s.sent)) (request_stack ctx calls op id payload) s
  unfolding request_stack
  Ends-request_stack op id payload s = Ends-then_check ctx _ _ s (Ends-send_by _ op id payload s)

  Ends-signal : (m : Request J) (s : State J W) → Ends (Sent s.sent) (signal m) s
  unfolding Ends signal
  Ends-signal m s = refl

  Ends-signals : (ms : List (Request J)) (s : State J W) → Ends (Sent s.sent) (for_each ms signal) s
  unfolding for_each
  Ends-signals [] s = Ends-pure _ tt s refl
  Ends-signals (m ∷ ms) s =
      Ends->>= (Sent s.sent) _ _ _ s (Ends-signal m s)
        (λ u s' e. Ends-mono _ s' (λ u' s'' e'. e' ∙ e) (Ends-signals ms s'))

  -- Triggers send no request.
  pub Ends-fire : (result : J) (s : State J W) → Ends (Sent s.sent) (fire ctx calls result) s
  unfolding fire
  Ends-fire result s = Ends-reads->>= _ _ _ s (Ends-signals _ s)

  pub Ends-request_firing :
      (op id : Str) (payload : J) (s : State J W)
      → Ends (Sent (a_request op id payload ∷ s.sent)) (request_firing ctx calls op id payload) s
  unfolding request_firing
  Ends-request_firing op id payload s =
      Ends->>= (Sent (a_request op id payload ∷ s.sent)) _ _ _ s
        (Ends-request_stack op id payload s)
        (λ result s' e. Ends-mono _ s' (λ u s'' e'. e' ∙ e) (Ends-fire result s'))

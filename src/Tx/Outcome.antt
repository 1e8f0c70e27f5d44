-- ===== src/Tx/Outcome.antt =====
-- Requests that pass a test, after an action of embedded/graph/tx that succeeds.
use foliage_sdk.Common.{Bool, true, ◌≡◌}
use foliage_sdk.Graph.Context.{Context, Request, State, Result, ok, err, Action}
use foliage_sdk.Graph.Outcome.{After, Ends}
use foliage_sdk.Tx.Requests.{sent_pass, IsKept}

module _ {J W : Type 0} where
  pub After-all :
      {A : Type 0} (P : State J W → Type 0) (r : Result A) (s : State J W)
      → P s
      → After (λ a s'. P s') r s
  After-all P (ok a) s h = h
  After-all P (err e) s h = tt

  pub Ends-kept :
      {A : Type 0} (ctx : Context J W) (p : Request J → Bool) (m : Action J W A) (s : State J W)
      → IsKept ctx p m
      → sent_pass ctx p s ≡ true
      → Ends (λ a s'. sent_pass ctx p s' ≡ true) m s
  unfolding IsKept Ends
  Ends-kept ctx p m s k h = After-all (λ s'. sent_pass ctx p s' ≡ true) (m s).0 (m s).1 (k s h)

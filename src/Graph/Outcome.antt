-- ===== src/Graph/Outcome.antt =====
-- What holds after an action of the handlers that succeeds.
use mathlib.Core.Path.{subst}
use foliage_sdk.Common.{Bool, true, false, ◌≡◌, if◌then◌else◌}
use foliage_sdk.Graph.Context.{
  State, Result, ok, err, Failure, Action, carry, pure, raise, reads, ◌>>=◌,
}

module _ {J W : Type 0} where
  abbrev pub After : {A : Type 0} → (A → State J W → Type 0) → Result A → State J W → Type 0
  After Q (ok a) s = Q a s
  After Q (err e) s = Unit

  -- What holds after an action that succeeds.
  unfoldable pub Ends : {A : Type 0} → (A → State J W → Type 0) → Action J W A → State J W → Type 0
  Ends Q m s = After Q (m s).0 (m s).1

  pub Ends-pure :
      {A : Type 0} (Q : A → State J W → Type 0) (a : A) (s : State J W) → Q a s → Ends Q (pure a) s
  unfolding Ends pure
  Ends-pure Q a s h = h

  pub Ends-raise :
      {A : Type 0} (Q : A → State J W → Type 0) (e : Failure) (s : State J W) → Ends Q (raise e) s
  unfolding Ends raise
  Ends-raise Q e s = tt

  pub Ends-reads->>= :
      {A B : Type 0} (R : B → State J W → Type 0) (f : W → A) (k : A → Action J W B) (s : State J W)
      → Ends R (k (f s.world)) s
      → Ends R (reads f >>= k) s
  unfolding Ends reads ◌>>=◌
  Ends-reads->>= R f k s h = h

  After-mono :
      {A : Type 0} {Q R : A → State J W → Type 0} (r : Result A) (s : State J W)
      → ((a : A) (s' : State J W) → Q a s' → R a s')
      → After Q r s
      → After R r s
  After-mono (ok a) s f h = f a s h
  After-mono (err e) s f h = tt

  pub Ends-mono :
      {A : Type 0} {Q R : A → State J W → Type 0} (m : Action J W A) (s : State J W)
      → ((a : A) (s' : State J W) → Q a s' → R a s')
      → Ends Q m s
      → Ends R m s
  unfolding Ends
  Ends-mono m s f h = After-mono (m s).0 (m s).1 f h

  pub Ends-either :
      {A : Type 0} (Q : A → State J W → Type 0) (b : Bool) (m k : Action J W A) (s : State J W)
      → Ends Q m s
      → Ends Q k s
      → Ends Q (if b then m else k) s
  Ends-either Q true m k s h h' = h
  Ends-either Q false m k s h h' = h'

  pub After-carry :
      {A B : Type 0} (f : A → Action J W B) (Q : A → State J W → Type 0)
      (R : B → State J W → Type 0) (r : Result A) (s : State J W)
      → After Q r s
      → ((a : A) (s' : State J W) → Q a s' → Ends R (f a) s')
      → After R (carry f r s).0 (carry f r s).1
  unfolding Ends
  After-carry f Q R (ok a) s h k = k a s h
  After-carry f Q R (err e) s h k = tt

  pub Ends->>= :
      {A B : Type 0} (Q : A → State J W → Type 0) (R : B → State J W → Type 0) (m : Action J W A)
      (f : A → Action J W B) (s : State J W)
      → Ends Q m s
      → ((a : A) (s' : State J W) → Q a s' → Ends R (f a) s')
      → Ends R (m >>= f) s
  unfolding ◌>>=◌ Ends
  Ends->>= Q R m f s h k = After-carry f Q R (m s).0 (m s).1 h k

  -- The outcome of an action that is known to succeed.
  pub ended :
      {A : Type 0} (Q : A → State J W → Type 0) (m : Action J W A) (s : State J W) (a : A)
      → Ends Q m s
      → (m s).0 ≡ ok a
      → Q a (m s).1
  unfolding Ends
  ended Q m s a h e = subst (λ r. After Q r (m s).1) e h

  After-any : {A : Type 0} (r : Result A) (s : State J W) → After (λ a s'. Unit) r s
  After-any (ok a) s = tt
  After-any (err e) s = tt

  -- What holds after an action whatever its first part has done.
  pub Ends-after_any :
      {A B : Type 0} (R : B → State J W → Type 0) (m : Action J W A) (f : A → Action J W B)
      (s : State J W)
      → ((a : A) (s' : State J W) → Ends R (f a) s')
      → Ends R (m >>= f) s
  unfolding Ends
  Ends-after_any R m f s h =
      Ends->>= (λ a s'. Unit) R m f s (After-any (m s).0 (m s).1) (λ a s' u. h a s')

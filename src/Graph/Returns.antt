-- ===== src/Graph/Returns.antt =====
-- Actions of the handlers that succeed in every state.
use mathlib.Core.Path.{subst}
use foliage_sdk.Common.{Bool, true, false, Option, List, [], ◌∷◌, ◌≡◌, refl, sym, if◌then◌else◌}
use foliage_sdk.Common.Text.{Str}
use foliage_sdk.Graph.Context.{
  Context, State, Stored, ok, Action, carry, pure, reads, set, delete, send, send_by, for_each,
  ◌>>=◌,
}
use foliage_sdk.Graph.Outcome.{Ends, ended}

module _ {J W : Type 0} where
  pub record Returns {A : Type 0} (m : Action J W A) : Type 0 where
    pub outcome : (s : State J W) → (a : A) × ((m s).0 ≡ ok a)

  pub Returns-pure : {A : Type 0} (a : A) → Returns (pure a)
  unfolding pure
  Returns-pure a = record { outcome = λ s. (a, refl) }

  pub Returns-reads : {A : Type 0} (f : W → A) → Returns (reads f)
  unfolding reads
  Returns-reads f = record { outcome = λ s. (f s.world, refl) }

  pub Returns-set : (ctx : Context J W) (key : Str) (v : Stored J) → Returns (set ctx key v)
  unfolding set
  Returns-set ctx key v = record { outcome = λ s. (tt, refl) }

  pub Returns-delete : (ctx : Context J W) (key : Str) → Returns (delete ctx key)
  unfolding delete
  Returns-delete ctx key = record { outcome = λ s. (tt, refl) }

  pub Returns-send : (ctx : Context J W) (op id : Str) (j : J) → Returns (send ctx op id j)
  unfolding send
  Returns-send ctx op id j = record { outcome = λ s. ((ctx.request s.world op id j).0, refl) }

  pub Returns-send_by :
      (call : W → Str → Str → J → Option J × W) (op id : Str) (j : J)
      → Returns (send_by call op id j)
  unfolding send_by
  Returns-send_by call op id j = record { outcome = λ s. ((call s.world op id j).0, refl) }

  pub Returns->>= :
      {A B : Type 0} (m : Action J W A) (f : A → Action J W B)
      → Returns m
      → ((a : A) → Returns (f a))
      → Returns (m >>= f)
  unfolding ◌>>=◌
  Returns->>= m f h k = record {
    outcome = λ s.
        let (a, e) = h.outcome s in
        let (b, e') = (k a).outcome (m s).1 in
        (b, subst (λ r. (carry f r (m s).1).0 ≡ ok b) (sym e) e');
  }

  pub Returns-if :
      {A : Type 0} (b : Bool) (m k : Action J W A)
      → Returns m
      → Returns k
      → Returns (if b then m else k)
  Returns-if true m k h h' = h
  Returns-if false m k h h' = h'

  pub Returns-for_each :
      {A : Type 0} (xs : List A) (f : A → Action J W (Unit {0}))
      → ((a : A) → Returns (f a))
      → Returns (for_each xs f)
  unfolding for_each
  Returns-for_each [] f h = Returns-pure tt
  Returns-for_each (x ∷ xs) f h = Returns->>= (f x) _ (h x) (λ u. Returns-for_each xs f h)

  -- An action that succeeds, with what holds then.
  pub Returns-Ends :
      {A : Type 0} (Q : A → State J W → Type 0) (m : Action J W A) (s : State J W)
      → Returns m
      → Ends Q m s
      → (a : A) × ((m s).0 ≡ ok a) × Q a (m s).1
  Returns-Ends Q m s h k = let (a, e) = h.outcome s in (a, e, ended Q m s a k e)
